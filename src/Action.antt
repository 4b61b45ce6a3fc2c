-- ===== src/Action.antt =====
-- packages/action-runtime: actions that wait for an approval and a decision before they run.
pub mod Types
pub mod Transitions
pub mod Canonical
pub mod Validation
pub mod Runtime
mod Examples
