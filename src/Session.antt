-- ===== src/Session.antt =====
-- packages/session-runtime: the session ledger.
pub mod Json
pub mod Sensitive
pub mod Entries
pub mod Projector
pub mod Validation
pub mod Sanitize
pub mod Store
pub mod Path
pub mod Runtime
pub mod Recovery
pub mod Export
pub mod Sessions
mod Examples
