-- ===== src/ControlPlane/Supervisor.antt =====
-- `ControlPlaneSupervisor` of packages/multi-agent-runtime/src/control-plane/supervisor.ts: two
-- backends are admitted, run as workers, and their findings are compared.
pub mod Data
pub mod Admission
pub mod Workers
pub mod Findings
pub mod Matching
pub mod Bounds
pub mod Reconciliation
pub mod Promises
pub mod Tables
pub mod Agreement
mod Examples
