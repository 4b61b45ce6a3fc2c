-- ===== src/Session/Projector.antt =====
-- `SessionProjector` of packages/session-runtime/src/projector.ts: the fold of a ledger into the
-- state of its session.
pub mod State
pub mod Checks
pub mod Steps
pub mod Fold
pub mod Approving
pub mod Inversion
pub mod Backed
pub mod Backing
pub mod Runs
pub mod Evidence
pub mod Frame
pub mod Order
pub mod Counts
pub mod Closing
pub mod Started
pub mod Unsettled
