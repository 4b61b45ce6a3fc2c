-- ===== src/Action/Runtime.antt =====
-- `ActionRuntime` of packages/action-runtime/src/runtime.ts: an execution is cut where
-- `executeOnce` awaits, and `Execution` says where it waits. Between two awaits the code is a
-- function of the world, of the answer it waited for and of what the clock reads.
pub mod World
pub mod Evaluating
pub mod Dispatching
pub mod Calls
pub mod Invariant
pub mod Systems
pub mod Promises
pub mod Awaits
pub mod Replies
pub mod Failing
pub mod Licences
