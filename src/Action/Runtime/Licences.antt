-- ===== src/Action/Runtime/Licences.antt =====
-- Where the receipt of an action and the approval of an execution come from, in the past of a
-- runtime (packages/action-runtime/src/runtime.ts).
pub mod Quiet
pub mod Segments
pub mod Steps
pub mod Resuming
pub mod Past
pub mod Granting
pub mod Refusals
