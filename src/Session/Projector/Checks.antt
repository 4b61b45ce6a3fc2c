-- ===== src/Session/Projector/Checks.antt =====
-- The `require...` functions and `proposed` of packages/session-runtime/src/projector.ts.
use qodex.Common.{
  false, ◌&&◌, not, Option, none, some, ◌==◌, eqb, Result, ok, err, guard, ◌>>=◌, ◌>>◌, require,
}
use qodex.Session.Entries.{
  Entry, Kind, Reason, LedgerError, truthy, action_id_of, metadata_text, approval_id_of,
  approval_generation_of, execution_receipt_id_of, entry_kind, proposal_digest_of,
}
use qodex.Session.Projector.State.{PendingAction, kind_eq, is_text}

unfoldable pub proposed : Entry → Kind → Result LedgerError PendingAction
proposed e kind = do
  action_id ← require (truthy (action_id_of e)) LedgerError.missing_action_id
  ok (record {
    kind = kind;
    action_id = action_id;
    task_id = metadata_text "taskId" e;
    proposal_digest = proposal_digest_of e;
    proposal_entry_id = e.id;
    payload = e.payload;
    approved = false;
    started = false;
    settled = false;
    approval_id = none;
    approval_generation = 0;
    decision_recorded = false;
    decision_id = none;
    decision = none;
    reason_code = none;
    decided_at = none;
    policy_version = none;
    decision_schema_version = none;
    agent_fuse_commit = none;
    execution_receipt_id = none;
    recovery_required = false;
    stale = false;
  })

unfoldable pub require_no_pending : Option PendingAction → Result LedgerError (Unit {0})
require_no_pending none = ok tt
require_no_pending (some p) = err LedgerError.pending_replaced

unfoldable pub require_no_unsettled_started_action :
    Option PendingAction → Result LedgerError (Unit {0})
require_no_unsettled_started_action none = ok tt
require_no_unsettled_started_action (some p) =
    guard (not (p.started && not p.settled)) LedgerError.hidden_start

unfoldable pub require_pending : Option PendingAction → Entry → Result LedgerError PendingAction
require_pending none e = err LedgerError.no_pending
require_pending (some p) e = do
  action_id ← require (truthy (action_id_of e)) LedgerError.missing_action_id
  guard (action_id == p.action_id) LedgerError.different_action
  ok p

unfoldable pub require_kind : PendingAction → Entry → Result LedgerError (Unit {0})
require_kind p e = elim (entry_kind e.type) [
  | none ↦ ok tt
  | some expected ↦ guard (kind_eq p.kind expected) LedgerError.different_kind
]

unfoldable pub require_approval_binding : PendingAction → Entry → Result LedgerError (Unit {0})
require_approval_binding p e = do
  approval_id ← require (approval_id_of e) LedgerError.missing_approval_id
  guard (is_text p.approval_id approval_id) LedgerError.different_approval
  generation ← require (approval_generation_of e) LedgerError.missing_generation
  guard (eqb generation p.approval_generation) LedgerError.different_generation

unfoldable pub require_started : PendingAction → Entry → Result LedgerError (Unit {0})
require_started p e = do
  guard p.approved LedgerError.settled_unapproved
  guard p.started LedgerError.settled_unstarted
  guard (not p.settled) LedgerError.settled_twice
  require_approval_binding p e
  receipt ← require (execution_receipt_id_of e) LedgerError.missing_receipt
  guard (is_text p.execution_receipt_id receipt) LedgerError.different_receipt

unfoldable pub require_recovery_kind : PendingAction → Reason → Result LedgerError (Unit {0})
require_recovery_kind p Reason.patch_reapproval =
    guard (kind_eq p.kind Kind.patch) LedgerError.not_a_patch
require_recovery_kind p Reason.command_reapproval =
    guard (kind_eq p.kind Kind.command) LedgerError.not_a_command
require_recovery_kind p Reason.interrupted = ok tt
