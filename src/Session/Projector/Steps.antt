-- ===== src/Session/Projector/Steps.antt =====
-- The `case` groups of the switch in `SessionProjector.project`
-- (packages/session-runtime/src/projector.ts), one function for each. `Date.parse` is the
-- parameter `parses_date`, since its grammar is the host's.
use qodex.Common.{
  suc, String, Bool, true, false, ◌&&◌, ◌||◌, not, Option, none, some, ◌∷◌, eqb, if◌then◌else◌, has,
  Result, ok, guard, ◌>>=◌, ◌>>◌, require,
}
use mathlib.Core.Option
use qodex.Common.Text.{is_sha256}
use qodex.Session.Entries.{
  Decision, SessionStatus, Entry, Kind, Reason, LedgerError, truthy, required_metadata_text,
  approval_id_of, approval_generation_of, execution_receipt_id_of, decision_of, recovery_reason,
  require_command_decision_payload,
}
use qodex.Session.Projector.State.{
  PendingAction, State, Step, kind_eq, is_allow, is_hold, is_text, is_missing,
}
use qodex.Session.Projector.Checks.{
  require_no_unsettled_started_action, require_pending, require_kind, require_approval_binding,
  require_started, require_recovery_kind,
}

-- case ACTION_APPROVED, PATCH_APPROVED, COMMAND_APPROVED
unfoldable pub approve : Entry → State → Step
approve e s = do
  p ← require_pending s.pending_action e
  require_kind p e
  guard (not (p.started || p.settled)) LedgerError.approved_after_start
  guard (not p.approved) LedgerError.approved_twice
  approval_id ← require (approval_id_of e) LedgerError.missing_approval_id
  guard (not (has approval_id s.approval_ids)) LedgerError.approval_reused
  generation ← require (approval_generation_of e) LedgerError.missing_generation
  guard (not (p.recovery_required && not (eqb generation p.approval_generation)))
      LedgerError.stale_reapproval
  guard (not (not p.recovery_required && not (eqb generation p.approval_generation)))
      LedgerError.different_generation
  ok (record s {
    approval_ids = approval_id ∷ s.approval_ids;
    pending_action =
        some
          (record p { approved = true; approval_id = some approval_id; recovery_required = false });
    recovery_requirement = none;
    status = SessionStatus.active;
  })

-- what `ACTION_DECIDED` must say of a command beyond other actions
unfoldable pub command_evidence :
    (String → Bool) → PendingAction → Entry → Result LedgerError (String × String)
command_evidence parses_date p e = do
  digest ← required_metadata_text "proposalDigest" e
  guard (is_text (truthy p.proposal_digest) digest && is_sha256 digest) LedgerError.different_digest
  reason_code ← required_metadata_text "reasonCode" e
  decided_at ← required_metadata_text "decidedAt" e
  guard (parses_date decided_at) LedgerError.invalid_decided_at
  require_command_decision_payload e digest reason_code decided_at
  ok (reason_code, decided_at)

abbrev both_some :
    Result LedgerError (String × String) → Result LedgerError (Option String × Option String)
both_some r = do (a, b) ← r; ok (some a, some b)

-- the evidence that `decide` records: for another kind than a command, none
unfoldable pub decision_evidence :
    (String → Bool) → PendingAction → Entry → Result LedgerError (Option String × Option String)
decision_evidence parses_date p e =
    if kind_eq p.kind Kind.command
    then both_some (command_evidence parses_date p e)
    else ok (none, none)

-- the checks of case ACTION_DECIDED on the pending action and the task
unfoldable pub require_decidable : PendingAction → Entry → Result LedgerError (Unit {0})
require_decidable p e = do
  guard (not (kind_eq p.kind Kind.patch)) LedgerError.undecidable_kind
  guard p.approved LedgerError.decided_unapproved
  guard (not (p.started || p.settled)) LedgerError.decided_after_start
  guard (not p.decision_recorded) LedgerError.decided_twice
  require_approval_binding p e
  task_id ← required_metadata_text "taskId" e
  guard (not (kind_eq p.kind Kind.command && is_missing (truthy p.task_id)))
      LedgerError.missing_task
  guard (is_missing (truthy p.task_id) || is_text p.task_id task_id) LedgerError.different_task

-- what `ACTION_DECIDED` writes into the pending action
abbrev pub decided_action :
    PendingAction
    → String
    → Decision
    → Option String
    → Option String
    → String
    → String
    → String
    → PendingAction
decided_action p decision_id decision reason_code decided_at policy_version schema_version commit =
    record p {
      decision_recorded = true;
      decision_id = some decision_id;
      decision = some decision;
      reason_code = reason_code;
      decided_at = decided_at;
      policy_version = some policy_version;
      decision_schema_version = some schema_version;
      agent_fuse_commit = some commit;
    }

-- the state after a decision; any but `allow` settles the action
abbrev pub record_decision : State → String → Decision → PendingAction → State
record_decision s decision_id decision q =
    let allowed = is_allow (some decision) in
    record s {
      decision_ids = decision_id ∷ s.decision_ids;
      pending_action = if allowed then some q else none;
      recovery_requirement = if allowed then s.recovery_requirement else none;
    }

-- case ACTION_DECIDED
unfoldable pub decide : (String → Bool) → Entry → State → Step
decide parses_date e s = do
  p ← require_pending s.pending_action e
  require_decidable p e
  decision_id ← required_metadata_text "decisionId" e
  guard (not (has decision_id s.decision_ids)) LedgerError.decision_reused
  decision ← require (decision_of e) LedgerError.unsupported_decision
  guard (not (kind_eq p.kind Kind.command && is_hold decision)) LedgerError.hold_command
  policy_version ← required_metadata_text "policyVersion" e
  schema_version ← required_metadata_text "decisionSchemaVersion" e
  commit ← required_metadata_text "agentFuseCommit" e
  (reason_code, decided_at) ← decision_evidence parses_date p e
  ok (
      record_decision s decision_id decision (
        decided_action p decision_id decision reason_code decided_at policy_version schema_version
          commit))

-- case ACTION_DENIED, PATCH_REJECTED, COMMAND_DENIED
unfoldable pub deny : Entry → State → Step
deny e s = do
  p ← require_pending s.pending_action e
  require_kind p e
  guard (not (p.started || p.settled)) LedgerError.denied_after_start
  ok (record s { pending_action = none; recovery_requirement = none })

-- a generic action or a command starts only on a recorded allow decision, which the entry names
unfoldable pub require_allow : PendingAction → Entry → Result LedgerError (Unit {0})
require_allow p e =
    if kind_eq p.kind Kind.action || kind_eq p.kind Kind.command
    then (do
      guard (p.decision_recorded && is_allow p.decision) LedgerError.no_prior_allow
      decision_id ← required_metadata_text "decisionId" e
      guard (is_text p.decision_id decision_id) LedgerError.different_decision)
    else ok tt

-- case ACTION_STARTED, PATCH_STARTED, COMMAND_STARTED
unfoldable pub start : Entry → State → Step
start e s = do
  p ← require_pending s.pending_action e
  require_kind p e
  guard p.approved LedgerError.unapproved_start
  guard (not p.started) LedgerError.started_twice
  guard (not p.settled) LedgerError.settled_start
  require_approval_binding p e
  require_allow p e
  receipt ← require (execution_receipt_id_of e) LedgerError.missing_receipt
  ok (record s {
    pending_action = some (record p { started = true; execution_receipt_id = some receipt });
  })

-- case ACTION_COMPLETED, PATCH_APPLIED
unfoldable pub complete : Entry → State → Step
complete e s = do
  p ← require_pending s.pending_action e
  require_kind p e
  require_started p e
  ok (record s { pending_action = none; recovery_requirement = none })

-- case COMMAND_COMPLETED
unfoldable pub complete_command : Entry → State → Step
complete_command e s = do t ← complete e s; ok (record t { last_command_result = e.payload })

-- case ACTION_FAILED
unfoldable pub fail : Entry → State → Step
fail e s = do
  p ← require_pending s.pending_action e
  require_started p e
  ok (record s { pending_action = none })

abbrev pub is_interrupted : Reason → Bool
is_interrupted Reason.interrupted = true
is_interrupted _ = false

-- the pending action after an interruption
unfoldable pub interrupted_action : PendingAction → PendingAction
interrupted_action p = record p {
  recovery_required = not p.started;
  approved = false;
  approval_id = none;
}

-- the pending action after RECOVERY_REQUIRED for a reapproval
unfoldable pub reapprovable : Entry → Reason → PendingAction → Result LedgerError PendingAction
unfolding interrupted_action
reapprovable e reason p = do
  require_recovery_kind p reason
  guard (not (p.started || p.settled)) LedgerError.reapproved_after_start
  generation ← require (approval_generation_of e) LedgerError.missing_generation
  guard (eqb generation (suc p.approval_generation)) LedgerError.recovery_generation
  ok (record (interrupted_action p) {
    approval_generation = suc p.approval_generation;
    decision_recorded = false;
    decision_id = none;
    decision = none;
    reason_code = none;
    decided_at = none;
    policy_version = none;
    decision_schema_version = none;
    agent_fuse_commit = none;
  })

unfoldable pub recover_action :
    Entry → Reason → Option PendingAction → Result LedgerError (Option PendingAction)
recover_action e reason none = ok none
recover_action e reason (some p) =
    if is_interrupted reason
    then ok (some (interrupted_action p))
    else do q ← reapprovable e reason p; ok (some q)

-- case RECOVERY_REQUIRED
unfoldable pub require_recovery : Entry → State → Step
require_recovery e s = do
  let reason = recovery_reason e.payload
  pending ← recover_action e reason s.pending_action
  ok (record s {
    pending_action = pending;
    recovery_requirement = some (record {
      reason = reason;
      execution_status = if is_interrupted reason then some "unknown_or_interrupted" else none;
    });
    status =
        if is_interrupted reason
        then SessionStatus.interrupted
        else SessionStatus.recovery_required;
  })

-- case RECOVERY_COMPLETED
unfoldable pub finish_recovery : State → Step
finish_recovery s = do
  guard (is_missing s.pending_action) LedgerError.recovery_pending
  ok (record s { recovery_requirement = none; status = SessionStatus.active })

-- case SESSION_INTERRUPTED
unfoldable pub interrupt : State → Step
unfolding interrupted_action
interrupt s = ok (record s {
  status = SessionStatus.interrupted;
  recovery_requirement =
      some
        (record { reason = Reason.interrupted; execution_status = some "unknown_or_interrupted" });
  pending_action = Option.map interrupted_action s.pending_action;
})

-- the four cases that close a session
unfoldable pub close : SessionStatus → Entry → State → Step
close status e s = do
  require_no_unsettled_started_action s.pending_action
  ok (record s {
    status = status;
    completed_at = some e.created_at;
    pending_action = none;
    recovery_requirement = none;
  })
