-- ===== src/Action/Runtime/Evaluating.antt =====
-- `executeOnce` up to the decision, and `failClosedDecision` (packages/action-runtime/src/runtime.ts).
use qodex.Common.{
  ℕ, Bool, true, false, not, Option, none, some, has, ok, err, guard, ◌>>◌, if◌then◌else◌,
}
use qodex.Action.Types.{ActionApproval, ActionDecision, ActionState, ErrorCode, code_text}
use qodex.Action.Transitions.{transition_action_state, same_state}
use qodex.Action.Canonical.{ActionHost}
use qodex.Action.Validation.{Check, validate_action_approval, validate_action_decision}
use qodex.Action.Runtime.World.{
  Failure, Execution, ActionRecord, World, Clock, waiting, reject, with_decision, with_decision_id,
  checked, moving, advance, finish, local_decision,
}

abbrev pub keep_decision : ActionDecision → World → World
keep_decision decision w = with_decision decision (with_decision_id decision.decision_id w)

unfoldable pub resume_requesting : ActionApproval → (hook_fails : Bool) → World → World
resume_requesting approval true w = reject Failure.hook_failed w
resume_requesting approval false w = waiting (Execution.deciding approval) w

module _ (host : ActionHost) where
  unfoldable pub assert_approval_valid : ActionRecord → ActionApproval → (now : ℕ) → Check
  unfolding validate_action_approval
  assert_approval_valid r approval now =
      validate_action_approval host approval (some r.snapshot.proposal) (some r.expected_generation)
        now

  -- the tests that `executeOnce` and `failClosedDecision` make before they keep a decision
  unfoldable pub accept_decision : World → ActionDecision → Check
  unfolding validate_action_decision
  accept_decision w decision = do
    validate_action_decision host decision (some w.action.snapshot.proposal)
        host.evidence_size_limit
    guard (not (has decision.decision_id w.shared.decision_ids)) ErrorCode.duplicate_decision

  -- `failClosedDecision`, up to the hook
  unfoldable pub fail_closed_decision : ActionDecision → World → World
  unfolding accept_decision
  fail_closed_decision decision w =
      checked (accept_decision w decision) w (waiting Execution.refusing (keep_decision decision w))

  unfoldable pub resume_refusing : (hook_fails : Bool) → Clock → World → World
  unfolding local_decision advance
  resume_refusing true clock w =
      finish
        (with_decision
          (local_decision host w.action.snapshot.proposal "decision_persistence_failed" (clock 0))
          w)
        ActionState.decision_error
  resume_refusing false clock w = finish w ActionState.decision_error

  unfoldable pub refuse_unknown : Clock → World → World
  unfolding fail_closed_decision local_decision
  refuse_unknown clock w =
      fail_closed_decision
        (local_decision host w.action.snapshot.proposal "unknown_action" (clock 1)) w

  unfoldable pub start_evaluation : Clock → World → ActionApproval → World
  unfolding transition_action_state fail_closed_decision local_decision
  start_evaluation clock w approval =
      moving (transition_action_state w.action.snapshot.state ActionState.evaluating) w (
        if has w.action.snapshot.proposal.action_type w.shared.handlers
        then waiting (Execution.requesting approval)
        else refuse_unknown clock)

  unfoldable pub execute_approved : Clock → World → Option ActionApproval → World
  unfolding assert_approval_valid advance transition_action_state fail_closed_decision
      local_decision same_state
  execute_approved clock w none = reject (Failure.coded ErrorCode.invalid_transition) w
  execute_approved clock w (some approval) =
      if not (same_state w.action.snapshot.state ActionState.approved)
      then reject (Failure.coded ErrorCode.invalid_transition) w
      else checked (assert_approval_valid w.action approval (clock 0)) w (
          if w.action.aborted
          then finish w ActionState.cancelled
          else start_evaluation clock w approval)

  -- `executeOnce`, up to its first await
  unfoldable pub execute_once : Clock → World → World
  unfolding assert_approval_valid advance transition_action_state fail_closed_decision
      local_decision same_state
  execute_once clock w = execute_approved clock w w.action.snapshot.approval

  unfoldable pub decided : ActionApproval → ActionDecision → Check → Clock → World → World
  unfolding fail_closed_decision local_decision
  decided approval decision (err code) clock w =
      fail_closed_decision
        (local_decision host w.action.snapshot.proposal (code_text code) (clock 1)) w
  decided approval decision (ok done) clock w =
      waiting (Execution.recording approval decision) (keep_decision decision w)

  -- `none`: the provider threw
  unfoldable pub resume_deciding : ActionApproval → Option ActionDecision → Clock → World → World
  unfolding fail_closed_decision local_decision accept_decision code_text
  resume_deciding approval (some decision) clock w =
      decided approval decision (accept_decision w decision) clock w
  resume_deciding approval none clock w =
      let decision =
        local_decision host w.action.snapshot.proposal "decision_provider_failed" (clock 0) in
      decided approval decision (accept_decision w decision) clock w
