-- ===== src/Action/Runtime/Failing.antt =====
-- What an execution does when its action was cancelled while it awaited a hook (packages/action-runtime/src/runtime.ts).
use qodex.Common.{if◌then◌else◌, ◌≡◌, ap, ◌∙◌, String, Bool, true, false, ok, err}
use qodex.Action.Types.{ActionApproval, ActionDecision, ActionState, ErrorCode}
use qodex.Action.Transitions.{transition_action_state, can_transition}
use qodex.Action.Canonical.{ActionHost}
use qodex.Action.Validation.{same_verdict_allow}
use qodex.Action.Runtime.World.{
  Execution, World, advance, advanced, Clock, Failure, with_decision, local_decision, finish,
}
use qodex.Action.Runtime.Dispatching.{resume_recording, start_dispatch, refused_state}

module _ (host : ActionHost) where
  advance-stuck :
      (w : World) (next : ActionState) (e : Execution)
      → can_transition w.action.snapshot.state next ≡ false
      → (advance w next e).action.execution
        ≡ Execution.rejected (Failure.coded ErrorCode.invalid_transition)
  unfolding advance transition_action_state
  advance-stuck w next e stuck =
      ap
        (λ b.
          (advanced (if b then ok next else err ErrorCode.invalid_transition) w e).action.execution)
        stuck

  -- When the action was cancelled while `afterDecisionReceived` was awaited, the execution is
  -- rejected with `invalid_transition`, whatever the hook answers.
  pub resume_recording-cancelled :
      (a : ActionApproval) (d : ActionDecision) (hook_fails : Bool) (receipt_id : String)
      (clock : Clock) (w : World)
      → w.action.snapshot.state ≡ ActionState.cancelled
      → w.action.aborted ≡ true
      → (resume_recording host a d hook_fails receipt_id clock w).action.execution
        ≡ Execution.rejected (Failure.coded ErrorCode.invalid_transition)
  unfolding resume_recording finish can_transition
  resume_recording-cancelled a d true receipt_id clock w gone aborted =
      advance-stuck
        (with_decision
          (local_decision host w.action.snapshot.proposal "decision_persistence_failed" (clock 0))
          w)
        ActionState.decision_error Execution.ended
        (ap (λ s. can_transition s ActionState.decision_error) gone)
  resume_recording-cancelled a d false receipt_id clock w gone aborted =
      ap
        (λ b.
          (if b
            then finish w ActionState.cancelled
            else if same_verdict_allow d.decision
            then start_dispatch host a d receipt_id clock w
            else finish w (refused_state d.decision)).action.execution)
        aborted
      ∙ advance-stuck w ActionState.cancelled Execution.ended
          (ap (λ s. can_transition s ActionState.cancelled) gone)
