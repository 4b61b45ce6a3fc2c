-- ===== src/Action/Runtime/Dispatching.antt =====
-- `executeOnce` from the kept decision to the outcome, and `interruptAfterSettlementFailure`
-- (packages/action-runtime/src/runtime.ts).
use qodex.Common.{
  ℕ, String, Bool, true, false, not, ◌||◌, none, some, ◌∷◌, has, ok, err, guard, if◌then◌else◌,
}
use qodex.Common.Maps.{lookup, insert}
use qodex.Action.Types.{
  ActionApproval, ActionDecision, ActionStarted, ActionOutcome, ActionState, OutcomeStatus, Verdict,
  ErrorCode,
}
use qodex.Action.Transitions.{transition_action_state}
use qodex.Action.Canonical.{ActionHost}
use qodex.Action.Validation.{
  Check, validate_action_started, validate_action_outcome, same_verdict_allow, is_present,
}
use qodex.Action.Runtime.World.{
  Failure, Execution, World, Clock, HandlerAnswer, waiting, reject, with_decision, checked, moving,
  advance, finish, local_decision,
}
use qodex.Action.Runtime.Evaluating.{assert_approval_valid}

abbrev pub refused_state : Verdict → ActionState
refused_state Verdict.deny = ActionState.denied
refused_state Verdict.hold = ActionState.held
refused_state _ = ActionState.decision_error

abbrev pub with_receipt : ActionStarted → World → World
with_receipt started w = record w {
  action = record w.action { snapshot = record w.action.snapshot { started = some started } };
  shared = record w.shared {
    execution_receipts = started.execution_receipt_id ∷ w.shared.execution_receipts;
  };
}

-- `recordTerminalOutcome`
unfoldable pub is_recorded : ActionOutcome → World → Check
unfolding lookup
is_recorded outcome w =
    guard (not (is_present (lookup outcome.execution_receipt_id w.shared.terminal_outcomes)))
      ErrorCode.duplicate_terminal_outcome

unfoldable pub with_outcome : ActionOutcome → World → World
unfolding insert
with_outcome outcome w = record w {
  action = record w.action { snapshot = record w.action.snapshot { outcome = some outcome } };
  shared = record w.shared {
    terminal_outcomes = insert outcome.execution_receipt_id outcome w.shared.terminal_outcomes;
  };
}

unfoldable pub conclude : ActionOutcome → ActionState → Execution → World → World
unfolding advance is_recorded insert
conclude outcome next e w =
    checked (is_recorded outcome w) w (advance (with_outcome outcome w) next e)

unfoldable pub settled_state : OutcomeStatus → ActionState
settled_state OutcomeStatus.completed = ActionState.completed
settled_state OutcomeStatus.failed = ActionState.failed
settled_state OutcomeStatus.cancelled = ActionState.cancelled
settled_state OutcomeStatus.unknown_or_interrupted = ActionState.interrupted

-- whatever the last hook answers
unfoldable pub resume_reporting : World → World
resume_reporting w = waiting Execution.ended w

module _ (host : ActionHost) where
  -- the tests of a receipt, in the state `Starting`
  unfoldable pub await_dispatch :
      ActionApproval → ActionDecision → ActionStarted → (now : ℕ) → World → World
  unfolding validate_action_started
  await_dispatch approval decision started now w =
      checked
        (validate_action_started host started (some w.action.snapshot.proposal) (some approval)
          (some decision) now)
        w
        (checked
          (guard
            (not (
              is_present w.action.snapshot.started
              || has started.execution_receipt_id w.shared.execution_receipts))
            ErrorCode.duplicate_dispatch)
          w (waiting (Execution.dispatching approval decision started) w))

  abbrev pub receipt_of :
      World → ActionApproval → ActionDecision → String → (now : ℕ) → ActionStarted
  receipt_of w approval decision receipt_id now = record {
    action_id = w.action.snapshot.proposal.action_id;
    approval_id = approval.approval_id;
    decision_id = decision.decision_id;
    execution_receipt_id = receipt_id;
    started_at = host.iso_text now;
  }

  unfoldable pub start_dispatch : ActionApproval → ActionDecision → String → Clock → World → World
  unfolding assert_approval_valid transition_action_state validate_action_started
  start_dispatch approval decision receipt_id clock w =
      checked (assert_approval_valid host w.action approval (clock 0)) w (
        moving (transition_action_state w.action.snapshot.state ActionState.allowed) w (λ w₁.
          moving (transition_action_state w₁.action.snapshot.state ActionState.starting) w₁ (λ w₂.
            await_dispatch approval decision (receipt_of w₂ approval decision receipt_id (clock 1))
              (clock 2) w₂)))

  unfoldable pub resume_recording :
      ActionApproval
      → ActionDecision
      → (hook_fails : Bool) → (receipt_id : String) → Clock
      → World
      → World
  unfolding local_decision advance assert_approval_valid transition_action_state
      validate_action_started
  resume_recording approval decision true receipt_id clock w =
      finish
        (with_decision
          (local_decision host w.action.snapshot.proposal "decision_persistence_failed" (clock 0))
          w)
        ActionState.decision_error
  resume_recording approval decision false receipt_id clock w =
      if w.action.aborted
      then finish w ActionState.cancelled
      else if same_verdict_allow decision.decision
      then start_dispatch approval decision receipt_id clock w
      else finish w (refused_state decision.decision)

  unfoldable pub resume_dispatching :
      ActionApproval → ActionDecision → ActionStarted → (hook_fails : Bool) → Clock → World → World
  unfolding advance assert_approval_valid
  resume_dispatching approval decision started true clock w =
      reject (Failure.coded ErrorCode.dispatch_barrier_failed) w
  resume_dispatching approval decision started false clock w =
      checked (assert_approval_valid host w.action approval (clock 0)) w (
        if w.action.aborted
        then finish w ActionState.cancelled
        else advance (with_receipt started w) ActionState.running
            (Execution.handling approval decision started))

  abbrev pub uncertain_outcome : World → ActionStarted → (now : ℕ) → ActionOutcome
  uncertain_outcome w started now = record {
    action_id = w.action.snapshot.proposal.action_id;
    execution_receipt_id = started.execution_receipt_id;
    status = OutcomeStatus.unknown_or_interrupted;
    result = none;
    error = some (record {
      code = "settlement_persistence_failed";
      message = "Durable settlement evidence could not be recorded.";
    });
    settled_at = host.iso_text now;
  }

  unfoldable pub valid_outcome : World → ActionStarted → ActionOutcome → Check
  unfolding validate_action_outcome
  valid_outcome w started outcome =
      validate_action_outcome host outcome (some w.action.snapshot.proposal) (some started)
        host.evidence_size_limit

  -- `interruptAfterSettlementFailure`, up to its hook
  unfoldable pub interrupt_after_settlement_failure : ActionStarted → (now : ℕ) → World → World
  unfolding advance is_recorded insert validate_action_outcome
  interrupt_after_settlement_failure started now w =
      checked (valid_outcome w started (uncertain_outcome w started now)) w
        (conclude (uncertain_outcome w started now) ActionState.interrupted Execution.reporting w)

  abbrev failure_outcome : World → ActionStarted → (cancelled : Bool) → (now : ℕ) → ActionOutcome
  failure_outcome w started cancelled now = record {
    action_id = w.action.snapshot.proposal.action_id;
    execution_receipt_id = started.execution_receipt_id;
    status = if cancelled then OutcomeStatus.cancelled else OutcomeStatus.failed;
    result = none;
    error = some (record {
      code = if cancelled then "handler_cancelled" else "handler_failed";
      message =
          if cancelled
          then "Action handler acknowledged cancellation."
          else "Action handler failed after dispatch.";
    });
    settled_at = host.iso_text now;
  }

  unfoldable pub candidate_outcome :
      World → ActionStarted → HandlerAnswer → (now : ℕ) → ActionOutcome
  candidate_outcome w started (HandlerAnswer.returned result) now = record {
    action_id = w.action.snapshot.proposal.action_id;
    execution_receipt_id = started.execution_receipt_id;
    status = OutcomeStatus.completed;
    result = result;
    error = none;
    settled_at = host.iso_text now;
  }
  candidate_outcome w started (HandlerAnswer.threw is_abort_error) now =
      failure_outcome w started (w.action.aborted || is_abort_error) now

  unfoldable pub await_settlement :
      ActionStarted → ActionOutcome → Check → (now : ℕ) → World → World
  unfolding interrupt_after_settlement_failure
  await_settlement started outcome (err code) now w =
      interrupt_after_settlement_failure started now w
  await_settlement started outcome (ok done) now w = waiting (Execution.settling started outcome) w

  unfoldable pub resume_handling : ActionStarted → HandlerAnswer → Clock → World → World
  unfolding interrupt_after_settlement_failure candidate_outcome validate_action_outcome
  resume_handling started answer clock w =
      let outcome = candidate_outcome w started answer (clock 0) in
      await_settlement started outcome (valid_outcome w started outcome) (clock 1) w

  unfoldable pub resume_settling :
      ActionStarted → ActionOutcome → (hook_fails : Bool) → Clock → World → World
  unfolding interrupt_after_settlement_failure advance is_recorded insert settled_state
  resume_settling started outcome true clock w =
      interrupt_after_settlement_failure started (clock 0) w
  resume_settling started outcome false clock w =
      conclude outcome (settled_state outcome.status) Execution.ended w
