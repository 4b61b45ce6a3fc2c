-- ===== src/Action/Runtime/Invariant/Running.antt =====
-- The segments behind the handler keep the invariant (packages/action-runtime/src/runtime.ts).
use qodex.Common.{◌≡◌, refl, sym, ap, ◌∙◌, ℕ, Bool, true, false, none, some, ok, err}
use qodex.Action.Types.{ActionState, ActionStarted, ActionOutcome, OutcomeStatus}
use qodex.Action.Transitions.{can_transition, is_terminal_action_state}
use qodex.Action.Canonical.{ActionHost}
use qodex.Action.Validation.{Check}
use qodex.Action.Runtime.World.{
  Failure, Execution, World, Clock, HandlerAnswer, reject, waiting, moved_to, advance,
}
use qodex.Action.Runtime.Dispatching.{
  is_recorded, with_outcome, conclude, settled_state, resume_reporting, uncertain_outcome,
  valid_outcome, interrupt_after_settlement_failure, candidate_outcome, await_settlement,
  resume_handling, resume_settling,
}
use qodex.Action.Runtime.Invariant.{Reaches, Phase, Sound}
use qodex.Action.Runtime.Invariant.Combinators.{checked-holds, advance-holds}
use qodex.Action.Runtime.Invariant.Idling.{Next, one_move}

running-settled_state :
    (k : OutcomeStatus) → can_transition ActionState.running (settled_state k) ≡ true
unfolding can_transition settled_state
running-settled_state OutcomeStatus.completed = refl
running-settled_state OutcomeStatus.failed = refl
running-settled_state OutcomeStatus.cancelled = refl
running-settled_state OutcomeStatus.unknown_or_interrupted = refl

pub settled_state-terminal : (k : OutcomeStatus) → is_terminal_action_state (settled_state k) ≡ true
unfolding is_terminal_action_state settled_state
settled_state-terminal OutcomeStatus.completed = refl
settled_state-terminal OutcomeStatus.failed = refl
settled_state-terminal OutcomeStatus.cancelled = refl
settled_state-terminal OutcomeStatus.unknown_or_interrupted = refl

module _ (host : ActionHost) where
  module _ (w : World) (sound : Sound host w.action) where
    -- only the place where the execution waits changes
    pub wait-Next :
        (e : Execution)
        → Phase host w.action.snapshot w.action.expected_generation w.action.aborted e
        → Next host w (waiting e w)
    wait-Next e phase = record {
      sound = record { authorised = sound.authorised; settled = sound.settled; phase = phase };
      evolved = record {
        walked = Reaches.stay;
        same_proposal = refl;
        still_started = λ receipt h. h;
        still_settled = λ outcome h. h;
        still_aborted = λ h. h;
        barred = λ h idle. idle;
      };
    }

    pub reject-Next : (failure : Failure) → Next host w (reject failure w)
    reject-Next failure = wait-Next (Execution.rejected failure) tt

    module _ (receipt : ActionStarted) (running : w.action.snapshot.state ≡ ActionState.running)
        (started : w.action.snapshot.started ≡ some receipt)
        (unsettled : w.action.snapshot.outcome ≡ none) where
      concluded-Next :
          (outcome : ActionOutcome) (e : Execution)
          → valid_outcome host w receipt outcome ≡ ok tt
          → Phase host
              (waiting e
                (moved_to (settled_state outcome.status) (with_outcome outcome w))).action.snapshot
              w.action.expected_generation
              w.action.aborted
              e
          → Next host w
              (waiting e (moved_to (settled_state outcome.status) (with_outcome outcome w)))
      unfolding valid_outcome with_outcome
      concluded-Next outcome e valid phase = record {
        sound = record {
          authorised = λ other same.
              let held = sound.authorised other same in
              record {
                approval = held.approval;
                decision = held.decision;
                now = held.now;
                later = held.later;
                kept = held.kept;
                approved = held.approved;
                decided = held.decided;
                bound = held.bound;
              };
          settled = λ other same.
              let named : outcome ≡ other = cc in
              record { receipt = receipt; reached = cc; started = started; valid = cc };
          phase = phase;
        };
        evolved = record {
          walked = one_move (
              ap (λ s. can_transition s (settled_state outcome.status)) running
              ∙ running-settled_state outcome.status);
          same_proposal = refl;
          still_started = λ other h. h;
          still_settled = λ other h. cc;
          still_aborted = λ h. h;
          barred = λ h idle. idle;
        };
      }

      conclude-Next :
          (outcome : ActionOutcome) (e : Execution)
          → valid_outcome host w receipt outcome ≡ ok tt
          → Phase host
              (waiting e
                (moved_to (settled_state outcome.status) (with_outcome outcome w))).action.snapshot
              w.action.expected_generation
              w.action.aborted
              e
          → Next host w (conclude outcome (settled_state outcome.status) e w)
      unfolding conclude with_outcome
      conclude-Next outcome e valid phase =
          let moves : can_transition w.action.snapshot.state (settled_state outcome.status) ≡ true =
            ap (λ s. can_transition s (settled_state outcome.status)) running
            ∙ running-settled_state outcome.status in
          checked-holds (Next host w) (is_recorded outcome w) w
            (advance (with_outcome outcome w) (settled_state outcome.status) e) reject-Next
            (λ fresh.
              advance-holds (Next host w) (settled_state outcome.status) (with_outcome outcome w) e
                (λ stuck. absurd cc (moves, stuck)) (λ moved. concluded-Next outcome e valid phase))

      interrupt-Next :
          (now : ℕ) → Next host w (interrupt_after_settlement_failure host receipt now w)
      unfolding interrupt_after_settlement_failure settled_state with_outcome
      interrupt-Next now =
          checked-holds (Next host w)
            (valid_outcome host w receipt (uncertain_outcome host w receipt now)) w
            (conclude (uncertain_outcome host w receipt now) ActionState.interrupted
              Execution.reporting w)
            reject-Next
            (λ valid.
              conclude-Next (uncertain_outcome host w receipt now) Execution.reporting valid refl)

      await_settlement-Next :
          (outcome : ActionOutcome) (check : Check) (now : ℕ)
          → check ≡ valid_outcome host w receipt outcome
          → Next host w (await_settlement host receipt outcome check now w)
      unfolding await_settlement valid_outcome
      await_settlement-Next outcome (err code) now same = interrupt-Next now
      await_settlement-Next outcome (ok done) now same =
          wait-Next (Execution.settling receipt outcome) (running, started, unsettled, sym same)

      pub resume_handling-Next :
          (answer : HandlerAnswer) (clock : Clock)
          → Next host w (resume_handling host receipt answer clock w)
      unfolding resume_handling
      resume_handling-Next answer clock =
          await_settlement-Next (candidate_outcome host w receipt answer (clock 0)) _ (clock 1) refl

      pub resume_settling-Next :
          (outcome : ActionOutcome) (hook_fails : Bool) (clock : Clock)
          → valid_outcome host w receipt outcome ≡ ok tt
          → Next host w (resume_settling host receipt outcome hook_fails clock w)
      unfolding resume_settling with_outcome
      resume_settling-Next outcome true clock valid = interrupt-Next (clock 0)
      resume_settling-Next outcome false clock valid =
          conclude-Next outcome Execution.ended valid (settled_state-terminal outcome.status)

    pub resume_reporting-Next :
        w.action.snapshot.state ≡ ActionState.interrupted → Next host w (resume_reporting w)
    unfolding resume_reporting is_terminal_action_state
    resume_reporting-Next here = wait-Next Execution.ended (ap is_terminal_action_state here)
