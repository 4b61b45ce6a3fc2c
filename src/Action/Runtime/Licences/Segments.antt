-- ===== src/Action/Runtime/Licences/Segments.antt =====
-- The segments of an execution that give no receipt and bring no new approval
-- (packages/action-runtime/src/runtime.ts).
use qodex.Common.{
  ◌≡◌, refl, inl, inr, ℕ, String, Bool, true, false, Option, none, some, ok, err, if◌then◌else◌,
  has, not,
}
use qodex.Action.Types.{
  ActionApproval, ActionDecision, ActionStarted, ActionOutcome, ActionState, ErrorCode, code_text,
}
use qodex.Action.Transitions.{same_state}
use qodex.Action.Canonical.{ActionHost}
use qodex.Action.Validation.{Check, same_verdict_allow}
use qodex.Action.Runtime.World.{
  Failure, Execution, World, Clock, HandlerAnswer, waiting, moved_to, local_decision, with_decision,
}
use qodex.Action.Runtime.Evaluating.{
  keep_decision, assert_approval_valid, accept_decision, fail_closed_decision, resume_refusing,
  refuse_unknown, start_evaluation, execute_approved, execute_once, decided, resume_deciding,
  resume_requesting,
}
use qodex.Action.Runtime.Dispatching.{
  refused_state, await_dispatch, receipt_of, start_dispatch, resume_recording,
  interrupt_after_settlement_failure, uncertain_outcome, await_settlement, resume_handling,
  resume_settling, resume_reporting, settled_state,
}
use qodex.Action.Runtime.Invariant.Combinators.{if-holds}
use qodex.Action.Runtime.Licences.Quiet.{
  HasApproval, Quiet, Quiet-refl, checks, concludes, finishes, held_approval, holds_same, moves_on,
  rejects, waits,
}

module _ (host : ActionHost) (b : World) where
  module _ (w : World) (calm : Quiet b w) where
    fails_closed : (d : ActionDecision) → Quiet b (fail_closed_decision host d w)
    unfolding fail_closed_decision held_approval
    fails_closed d =
        checks b w calm (accept_decision host w d) (waiting Execution.refusing (keep_decision d w))
          (record {
            same_started = calm.same_started;
            same_approval = calm.same_approval;
            held = λ a h. cc;
          })

    interrupts :
        (receipt : ActionStarted) (now : ℕ)
        → Quiet b (interrupt_after_settlement_failure host receipt now w)
    unfolding interrupt_after_settlement_failure held_approval
    interrupts receipt now = checks b w calm _ _ (
        concludes b w calm (uncertain_outcome host w receipt now) ActionState.interrupted
          Execution.reporting (λ a h. cc))

  pub resume_refusing-Quiet :
      (fails : Bool) (clock : Clock) → Quiet b (resume_refusing host fails clock b)
  unfolding resume_refusing
  resume_refusing-Quiet true clock =
      finishes b
        (with_decision
          (local_decision host b.action.snapshot.proposal "decision_persistence_failed" (clock 0))
          b)
        (record { same_started = refl; same_approval = refl; held = λ a h. inr h })
        ActionState.decision_error
  resume_refusing-Quiet false clock = finishes b b (Quiet-refl b) ActionState.decision_error

  start_evaluation-Quiet :
      (clock : Clock) (approval : ActionApproval)
      → HasApproval approval b.action
      → Quiet b (start_evaluation host clock b approval)
  unfolding start_evaluation refuse_unknown held_approval
  start_evaluation-Quiet clock approval has_it =
      let w = moved_to ActionState.evaluating b in
      let calm : Quiet b w = record {
        same_started = refl;
        same_approval = refl;
        held = λ a h. inr h;
      } in
      moves_on b b (Quiet-refl b) ActionState.evaluating _
        (evaluates (has b.action.snapshot.proposal.action_type b.shared.handlers) w calm)
    where
      evaluates :
          (known : Bool) (w : World)
          → Quiet b w
          → Quiet b (
              (if known then waiting (Execution.requesting approval) else refuse_unknown host clock)
                w)
      evaluates true w calm =
          waits b w calm (Execution.requesting approval) (holds_same approval b.action has_it)
      evaluates false w calm =
          fails_closed w calm
            (local_decision host w.action.snapshot.proposal "unknown_action" (clock 1))

  execute_approved-Quiet :
      (clock : Clock) (o : Option ActionApproval)
      → b.action.snapshot.approval ≡ o
      → Quiet b (execute_approved host clock b o)
  unfolding execute_approved
  execute_approved-Quiet clock none same = rejects b b (Quiet-refl b) _
  execute_approved-Quiet clock (some approval) same =
      let still = Quiet-refl b in
      if-holds (Quiet b) (not (same_state b.action.snapshot.state ActionState.approved)) _ _
        (λ h. rejects b b still (Failure.coded ErrorCode.invalid_transition))
        (λ h. checks b b still (assert_approval_valid host b.action approval (clock 0)) _ (
          if-holds (Quiet b) b.action.aborted _ _
            (λ aborted. finishes b b still ActionState.cancelled)
            (λ going. start_evaluation-Quiet clock approval (inl same))))

  pub execute_once-Quiet : (clock : Clock) → Quiet b (execute_once host clock b)
  unfolding execute_once
  execute_once-Quiet clock = execute_approved-Quiet clock b.action.snapshot.approval refl

  module _ (a : ActionApproval) (has_it : HasApproval a b.action) where
    pub resume_requesting-Quiet : (fails : Bool) → Quiet b (resume_requesting a fails b)
    unfolding resume_requesting held_approval
    resume_requesting-Quiet true = rejects b b (Quiet-refl b) _
    resume_requesting-Quiet false =
        waits b b (Quiet-refl b) (Execution.deciding a) (holds_same a b.action has_it)

    decided-Quiet :
        (d : ActionDecision) (c : Check) (clock : Clock) → Quiet b (decided host a d c clock b)
    unfolding decided held_approval
    decided-Quiet d (err code) clock =
        fails_closed b (Quiet-refl b)
          (local_decision host b.action.snapshot.proposal (code_text code) (clock 1))
    decided-Quiet d (ok done) clock = record {
      same_started = refl;
      same_approval = refl;
      held = holds_same a b.action has_it;
    }

    pub resume_deciding-Quiet :
        (o : Option ActionDecision) (clock : Clock) → Quiet b (resume_deciding host a o clock b)
    unfolding resume_deciding
    resume_deciding-Quiet (some d) clock = decided-Quiet d (accept_decision host b d) clock
    resume_deciding-Quiet none clock =
        let d =
          local_decision host b.action.snapshot.proposal "decision_provider_failed" (clock 0) in
        decided-Quiet d (accept_decision host b d) clock

    awaits_dispatch :
        (d : ActionDecision) (receipt : ActionStarted) (now : ℕ) (w : World)
        → Quiet b w
        → Quiet b (await_dispatch host a d receipt now w)
    unfolding await_dispatch held_approval
    awaits_dispatch d receipt now w calm = checks b w calm _ _ (
        checks b w calm _ _
          (waits b w calm (Execution.dispatching a d receipt) (holds_same a b.action has_it)))

    starts_dispatch :
        (d : ActionDecision) (receipt_id : String) (clock : Clock)
        → Quiet b (start_dispatch host a d receipt_id clock b)
    unfolding start_dispatch
    starts_dispatch d receipt_id clock =
        let still = Quiet-refl b in
        let w₁ = moved_to ActionState.allowed b in
        let w₂ = moved_to ActionState.starting w₁ in
        let check = λ (u : World).
          await_dispatch host a d (receipt_of host u a d receipt_id (clock 1)) (clock 2) u in
        let calm₁ : Quiet b w₁ = record {
          same_started = refl;
          same_approval = refl;
          held = λ x h. inr h;
        } in
        let calm₂ : Quiet b w₂ = record {
          same_started = refl;
          same_approval = refl;
          held = λ x h. inr h;
        } in
        checks b b still _ _ (
          moves_on b b still ActionState.allowed _ (
            moves_on b w₁ calm₁ ActionState.starting check
              (awaits_dispatch d (receipt_of host w₂ a d receipt_id (clock 1)) (clock 2) w₂ calm₂)))

    pub resume_recording-Quiet :
        (d : ActionDecision) (fails : Bool) (receipt_id : String) (clock : Clock)
        → Quiet b (resume_recording host a d fails receipt_id clock b)
    unfolding resume_recording
    resume_recording-Quiet d true receipt_id clock =
        finishes b
          (with_decision
            (local_decision host b.action.snapshot.proposal "decision_persistence_failed" (clock 0))
            b)
          (record { same_started = refl; same_approval = refl; held = λ x h. inr h })
          ActionState.decision_error
    resume_recording-Quiet d false receipt_id clock =
        let still = Quiet-refl b in
        if-holds (Quiet b) b.action.aborted _ _
          (λ aborted. finishes b b still ActionState.cancelled)
          (λ going.
            if-holds (Quiet b) (same_verdict_allow d.decision) _ _
              (λ allowed. starts_dispatch d receipt_id clock)
              (λ refused. finishes b b still (refused_state d.decision)))

  settles :
      (receipt : ActionStarted) (outcome : ActionOutcome) (c : Check) (now : ℕ)
      → Quiet b (await_settlement host receipt outcome c now b)
  unfolding await_settlement held_approval
  settles receipt outcome (err code) now = interrupts b (Quiet-refl b) receipt now
  settles receipt outcome (ok done) now =
      waits b b (Quiet-refl b) (Execution.settling receipt outcome) (λ a h. cc)

  pub resume_handling-Quiet :
      (receipt : ActionStarted) (answer : HandlerAnswer) (clock : Clock)
      → Quiet b (resume_handling host receipt answer clock b)
  unfolding resume_handling
  resume_handling-Quiet receipt answer clock = settles receipt _ _ (clock 1)

  pub resume_settling-Quiet :
      (receipt : ActionStarted) (outcome : ActionOutcome) (fails : Bool) (clock : Clock)
      → Quiet b (resume_settling host receipt outcome fails clock b)
  unfolding resume_settling held_approval
  resume_settling-Quiet receipt outcome true clock = interrupts b (Quiet-refl b) receipt (clock 0)
  resume_settling-Quiet receipt outcome false clock =
      concludes b b (Quiet-refl b) outcome (settled_state outcome.status) Execution.ended
        (λ a h. cc)

  pub resume_reporting-Quiet : Quiet b (resume_reporting b)
  unfolding resume_reporting held_approval
  resume_reporting-Quiet = waits b b (Quiet-refl b) Execution.ended (λ a h. cc)
