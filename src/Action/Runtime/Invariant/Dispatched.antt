-- ===== src/Action/Runtime/Invariant/Dispatched.antt =====
-- The segments from the kept decision to the outcome keep the invariant
-- (packages/action-runtime/src/runtime.ts).
use qodex.Common.{◌≡◌, refl, ap, inl, inr, ℕ, String, Bool, true, false, some, ok}
use qodex.Action.Types.{ActionApproval, ActionDecision, ActionState, Verdict, ActionStarted}
use qodex.Action.Transitions.{can_transition, is_terminal_action_state, transition_action_state}
use qodex.Action.Canonical.{ActionHost}
use qodex.Action.Validation.{validate_action_started, same_verdict_allow}
use qodex.Action.Runtime.World.{
  Execution, World, Clock, waiting, moved_to, moving, with_decision, local_decision,
}
use qodex.Action.Runtime.Evaluating.{assert_approval_valid}
use qodex.Action.Runtime.Dispatching.{
  refused_state, with_receipt, await_dispatch, receipt_of, start_dispatch, resume_recording,
  resume_dispatching,
}
use qodex.Action.Runtime.Invariant.{Reaches, Holds, Idle, Decided, Evolves}
use qodex.Action.Runtime.Invariant.Combinators.{
  checked-holds, moving-holds, advance-holds, if-holds,
}
use qodex.Action.Runtime.Invariant.Idling.{
  Next, Evolves-refl, Evolves-trans, one_move, Idle-Next, reject-idle, finish-idle,
  with_decision-Evolves, moved_to-Evolves,
}

module _ (host : ActionHost) where
  refused_state-terminal : (v : Verdict) → is_terminal_action_state (refused_state v) ≡ true
  unfolding is_terminal_action_state
  refused_state-terminal Verdict.deny = refl
  refused_state-terminal Verdict.hold = refl
  refused_state-terminal Verdict.allow = refl
  refused_state-terminal Verdict.error = refl

  await_dispatch-Next :
      (b w : World) (approval : ActionApproval) (d : ActionDecision) (receipt : ActionStarted)
      (now : ℕ)
      → Evolves b.action w.action
      → Idle w.action.snapshot
      → w.action.snapshot.state ≡ ActionState.starting
      → Decided host w.action.snapshot d
      → Next host b (await_dispatch host approval d receipt now w)
  unfolding await_dispatch
  await_dispatch-Next b w approval d receipt now since idle starting decided =
      checked-holds (Next host b) _ w _ (reject-idle host b w since idle) (λ valid.
        checked-holds (Next host b) _ w _ (reject-idle host b w since idle) (λ fresh.
          Idle-Next host b w since idle (waiting (Execution.dispatching approval d receipt) w) idle
            Reaches.stay refl refl (inl starting, idle, decided, now, valid)))

  start_dispatch-Next :
      (approval : ActionApproval) (d : ActionDecision) (receipt_id : String) (clock : Clock)
      (w : World)
      → Idle w.action.snapshot
      → Decided host w.action.snapshot d
      → Next host w (start_dispatch host approval d receipt_id clock w)
  unfolding start_dispatch
  start_dispatch-Next approval d receipt_id clock w idle decided =
      let still = Evolves-refl w.action in
      let w₁ = moved_to ActionState.allowed w in
      let w₂ = moved_to ActionState.starting w₁ in
      let check = λ (u : World).
        await_dispatch host approval d (receipt_of host u approval d receipt_id (clock 1)) (clock 2)
          u in
      let start = λ (u : World).
        moving (transition_action_state u.action.snapshot.state ActionState.starting) u check in
      checked-holds (Next host w) (assert_approval_valid host w.action approval (clock 0)) w
        (moving (transition_action_state w.action.snapshot.state ActionState.allowed) w start)
        (reject-idle host w w still idle)
        (λ valid.
          moving-holds (Next host w) ActionState.allowed w start
            (λ stuck. reject-idle host w w still idle _)
            (λ moves.
              let since₁ = moved_to-Evolves host w ActionState.allowed moves idle in
              moving-holds (Next host w) ActionState.starting w₁ check
                (λ stuck. reject-idle host w w₁ since₁ idle _)
                (λ moves₁.
                  await_dispatch-Next w w₂ approval d
                    (receipt_of host w₂ approval d receipt_id (clock 1)) (clock 2)
                    (Evolves-trans w.action w₁.action w₂.action since₁
                      (moved_to-Evolves host w₁ ActionState.starting moves₁ idle))
                    idle refl decided)))

  pub resume_recording-Next :
      (approval : ActionApproval) (d : ActionDecision) (hook_fails : Bool) (receipt_id : String)
      (clock : Clock) (w : World)
      → Idle w.action.snapshot
      → Decided host w.action.snapshot d
      → Next host w (resume_recording host approval d hook_fails receipt_id clock w)
  unfolding resume_recording is_terminal_action_state
  resume_recording-Next approval d true receipt_id clock w idle decided =
      let d₁ =
        local_decision host w.action.snapshot.proposal "decision_persistence_failed" (clock 0) in
      finish-idle host w (with_decision d₁ w) (with_decision-Evolves host d₁ w idle) idle
        ActionState.decision_error refl
  resume_recording-Next approval d false receipt_id clock w idle decided =
      let still = Evolves-refl w.action in
      if-holds (Next host w) w.action.aborted _ _
        (λ aborted. finish-idle host w w still idle ActionState.cancelled refl)
        (λ going.
          if-holds (Next host w) (same_verdict_allow d.decision) _ _
            (λ allowed. start_dispatch-Next approval d receipt_id clock w idle decided)
            (λ refused.
              finish-idle host w w still idle (refused_state d.decision)
                (refused_state-terminal d.decision)))

  -- A receipt is kept only while the execution was not aborted.
  with_receipt-Next :
      (approval : ActionApproval) (d : ActionDecision) (receipt : ActionStarted) (now later : ℕ)
      (w : World)
      → w.action.aborted ≡ false
      → Idle w.action.snapshot
      → w.action.snapshot.state ≡ ActionState.starting
      → Decided host w.action.snapshot d
      → validate_action_started host receipt
          (some w.action.snapshot.proposal)
          (some approval)
          (some d)
          later
        ≡ ok tt
      → assert_approval_valid host w.action approval now ≡ ok tt
      → can_transition w.action.snapshot.state ActionState.running ≡ true
      → Next host w (
          waiting
            (Execution.handling approval d receipt)
            (moved_to ActionState.running (with_receipt receipt w)))
  unfolding assert_approval_valid
  with_receipt-Next approval d receipt now later w going (idle, unsettled) starting (kept, decided)
        bound valid moves =
      record {
        sound = record {
          authorised = λ other same.
              let named : receipt ≡ other = cc in
              record {
                approval = approval;
                decision = d;
                now = now;
                later = later;
                kept = kept;
                approved = valid;
                decided = decided;
                bound = cc;
              };
          settled = λ outcome h. cc;
          phase = (refl, refl, unsettled);
        };
        evolved = record {
          walked = one_move moves;
          same_proposal = refl;
          still_started = λ other h. cc;
          still_settled = λ outcome h. cc;
          still_aborted = λ h. h;
          barred = λ h none_yet. cc;
        };
      }

  pub resume_dispatching-Next :
      (approval : ActionApproval) (d : ActionDecision) (receipt : ActionStarted) (hook_fails : Bool)
      (clock : Clock) (w : World)
      → (later : ℕ) → Holds ActionState.starting w.action.snapshot w.action.aborted
      → Idle w.action.snapshot
      → Decided host w.action.snapshot d
      → validate_action_started host receipt
          (some w.action.snapshot.proposal)
          (some approval)
          (some d)
          later
        ≡ ok tt
      → Next host w (resume_dispatching host approval d receipt hook_fails clock w)
  unfolding resume_dispatching is_terminal_action_state can_transition
  resume_dispatching-Next approval d receipt true clock w later holds idle decided bound =
      reject-idle host w w (Evolves-refl w.action) idle _
  resume_dispatching-Next approval d receipt false clock w later holds idle decided bound =
      let still = Evolves-refl w.action in
      checked-holds (Next host w) _ w _ (reject-idle host w w still idle) (λ valid.
        if-holds (Next host w) w.action.aborted _ _
          (λ aborted. finish-idle host w w still idle ActionState.cancelled refl)
          (λ going.
            let starting : w.action.snapshot.state ≡ ActionState.starting = elim holds [
              | inl here ↦ here
              | inr (gone, aborted) ↦ cc
            ] in
            advance-holds (Next host w) ActionState.running (with_receipt receipt w) _
              (λ stuck. absurd cc (ap (λ x. can_transition x ActionState.running) starting))
              (λ moves.
                with_receipt-Next approval d receipt (clock 0) later w going idle starting decided
                  bound valid moves)))
