-- ===== src/Action/Runtime/Awaits.antt =====
-- How many awaits an execution has before it after each segment
-- (packages/action-runtime/src/runtime.ts).
use qodex.Common.{
  ℕ, ◌≤◌, String, Bool, true, false, Option, none, some, ok, err, arith, has, not, guard, ◌||◌,
}
use qodex.Action.Types.{
  ActionApproval, ActionDecision, ActionStarted, ActionOutcome, ActionState, ErrorCode, code_text,
}
use qodex.Action.Transitions.{transition_action_state}
use qodex.Action.Canonical.{ActionHost}
use qodex.Action.Validation.{Check, validate_action_started, is_present, same_verdict_allow}
use qodex.Action.Runtime.World.{
  Execution, World, Clock, HandlerAnswer, waiting, moved_to, checked, moving, advance, finish,
  local_decision, with_decision,
}
use qodex.Action.Runtime.Evaluating.{
  accept_decision, fail_closed_decision, resume_refusing, resume_requesting, decided,
  resume_deciding, keep_decision, assert_approval_valid,
}
use qodex.Action.Runtime.Dispatching.{
  conclude, await_dispatch, start_dispatch, resume_recording, resume_dispatching,
  interrupt_after_settlement_failure, await_settlement, resume_handling, resume_settling,
  is_recorded, with_outcome, uncertain_outcome, valid_outcome, receipt_of, refused_state,
  with_receipt, settled_state, candidate_outcome,
}
use qodex.Action.Runtime.Invariant.Combinators.{
  checked-holds, moving-holds, advance-holds, if-holds,
}

-- the most awaits that an execution still has before it; one that has not begun stands above all
unfoldable pub awaits : Execution → ℕ
awaits Execution.unstarted = 8
awaits Execution.ended = 0
awaits (Execution.rejected failure) = 0
awaits Execution.reporting = 1
awaits Execution.refusing = 1
awaits (Execution.settling receipt outcome) = 2
awaits (Execution.handling a d receipt) = 3
awaits (Execution.dispatching a d receipt) = 4
awaits (Execution.recording a d) = 5
awaits (Execution.deciding a) = 6
awaits (Execution.requesting a) = 7

abbrev pub Within : ℕ → World → Type 0
Within n w = awaits w.action.execution ≤ n

Within-cases : (n : ℕ) (c : Check) (w next : World) → Within n next → Within n (checked c w next)
unfolding awaits
Within-cases n (err code) w next low = omega arith
Within-cases n (ok done) w next low = low

Within-advance :
    (n : ℕ) (next : ActionState) (w : World) (e : Execution)
    → awaits e ≤ n
    → Within n (advance w next e)
unfolding awaits
Within-advance n next w e low =
    advance-holds (Within n) next w e (λ stuck. omega arith) (λ moves. low)

conclude-Within :
    (n : ℕ) (o : ActionOutcome) (next : ActionState) (e : Execution) (w : World)
    → awaits e ≤ n
    → Within n (conclude o next e w)
unfolding conclude
conclude-Within n o next e w low =
    Within-cases n (is_recorded o w) w (advance (with_outcome o w) next e)
      (Within-advance n next (with_outcome o w) e low)

module _ (host : ActionHost) where
  fail_closed-Within :
      (n : ℕ) (d : ActionDecision) (w : World) → 1 ≤ n → Within n (fail_closed_decision host d w)
  unfolding fail_closed_decision awaits
  fail_closed-Within n d w low =
      Within-cases n (accept_decision host w d) w (waiting Execution.refusing (keep_decision d w))
        low

  decided-Within :
      (a : ActionApproval) (d : ActionDecision) (c : Check) (clock : Clock) (w : World)
      → Within 5 (decided host a d c clock w)
  unfolding decided awaits
  decided-Within a d (err code) clock w =
      fail_closed-Within 5
        (local_decision host w.action.snapshot.proposal (code_text code) (clock 1)) w (omega arith)
  decided-Within a d (ok done) clock w = omega arith

  interrupt-Within :
      (n : ℕ) (receipt : ActionStarted) (now : ℕ) (w : World)
      → 1 ≤ n
      → Within n (interrupt_after_settlement_failure host receipt now w)
  unfolding interrupt_after_settlement_failure awaits
  interrupt-Within n receipt now w low =
      let o = uncertain_outcome host w receipt now in
      Within-cases n (valid_outcome host w receipt o) w
        (conclude o ActionState.interrupted Execution.reporting w)
        (conclude-Within n o ActionState.interrupted Execution.reporting w low)

  await_dispatch-Within :
      (a : ActionApproval) (d : ActionDecision) (receipt : ActionStarted) (now : ℕ) (w : World)
      → Within 4 (await_dispatch host a d receipt now w)
  unfolding await_dispatch awaits
  await_dispatch-Within a d receipt now w =
      checked-holds (Within 4)
        (validate_action_started host receipt (some w.action.snapshot.proposal) (some a) (some d)
          now)
        w _ (λ failure. omega arith)
        (λ valid.
          checked-holds (Within 4)
            (guard
              (not (
                is_present w.action.snapshot.started
                || has receipt.execution_receipt_id w.shared.execution_receipts))
              ErrorCode.duplicate_dispatch)
            w (waiting (Execution.dispatching a d receipt) w) (λ failure. omega arith)
            (λ fresh. omega arith))

  start_dispatch-Within :
      (a : ActionApproval) (d : ActionDecision) (id : String) (clock : Clock) (w : World)
      → Within 4 (start_dispatch host a d id clock w)
  unfolding start_dispatch awaits
  start_dispatch-Within a d id clock w =
      let check =
        λ (u : World). await_dispatch host a d (receipt_of host u a d id (clock 1)) (clock 2) u in
      let start = λ (u : World).
        moving (transition_action_state u.action.snapshot.state ActionState.starting) u check in
      let w₁ = moved_to ActionState.allowed w in
      let w₂ = moved_to ActionState.starting w₁ in
      checked-holds (Within 4) (assert_approval_valid host w.action a (clock 0)) w
        (moving (transition_action_state w.action.snapshot.state ActionState.allowed) w start)
        (λ failure. omega arith)
        (λ valid.
          moving-holds (Within 4) ActionState.allowed w start (λ stuck. omega arith)
            (λ moves.
              moving-holds (Within 4) ActionState.starting w₁ check (λ stuck. omega arith)
                (λ moves₁.
                  await_dispatch-Within a d (receipt_of host w₂ a d id (clock 1)) (clock 2) w₂)))

  pub recording-Within :
      (a : ActionApproval) (d : ActionDecision) (fails : Bool) (id : String) (clock : Clock)
      (w : World)
      → Within 4 (resume_recording host a d fails id clock w)
  unfolding resume_recording awaits finish
  recording-Within a d true id clock w =
      Within-advance 4 ActionState.decision_error
        (with_decision
          (local_decision host w.action.snapshot.proposal "decision_persistence_failed" (clock 0))
          w)
        Execution.ended (omega arith)
  recording-Within a d false id clock w =
      if-holds (Within 4) w.action.aborted _ _
        (λ aborted. Within-advance 4 ActionState.cancelled w Execution.ended (omega arith))
        (λ going.
          if-holds (Within 4) (same_verdict_allow d.decision) _ _
            (λ allow. start_dispatch-Within a d id clock w)
            (λ refused.
              Within-advance 4 (refused_state d.decision) w Execution.ended (omega arith)))

  pub dispatching-Within :
      (a : ActionApproval) (d : ActionDecision) (receipt : ActionStarted) (fails : Bool)
      (clock : Clock) (w : World)
      → Within 3 (resume_dispatching host a d receipt fails clock w)
  unfolding resume_dispatching awaits finish
  dispatching-Within a d receipt true clock w = omega arith
  dispatching-Within a d receipt false clock w =
      checked-holds (Within 3) (assert_approval_valid host w.action a (clock 0)) w _
        (λ failure. omega arith)
        (λ valid.
          if-holds (Within 3) w.action.aborted _ _
            (λ aborted. Within-advance 3 ActionState.cancelled w Execution.ended (omega arith))
            (λ going.
              Within-advance 3 ActionState.running (with_receipt receipt w)
                (Execution.handling a d receipt) (omega arith)))

  settlement-Within :
      (receipt : ActionStarted) (o : ActionOutcome) (c : Check) (now : ℕ) (w : World)
      → Within 2 (await_settlement host receipt o c now w)
  unfolding await_settlement awaits
  settlement-Within receipt o (err code) now w = interrupt-Within 2 receipt now w (omega arith)
  settlement-Within receipt o (ok done) now w = omega arith

  pub settling-Within :
      (receipt : ActionStarted) (o : ActionOutcome) (fails : Bool) (clock : Clock) (w : World)
      → Within 1 (resume_settling host receipt o fails clock w)
  unfolding resume_settling awaits
  settling-Within receipt o true clock w = interrupt-Within 1 receipt (clock 0) w (omega arith)
  settling-Within receipt o false clock w =
      conclude-Within 1 o (settled_state o.status) Execution.ended w (omega arith)

  pub refusing-Within :
      (fails : Bool) (clock : Clock) (w : World) → Within 0 (resume_refusing host fails clock w)
  unfolding resume_refusing awaits finish
  refusing-Within true clock w =
      Within-advance 0 ActionState.decision_error
        (with_decision
          (local_decision host w.action.snapshot.proposal "decision_persistence_failed" (clock 0))
          w)
        Execution.ended (omega arith)
  refusing-Within false clock w =
      Within-advance 0 ActionState.decision_error w Execution.ended (omega arith)

  pub requesting-Within :
      (a : ActionApproval) (fails : Bool) (w : World) → Within 6 (resume_requesting a fails w)
  unfolding resume_requesting awaits
  requesting-Within a true w = omega arith
  requesting-Within a false w = omega arith

  pub deciding-Within :
      (a : ActionApproval) (o : Option ActionDecision) (clock : Clock) (w : World)
      → Within 5 (resume_deciding host a o clock w)
  unfolding resume_deciding
  deciding-Within a (some d) clock w = decided-Within a d (accept_decision host w d) clock w
  deciding-Within a none clock w =
      let d = local_decision host w.action.snapshot.proposal "decision_provider_failed" (clock 0) in
      decided-Within a d (accept_decision host w d) clock w

  pub handling-Within :
      (receipt : ActionStarted) (answer : HandlerAnswer) (clock : Clock) (w : World)
      → Within 2 (resume_handling host receipt answer clock w)
  unfolding resume_handling
  handling-Within receipt answer clock w =
      let o = candidate_outcome host w receipt answer (clock 0) in
      settlement-Within receipt o (valid_outcome host w receipt o) (clock 1) w
