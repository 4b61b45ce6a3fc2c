-- ===== src/Action/Runtime/Invariant/Idling.antt =====
-- The segments before the handler is dispatched keep the invariant
-- (packages/action-runtime/src/runtime.ts).
use qodex.Common.{
  ◌≡◌, refl, sym, ◌∙◌, inl, Bool, true, false, Option, none, some, ok, err, has, not, if◌then◌else◌,
  >>=-eq-ok,
}
use qodex.Action.Types.{ActionApproval, ActionDecision, ActionState, code_text}
use qodex.Action.Transitions.{can_transition, is_terminal_action_state, same_state}
use qodex.Action.Canonical.{ActionHost}
use qodex.Action.Validation.{Check, validate_action_decision}
use qodex.Action.Runtime.World.{
  Failure, Execution, ActionRecord, World, Clock, reject, waiting, moved_to, with_decision,
  local_decision, finish,
}
use qodex.Action.Runtime.Evaluating.{
  assert_approval_valid, accept_decision, keep_decision, fail_closed_decision, resume_refusing,
  refuse_unknown, start_evaluation, execute_approved, execute_once, resume_requesting, decided,
  resume_deciding,
}
use qodex.Action.Runtime.Invariant.{Reaches, Holds, Idle, Phase, Sound, Evolves}
use qodex.Action.Runtime.Invariant.Combinators.{
  checked-holds, moving-holds, advance-holds, if-holds,
}

Reaches-append : {s m t : ActionState} → Reaches s m → Reaches m t → Reaches s t
Reaches-append walked Reaches.stay = walked
Reaches-append walked (Reaches.move later step) = Reaches.move (Reaches-append walked later) step

pub one_move : {s t : ActionState} → can_transition s t ≡ true → Reaches s t
one_move = Reaches.move Reaches.stay

pub Evolves-refl : (r : ActionRecord) → Evolves r r
Evolves-refl r = record {
  walked = Reaches.stay;
  same_proposal = refl;
  still_started = λ receipt h. h;
  still_settled = λ outcome h. h;
  still_aborted = λ h. h;
  barred = λ h idle. idle;
}

pub Evolves-trans : (r q p : ActionRecord) → Evolves r q → Evolves q p → Evolves r p
Evolves-trans r q p first second = record {
  walked = Reaches-append first.walked second.walked;
  same_proposal = second.same_proposal ∙ first.same_proposal;
  still_started = λ receipt h. second.still_started receipt (first.still_started receipt h);
  still_settled = λ outcome h. second.still_settled outcome (first.still_settled outcome h);
  still_aborted = λ h. second.still_aborted (first.still_aborted h);
  barred = λ h idle. second.barred (first.still_aborted h) (first.barred h idle);
}

module _ (host : ActionHost) where
  -- what a segment promises: the invariant, and how the record has changed
  pub record Next (w v : World) : Type 0 where
    pub sound : Sound host v.action
    pub evolved : Evolves w.action v.action

  -- before a receipt is kept nothing is authorised or settled
  pub Idle-Sound :
      (r : ActionRecord)
      → Idle r.snapshot
      → Phase host r.snapshot r.expected_generation r.aborted r.execution
      → Sound host r
  Idle-Sound r (idle, unsettled) phase = record {
    authorised = λ receipt h. cc;
    settled = λ outcome h. cc;
    phase = phase;
  }

  Idle-Evolves :
      (w v : World)
      → Idle w.action.snapshot
      → Idle v.action.snapshot
      → Reaches w.action.snapshot.state v.action.snapshot.state
      → v.action.snapshot.proposal ≡ w.action.snapshot.proposal
      → v.action.aborted ≡ w.action.aborted
      → Evolves w.action v.action
  Idle-Evolves w v (idle, unsettled) still walked same aborted = record {
    walked = walked;
    same_proposal = same;
    still_started = λ receipt h. cc;
    still_settled = λ outcome h. cc;
    still_aborted = λ h. aborted ∙ h;
    barred = λ h none_yet. still.0;
  }

  module _ (b w : World) (since : Evolves b.action w.action) (idle : Idle w.action.snapshot) where
    -- a segment goes from `w` to `v`, behind a world `b`
    pub Idle-Next :
        (v : World)
        → Idle v.action.snapshot
        → Reaches w.action.snapshot.state v.action.snapshot.state
        → v.action.snapshot.proposal ≡ w.action.snapshot.proposal
        → v.action.aborted ≡ w.action.aborted
        → Phase host v.action.snapshot v.action.expected_generation v.action.aborted
            v.action.execution
        → Next b v
    Idle-Next v still walked same aborted phase = record {
      sound = Idle-Sound v.action still phase;
      evolved =
          Evolves-trans b.action w.action v.action since
            (Idle-Evolves w v idle still walked same aborted);
    }

    pub reject-idle : (failure : Failure) → Next b (reject failure w)
    reject-idle failure = Idle-Next (reject failure w) idle Reaches.stay refl refl tt

    pub finish-idle :
        (next : ActionState) → is_terminal_action_state next ≡ true → Next b (finish w next)
    unfolding finish
    finish-idle next terminal =
        advance-holds (Next b) next w Execution.ended (λ stuck. reject-idle _)
          (λ moves.
            Idle-Next (waiting Execution.ended (moved_to next w)) idle (one_move moves) refl refl
              terminal)

    pub fail_closed_decision-Next :
        (decision : ActionDecision)
        → Holds ActionState.evaluating w.action.snapshot w.action.aborted
        → Next b (fail_closed_decision host decision w)
    unfolding fail_closed_decision
    fail_closed_decision-Next decision holds =
        checked-holds (Next b) (accept_decision host w decision) w _ reject-idle (λ accepted.
          Idle-Next (waiting Execution.refusing (keep_decision decision w)) idle Reaches.stay refl
            refl (holds, idle))

  pub with_decision-Evolves :
      (d : ActionDecision) (w : World)
      → Idle w.action.snapshot
      → Evolves w.action (with_decision d w).action
  with_decision-Evolves d w idle =
      Idle-Evolves w (with_decision d w) idle idle Reaches.stay refl refl

  pub moved_to-Evolves :
      (w : World) (next : ActionState)
      → can_transition w.action.snapshot.state next ≡ true
      → Idle w.action.snapshot
      → Evolves w.action (moved_to next w).action
  moved_to-Evolves w next moves idle =
      Idle-Evolves w (moved_to next w) idle idle (one_move moves) refl refl

  pub resume_refusing-Next :
      (hook_fails : Bool) (clock : Clock) (w : World)
      → Idle w.action.snapshot
      → Next w (resume_refusing host hook_fails clock w)
  unfolding resume_refusing is_terminal_action_state
  resume_refusing-Next true clock w idle =
      let d =
        local_decision host w.action.snapshot.proposal "decision_persistence_failed" (clock 0) in
      finish-idle w (with_decision d w) (with_decision-Evolves d w idle) idle
        ActionState.decision_error refl
  resume_refusing-Next false clock w idle =
      finish-idle w w (Evolves-refl w.action) idle ActionState.decision_error refl

  resolved-Next :
      (known : Bool) (clock : Clock) (b w : World) (approval : ActionApproval)
      → Evolves b.action w.action
      → Idle w.action.snapshot
      → Holds ActionState.evaluating w.action.snapshot w.action.aborted
      → Next b
          ((if known then waiting (Execution.requesting approval) else refuse_unknown host clock) w)
  unfolding refuse_unknown
  resolved-Next true clock b w approval since idle holds =
      Idle-Next b w since idle (waiting (Execution.requesting approval) w) idle Reaches.stay refl
        refl (holds, idle)
  resolved-Next false clock b w approval since idle holds =
      fail_closed_decision-Next b w since idle
        (local_decision host w.action.snapshot.proposal "unknown_action" (clock 1)) holds

  start_evaluation-Next :
      (clock : Clock) (w : World) (approval : ActionApproval)
      → Idle w.action.snapshot
      → Next w (start_evaluation host clock w approval)
  unfolding start_evaluation
  start_evaluation-Next clock w approval idle =
      moving-holds (Next w) ActionState.evaluating w _
        (λ stuck. reject-idle w w (Evolves-refl w.action) idle _)
        (λ moves.
          resolved-Next (has w.action.snapshot.proposal.action_type w.shared.handlers) clock w
            (moved_to ActionState.evaluating w) approval
            (moved_to-Evolves w ActionState.evaluating moves idle) idle (inl refl))

  execute_approved-Next :
      (clock : Clock) (w : World) (o : Option ActionApproval)
      → Idle w.action.snapshot
      → Next w (execute_approved host clock w o)
  unfolding execute_approved is_terminal_action_state
  execute_approved-Next clock w none idle = reject-idle w w (Evolves-refl w.action) idle _
  execute_approved-Next clock w (some approval) idle =
      let stuck = reject-idle w w (Evolves-refl w.action) idle in
      if-holds (Next w) (not (same_state w.action.snapshot.state ActionState.approved)) _ _
        (λ elsewhere. stuck _)
        (λ approved.
          checked-holds (Next w) (assert_approval_valid host w.action approval (clock 0)) w _ stuck
            (λ valid.
              if-holds (Next w) w.action.aborted _ _
                (λ aborted. finish-idle w w (Evolves-refl w.action) idle ActionState.cancelled refl)
                (λ going. start_evaluation-Next clock w approval idle)))

  pub execute_once-Next :
      (clock : Clock) (w : World) → Idle w.action.snapshot → Next w (execute_once host clock w)
  unfolding execute_once
  execute_once-Next clock w idle = execute_approved-Next clock w w.action.snapshot.approval idle

  pub resume_requesting-Next :
      (approval : ActionApproval) (hook_fails : Bool) (w : World)
      → Holds ActionState.evaluating w.action.snapshot w.action.aborted
      → Idle w.action.snapshot
      → Next w (resume_requesting approval hook_fails w)
  unfolding resume_requesting
  resume_requesting-Next approval true w holds idle = reject-idle w w (Evolves-refl w.action) idle _
  resume_requesting-Next approval false w holds idle =
      Idle-Next w w (Evolves-refl w.action) idle (waiting (Execution.deciding approval) w) idle
        Reaches.stay refl refl (holds, idle)

  accept_decision-valid :
      (w : World) (d : ActionDecision)
      → accept_decision host w d ≡ ok tt
      → validate_action_decision host d (some w.action.snapshot.proposal) host.evidence_size_limit
        ≡ ok tt
  unfolding accept_decision
  accept_decision-valid w d h = let (done, valid, _) = >>=-eq-ok _ _ h in valid

  decided-Next :
      (approval : ActionApproval) (d : ActionDecision) (check : Check) (clock : Clock) (w : World)
      → check ≡ accept_decision host w d
      → Holds ActionState.evaluating w.action.snapshot w.action.aborted
      → Idle w.action.snapshot
      → Next w (decided host approval d check clock w)
  unfolding decided
  decided-Next approval d (err code) clock w same holds idle =
      fail_closed_decision-Next w w (Evolves-refl w.action) idle
        (local_decision host w.action.snapshot.proposal (code_text code) (clock 1)) holds
  decided-Next approval d (ok done) clock w same holds idle =
      Idle-Next w w (Evolves-refl w.action) idle
        (waiting (Execution.recording approval d) (keep_decision d w)) idle Reaches.stay refl refl
        (holds, idle, (refl, accept_decision-valid w d (sym same)))

  pub resume_deciding-Next :
      (approval : ActionApproval) (o : Option ActionDecision) (clock : Clock) (w : World)
      → Holds ActionState.evaluating w.action.snapshot w.action.aborted
      → Idle w.action.snapshot
      → Next w (resume_deciding host approval o clock w)
  unfolding resume_deciding
  resume_deciding-Next approval (some d) clock w holds idle =
      decided-Next approval d _ clock w refl holds idle
  resume_deciding-Next approval none clock w holds idle =
      decided-Next approval _ _ clock w refl holds idle
