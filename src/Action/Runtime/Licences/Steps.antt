-- ===== src/Action/Runtime/Licences/Steps.antt =====
-- Which call gives a receipt, and which brings an approval
-- (packages/action-runtime/src/runtime.ts).
use qodex.Common.{
  ◌≡◌, refl, sym, ◌∙◌, ap, ◌⊎◌, inl, inr, ℕ, Bool, true, false, Option, none, some, ok, err, List,
  [], ◌∷◌, ◌++◌, Result, if◌then◌else◌, not,
}
use qodex.Action.Types.{ActionApproval, ActionDecision, ActionStarted, ActionState, ErrorCode}
use qodex.Action.Transitions.{transition_action_state}
use qodex.Action.Canonical.{ActionHost}
use qodex.Action.Validation.{Check}
use qodex.Action.Runtime.World.{Failure, Execution, ActionRecord, World, Clock, finish}
use qodex.Action.Runtime.Evaluating.{assert_approval_valid, resume_refusing}
use qodex.Action.Runtime.Calls.{
  Reply, returns, throws, after_check, after_move, is_cancellable, cancel_action, accepted,
  answered, accept_approval, taken_at, approve_action, execute_at, execute_action,
}
use qodex.Action.Runtime.Invariant.Combinators.{advance-holds}
use qodex.Action.Runtime.Licences.Quiet.{is_over, HasApproval, Quiet, Quiet-refl}
use qodex.Action.Runtime.Licences.Segments.{execute_once-Quiet}

-- the place where a receipt was given: what the execution waited with, and what was checked
pub record Granted (host : ActionHost) (r : ActionRecord) (answer : Reply) (receipt : ActionStarted)
    : Type 0 where
  pub approval : ActionApproval
  pub decision : ActionDecision
  pub waited : r.execution ≡ Execution.dispatching approval decision receipt
  pub recorded : answer.hook_fails ≡ false
  pub not_cancelled : r.aborted ≡ false
  pub approved : assert_approval_valid host r approval (answer.clock 0) ≡ ok tt

-- An execution that is not over need not be over afterwards.
pub working :
    (b : World) (e next : Execution)
    → b.action.execution ≡ e
    → is_over e ≡ false
    → is_over b.action.execution ≡ true
    → is_over next ≡ true
working b e next here runs over = absurd cc (ap is_over here, runs, over)

finish-is_over : (w : World) (next : ActionState) → is_over (finish w next).action.execution ≡ true
unfolding finish is_over
finish-is_over w next =
    advance-holds (λ v. is_over v.action.execution ≡ true) next w Execution.ended (λ h. refl)
      (λ h. refl)

pub resume_refusing-is_over :
    (host : ActionHost) (b : World) (fails : Bool) (clock : Clock)
    → is_over (resume_refusing host fails clock b).action.execution ≡ true
unfolding resume_refusing
resume_refusing-is_over host b true clock = finish-is_over _ ActionState.decision_error
resume_refusing-is_over host b false clock = finish-is_over b ActionState.decision_error

-- Every receipt and every approval of a record was there before, or comes from the event; an
-- execution that is over stays so.
pub record Origin (G : ActionStarted → Type 0) (A : ActionApproval → Type 0) (r q : ActionRecord)
    : Type 0 where
  pub receipts :
      (receipt : ActionStarted)
      → q.snapshot.started ≡ some receipt
      → (r.snapshot.started ≡ some receipt) ⊎ G receipt
  pub approvals : (a : ActionApproval) → HasApproval a q → HasApproval a r ⊎ A a
  pub still_over : is_over r.execution ≡ true → is_over q.execution ≡ true

module _ {G : ActionStarted → Type 0} {A : ActionApproval → Type 0} (b : World) where
  pub Quiet-Origin :
      (w : World)
      → Quiet b w
      → (is_over b.action.execution ≡ true → is_over w.action.execution ≡ true)
      → Origin G A b.action w.action
  Quiet-Origin w calm over = record {
    still_over = over;
    receipts = λ receipt h. inl (sym calm.same_started ∙ h);
    approvals = λ a h. elim h [
      | inl kept ↦ inl (inl (sym calm.same_approval ∙ kept))
      | inr there ↦ inl (calm.held a there)
    ];
  }

  pub Origin-refl : Origin G A b.action b.action
  Origin-refl = Quiet-Origin b (Quiet-refl b) (λ h. h)

  after_move-Origin :
      (m : Result ErrorCode ActionState) (w : World)
      → Origin G A b.action w.action
      → Origin G A b.action (after_move m w).left.action
  after_move-Origin (err code) w origin = origin
  after_move-Origin (ok next) w origin = record {
    receipts = origin.receipts;
    approvals = origin.approvals;
    still_over = origin.still_over;
  }

  cancelled-Origin :
      (leaves : Bool) (m : Result ErrorCode ActionState) (w : World)
      → Origin G A b.action w.action
      → Origin G A b.action (if leaves then after_move m w else returns w).left.action
  cancelled-Origin true m w origin = after_move-Origin m w origin
  cancelled-Origin false m w origin = origin

  pub cancel_action-Origin : Origin G A b.action (cancel_action b).left.action
  unfolding cancel_action
  cancel_action-Origin =
      cancelled-Origin (is_cancellable b.action.snapshot.state)
        (transition_action_state b.action.snapshot.state ActionState.cancelled)
        (record b { action = record b.action { aborted = true } })
        (record { receipts = λ receipt h. inl h; approvals = λ a h. inl h; still_over = λ h. h })

  checked_approval-Origin :
      (approval : ActionApproval) (awaits : Bool) (check : Check)
      → Origin G A b.action
          (if not awaits
            then throws (Failure.coded ErrorCode.invalid_transition) b
            else after_check check b (
                returns (record b {
                  action = record b.action { approving = b.action.approving ++ approval ∷ [] };
                }))).left.action
  checked_approval-Origin approval false check = Origin-refl
  checked_approval-Origin approval true (err code) = Origin-refl
  checked_approval-Origin approval true (ok done) = record {
    receipts = λ receipt h. inl h;
    approvals = λ a h. inl h;
    still_over = λ h. h;
  }

-- the approval that `beforeApprovalAccepted` was awaited for, at the place that is answered
pub record Accepted (r : ActionRecord) (place : ℕ) (hook_fails : Bool) (approval : ActionApproval)
    : Type 0 where
  pub others : List ActionApproval
  pub taken : taken_at place r.approving ≡ some (approval, others)
  pub agreed : hook_fails ≡ false

taken-Accepted :
    (b : World) (place : ℕ) (approval a : ActionApproval) (others : List ActionApproval)
    → taken_at place b.action.approving ≡ some (approval, others)
    → some approval ≡ some a
    → Accepted b.action place false a
taken-Accepted b place approval a others found new =
    let same : approval ≡ a = cc in
    record { others = others; taken = found ∙ ap (λ x. some (x, others)) same; agreed = refl }

answered-Origin :
    {G : ActionStarted → Type 0} (b : World) (place : ℕ) (fails : Bool)
    (o : Option (ActionApproval × List ActionApproval))
    → taken_at place b.action.approving ≡ o
    → Origin G (Accepted b.action place fails) b.action (answered o fails b).left.action
unfolding answered accepted
answered-Origin b place fails none found = Origin-refl b
answered-Origin b place true (some (approval, others)) found = record {
  receipts = λ receipt h. inl h;
  approvals = λ a h. inl h;
  still_over = λ h. h;
}
answered-Origin b place false (some (approval, others)) found =
    let held : World = record b {
      action = record b.action {
        snapshot = record b.action.snapshot { approval = some approval };
        approving = others;
      };
    } in
    after_move-Origin b (transition_action_state b.action.snapshot.state ActionState.approved) held
      (record {
        receipts = λ receipt h. inl h;
        approvals = λ a h. elim h [
          | inl new ↦ inr (taken-Accepted b place approval a others found new)
          | inr there ↦ inl (inr there)
        ];
        still_over = λ h. h;
      })

pub accept_approval-Origin :
    {G : ActionStarted → Type 0} (b : World) (place : ℕ) (fails : Bool)
    → Origin G (Accepted b.action place fails) b.action (accept_approval place fails b).left.action
unfolding accept_approval
accept_approval-Origin b place fails = answered-Origin b place fails _ refl

module _ {G : ActionStarted → Type 0} {A : ActionApproval → Type 0} (host : ActionHost)
    (b : World) where
  pub approve_action-Origin :
      (approval : ActionApproval) (now : ℕ)
      → Origin G A b.action (approve_action host approval now b).left.action
  unfolding approve_action
  approve_action-Origin approval now = checked_approval-Origin b approval _ _

  execute_at-Origin :
      (e : Execution) (clock : Clock)
      → b.action.execution ≡ e
      → Origin G A b.action (execute_at host e clock b).action
  unfolding execute_at is_over
  execute_at-Origin Execution.unstarted clock here =
      Quiet-Origin b (execute_at host Execution.unstarted clock b) (execute_once-Quiet host b clock)
        (working b Execution.unstarted
          (execute_at host Execution.unstarted clock b).action.execution here refl)
  execute_at-Origin _ clock here = Origin-refl b

  pub execute_action-Origin :
      (clock : Clock) → Origin G A b.action (execute_action host clock b).left.action
  unfolding execute_action
  execute_action-Origin clock = execute_at-Origin b.action.execution clock refl
