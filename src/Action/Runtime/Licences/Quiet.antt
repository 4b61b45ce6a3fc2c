-- ===== src/Action/Runtime/Licences/Quiet.antt =====
-- A step of a segment that gives no receipt and brings no new approval
-- (packages/action-runtime/src/runtime.ts).
use qodex.Common.{◌≡◌, refl, subst, ◌⊎◌, inr, Bool, true, false, Option, none, some}
use qodex.Action.Types.{ActionApproval, ActionOutcome, ActionState}
use qodex.Action.Transitions.{transition_action_state}
use qodex.Action.Validation.{Check}
use qodex.Action.Runtime.World.{
  Failure, Execution, ActionRecord, World, waiting, reject, moved_to, checked, moving, advance,
  finish,
}
use qodex.Action.Runtime.Dispatching.{with_outcome, conclude, is_recorded}
use qodex.Action.Runtime.Invariant.Combinators.{checked-holds, moving-holds, advance-holds}

-- the approval among the local variables of an execution
unfoldable pub held_approval : Execution → Option ActionApproval
held_approval (Execution.requesting a) = some a
held_approval (Execution.deciding a) = some a
held_approval (Execution.recording a d) = some a
held_approval (Execution.dispatching a d receipt) = some a
held_approval (Execution.handling a d receipt) = some a
held_approval _ = none

-- The execution is over, or awaits only the hook for the decision that refuses it.
unfoldable pub is_over : Execution → Bool
is_over Execution.refusing = true
is_over Execution.ended = true
is_over (Execution.rejected failure) = true
is_over _ = false

abbrev pub HasApproval : ActionApproval → ActionRecord → Type 0
HasApproval a r = (r.snapshot.approval ≡ some a) ⊎ (held_approval r.execution ≡ some a)

pub record Quiet (b w : World) : Type 0 where
  pub same_started : w.action.snapshot.started ≡ b.action.snapshot.started
  pub same_approval : w.action.snapshot.approval ≡ b.action.snapshot.approval
  pub held :
      (a : ActionApproval) → held_approval w.action.execution ≡ some a → HasApproval a b.action

pub Quiet-refl : (b : World) → Quiet b b
Quiet-refl b = record { same_started = refl; same_approval = refl; held = λ a h. inr h }

pub holds_same :
    (a : ActionApproval) (r : ActionRecord)
    → HasApproval a r
    → (x : ActionApproval) → some a ≡ some x
    → HasApproval x r
holds_same a r held x same = let equal : a ≡ x = cc in subst (λ y. HasApproval y r) equal held

module _ (b : World) where
  module _ (w : World) (calm : Quiet b w) where
    pub waits :
        (e : Execution)
        → ((a : ActionApproval) → held_approval e ≡ some a → HasApproval a b.action)
        → Quiet b (waiting e w)
    waits e held = record {
      same_started = calm.same_started;
      same_approval = calm.same_approval;
      held = held;
    }

    pub rejects : (failure : Failure) → Quiet b (reject failure w)
    unfolding held_approval
    rejects failure = waits (Execution.rejected failure) (λ a h. cc)

    pub checks : (c : Check) (next : World) → (Quiet b) next → Quiet b (checked c w next)
    checks c next fine = checked-holds (Quiet b) c w next rejects (λ h. fine)

    pub moves_on :
        (next : ActionState) (k : World → World)
        → Quiet b (k (moved_to next w))
        → Quiet b (moving (transition_action_state w.action.snapshot.state next) w k)
    moves_on next k fine = moving-holds (Quiet b) next w k (λ h. rejects _) (λ h. fine)

    advances :
        (next : ActionState) (e : Execution)
        → ((a : ActionApproval) → held_approval e ≡ some a → HasApproval a b.action)
        → Quiet b (advance w next e)
    advances next e held =
        advance-holds (Quiet b) next w e (λ h. rejects _)
          (λ h. record {
            same_started = calm.same_started;
            same_approval = calm.same_approval;
            held = held;
          })

    pub finishes : (next : ActionState) → Quiet b (finish w next)
    unfolding finish held_approval
    finishes next = advances next Execution.ended (λ a h. cc)

    pub concludes :
        (outcome : ActionOutcome) (next : ActionState) (e : Execution)
        → ((a : ActionApproval) → held_approval e ≡ some a → HasApproval a b.action)
        → Quiet b (conclude outcome next e w)
    unfolding conclude with_outcome held_approval
    concludes outcome next e held =
        checks (is_recorded outcome w) (advance (with_outcome outcome w) next e) (
          advance-holds (Quiet b) next (with_outcome outcome w) e
            (λ h. record {
              same_started = calm.same_started;
              same_approval = calm.same_approval;
              held = λ a h. cc;
            })
            (λ h. record {
              same_started = calm.same_started;
              same_approval = calm.same_approval;
              held = held;
            }))
