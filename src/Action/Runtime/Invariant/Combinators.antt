-- ===== src/Action/Runtime/Invariant/Combinators.antt =====
-- What holds after a check or a transition of a segment (packages/action-runtime/src/runtime.ts).
use qodex.Common.{◌≡◌, refl, Bool, true, false, ok, err, if◌then◌else◌}
use qodex.Action.Types.{ActionState, ErrorCode}
use qodex.Action.Transitions.{can_transition, transition_action_state}
use qodex.Action.Validation.{Check}
use qodex.Action.Runtime.World.{
  Failure, Execution, World, reject, waiting, moved_to, checked, moving, advance, advanced,
}

module _ (Q : World → Type 0) where
  pub checked-holds :
      (c : Check) (w next : World)
      → ((failure : Failure) → Q (reject failure w))
      → (c ≡ ok tt → Q next)
      → Q (checked c w next)
  checked-holds (err code) w next refused passed = refused (Failure.coded code)
  checked-holds (ok done) w next refused passed = passed refl

  moved-holds :
      (b : Bool) (next : ActionState) (w : World) (k : World → World)
      → (b ≡ false → Q (reject (Failure.coded ErrorCode.invalid_transition) w))
      → (b ≡ true → Q (k (moved_to next w)))
      → Q (moving (if b then ok next else err ErrorCode.invalid_transition) w k)
  moved-holds true next w k refused passed = passed refl
  moved-holds false next w k refused passed = refused refl

  pub moving-holds :
      (next : ActionState) (w : World) (k : World → World)
      → (can_transition w.action.snapshot.state next ≡ false
          → Q (reject (Failure.coded ErrorCode.invalid_transition) w))
      → (can_transition w.action.snapshot.state next ≡ true → Q (k (moved_to next w)))
      → Q (moving (transition_action_state w.action.snapshot.state next) w k)
  unfolding transition_action_state
  moving-holds next w k refused passed =
      moved-holds (can_transition w.action.snapshot.state next) next w k refused passed

  advanced-holds :
      (b : Bool) (next : ActionState) (w : World) (e : Execution)
      → (b ≡ false → Q (reject (Failure.coded ErrorCode.invalid_transition) w))
      → (b ≡ true → Q (waiting e (moved_to next w)))
      → Q (advanced (if b then ok next else err ErrorCode.invalid_transition) w e)
  advanced-holds true next w e refused passed = passed refl
  advanced-holds false next w e refused passed = refused refl

  pub advance-holds :
      (next : ActionState) (w : World) (e : Execution)
      → (can_transition w.action.snapshot.state next ≡ false
          → Q (reject (Failure.coded ErrorCode.invalid_transition) w))
      → (can_transition w.action.snapshot.state next ≡ true → Q (waiting e (moved_to next w)))
      → Q (advance w next e)
  unfolding advance transition_action_state
  advance-holds next w e refused passed =
      advanced-holds (can_transition w.action.snapshot.state next) next w e refused passed

  pub if-holds :
      (b : Bool) (v w : World) → (b ≡ true → Q v) → (b ≡ false → Q w) → Q (if b then v else w)
  if-holds true v w held missed = held refl
  if-holds false v w held missed = missed refl
