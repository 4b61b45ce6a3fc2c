-- ===== src/Action/Runtime/Invariant/Leaving.antt =====
-- Records that `cancel` and `approve` change, where an execution waits
-- (packages/action-runtime/src/runtime.ts).
use qodex.Common.{◌≢◌, ◌≡◌, refl, sym, ap, ◌∙◌, inl, inr, ◌⊎◌, Bool, true, false, Option, List}
use qodex.Session.Json.{Number}
use qodex.Action.Types.{ActionApproval, ActionState, ActionSnapshot, ActionOutcome}
use qodex.Action.Transitions.{can_transition, is_terminal_action_state, same_state}
use qodex.Action.Canonical.{ActionHost}
use qodex.Action.Runtime.World.{Execution, ActionRecord}
use qodex.Action.Runtime.Dispatching.{settled_state}
use qodex.Action.Runtime.Calls.{is_cancellable}
use qodex.Action.Runtime.Invariant.{Holds, Settled, Phase}
use qodex.Action.Runtime.Invariant.Running.{settled_state-terminal}

-- The states that a record leaves on a call: `cancel` and `approve` have moved it to `next`.
abbrev pub Leaves : ActionState → ActionState → Type 0
Leaves s next =
    ((next ≡ ActionState.cancelled) × (is_cancellable s ≡ true))
    ⊎ ((next ≡ ActionState.approved) × (s ≡ ActionState.awaiting_approval))

cancellable-moves :
    (s : ActionState) → is_cancellable s ≡ true → can_transition s ActionState.cancelled ≡ true
unfolding is_cancellable can_transition same_state
cancellable-moves ActionState.proposed h = refl
cancellable-moves ActionState.awaiting_approval h = refl
cancellable-moves ActionState.approved h = refl
cancellable-moves ActionState.evaluating h = refl
cancellable-moves ActionState.allowed h = refl
cancellable-moves ActionState.starting h = refl
cancellable-moves _ h = cc

pub approved-awaits :
    (s : ActionState)
    → can_transition s ActionState.approved ≡ true
    → s ≡ ActionState.awaiting_approval
unfolding can_transition same_state
approved-awaits ActionState.awaiting_approval h = refl
approved-awaits _ h = cc

terminal-stays : (s : ActionState) → is_terminal_action_state s ≡ true → is_cancellable s ≡ false
unfolding is_terminal_action_state is_cancellable same_state
terminal-stays ActionState.denied h = refl
terminal-stays ActionState.held h = refl
terminal-stays ActionState.decision_error h = refl
terminal-stays ActionState.completed h = refl
terminal-stays ActionState.failed h = refl
terminal-stays ActionState.cancelled h = refl
terminal-stays ActionState.interrupted h = refl
terminal-stays _ h = cc

Leaves-not_stays : (s x next : ActionState) → is_cancellable x ≡ false → s ≡ x → Leaves s next → ⊥
unfolding is_cancellable same_state
Leaves-not_stays s x next still same (inl (there, leaves)) = cc
Leaves-not_stays s x next still same (inr (there, awaits)) =
    let leaves : is_cancellable s ≡ true = ap is_cancellable awaits in cc

-- the parts of a record that a call may change
abbrev pub changed :
    ActionRecord → Option ActionApproval → ActionState → Bool → List ActionApproval → ActionRecord
changed r approval next aborted approving = record r {
  snapshot = record r.snapshot { approval = approval; state = next };
  aborted = aborted;
  approving = approving;
}

module _ (host : ActionHost) (s : ActionSnapshot) (g : Number) (approval : Option ActionApproval)
    (b aborted : Bool) where
  pub Phase-stays :
      (e : Execution)
      → (b ≡ true → aborted ≡ true)
      → Phase host s g b e
      → Phase host (record s { approval = approval }) g aborted e
  Phase-stays Execution.unstarted still phase = phase
  Phase-stays Execution.ended still phase = phase
  Phase-stays Execution.reporting still phase = phase
  Phase-stays (Execution.rejected failure) still phase = phase
  Phase-stays Execution.refusing still (inl here, idle) = (inl here, idle)
  Phase-stays Execution.refusing still (inr (gone, h), idle) = (inr (gone, still h), idle)
  Phase-stays (Execution.requesting a) still (inl here, idle) = (inl here, idle)
  Phase-stays (Execution.requesting a) still (inr (gone, h), idle) = (inr (gone, still h), idle)
  Phase-stays (Execution.deciding a) still (inl here, idle) = (inl here, idle)
  Phase-stays (Execution.deciding a) still (inr (gone, h), idle) = (inr (gone, still h), idle)
  Phase-stays (Execution.recording a d) still (inl here, idle, decided) = (inl here, idle, decided)
  Phase-stays (Execution.recording a d) still (inr (gone, h), idle, decided) =
      (inr (gone, still h), idle, decided)
  Phase-stays (Execution.dispatching a d receipt) still (inl here, idle, decided, later, bound) =
      (inl here, idle, decided, later, bound)
  Phase-stays (Execution.dispatching a d receipt) still
        (inr (gone, h), idle, decided, later, bound) =
      (inr (gone, still h), idle, decided, later, bound)
  Phase-stays (Execution.handling a d receipt) still phase = phase
  Phase-stays (Execution.settling receipt outcome) still phase = phase

  module _ (next : ActionState) (leaves : Leaves s.state next)
      (marked : next ≡ ActionState.cancelled → aborted ≡ true) where
    Holds-leaves :
        (x : ActionState)
        → x ≢ ActionState.awaiting_approval
        → Holds x s b
        → Holds x (record s { approval = approval; state = next }) aborted
    Holds-leaves x waits holds = elim leaves [
      | inl (there, _) ↦ inr (there, marked there)
      | inr (there, awaits) ↦ elim holds [
        | inl here ↦ absurd (waits (sym here ∙ awaits))
        | inr (gone, _) ↦ absurd (cc (gone, awaits))
      ]
    ]

    running-not_leaves : s.state ≡ ActionState.running → ⊥
    unfolding is_cancellable same_state
    running-not_leaves here = Leaves-not_stays s.state ActionState.running next refl here leaves

    pub Phase-leaves :
        (e : Execution)
        → Phase host s g b e
        → Phase host (record s { approval = approval; state = next }) g aborted e
    unfolding is_cancellable same_state
    Phase-leaves Execution.unstarted phase = phase
    Phase-leaves Execution.ended phase =
        absurd (Leaves-not_stays s.state s.state next (terminal-stays s.state phase) refl leaves)
    Phase-leaves Execution.reporting phase =
        absurd (Leaves-not_stays s.state ActionState.interrupted next refl phase leaves)
    Phase-leaves (Execution.rejected failure) phase = phase
    Phase-leaves Execution.refusing (holds, idle) =
        (Holds-leaves ActionState.evaluating (λ h. cc) holds, idle)
    Phase-leaves (Execution.requesting a) (holds, idle) =
        (Holds-leaves ActionState.evaluating (λ h. cc) holds, idle)
    Phase-leaves (Execution.deciding a) (holds, idle) =
        (Holds-leaves ActionState.evaluating (λ h. cc) holds, idle)
    Phase-leaves (Execution.recording a d) (holds, idle, decided) =
        (Holds-leaves ActionState.evaluating (λ h. cc) holds, idle, decided)
    Phase-leaves (Execution.dispatching a d receipt) (holds, idle, decided, later, bound) =
        (Holds-leaves ActionState.starting (λ h. cc) holds, idle, decided, later, bound)
    Phase-leaves (Execution.handling a d receipt) (here, started, unsettled) =
        absurd (running-not_leaves here)
    Phase-leaves (Execution.settling receipt outcome) (here, started, unsettled, valid) =
        absurd (running-not_leaves here)

    pub Settled-not_leaves : (outcome : ActionOutcome) → Settled host s outcome → ⊥
    Settled-not_leaves outcome held =
        let terminal = settled_state-terminal outcome.status in
        Leaves-not_stays s.state (settled_state outcome.status) next
          (terminal-stays (settled_state outcome.status) terminal) held.reached leaves
