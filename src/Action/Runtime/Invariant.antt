-- ===== src/Action/Runtime/Invariant.antt =====
-- What holds of the record of an action at every await, and how a record evolves
-- (packages/action-runtime/src/runtime.ts).
pub mod Combinators
pub mod Idling
pub mod Dispatched
pub mod Running
pub mod Leaving
pub mod Called
use qodex.Common.{◌≡◌, ◌⊎◌, ◌<◌, ℕ, String, Bool, true, false, Option, none, some, ok, List}
use qodex.Session.Json.{Number}
use qodex.Action.Types.{
  ActionProposal, ActionApproval, ActionDecision, ActionStarted, ActionOutcome, ActionState,
  ActionSnapshot, Verdict,
}
use qodex.Action.Transitions.{can_transition, is_terminal_action_state}
use qodex.Action.Canonical.{ActionHost}
use qodex.Action.Validation.{
  validate_action_approval, validate_action_decision, validate_action_started,
  validate_action_outcome,
}
use qodex.Action.Runtime.World.{Execution, ActionRecord, World}
use qodex.Action.Runtime.Dispatching.{settled_state}

-- a walk along `TRANSITIONS`
pub data Reaches (s : ActionState) : ActionState → Type 0 where
  stay : Reaches s s
  move : {m t : ActionState} → Reaches s m → can_transition m t ≡ true → Reaches s t

-- the action waits in a state, or was cancelled meanwhile
abbrev pub Holds : ActionState → ActionSnapshot → (aborted : Bool) → Type 0
Holds state s aborted = (s.state ≡ state) ⊎ ((s.state ≡ ActionState.cancelled) × (aborted ≡ true))

abbrev pub Idle : ActionSnapshot → Type 0
Idle s = (s.started ≡ none) × (s.outcome ≡ none)

module _ (host : ActionHost) where
  -- a receipt with the approval and the allow decision that it was given on
  pub record Authorised (s : ActionSnapshot) (generation : Number) (receipt : ActionStarted)
      : Type 0 where
    pub approval : ActionApproval
    pub decision : ActionDecision
    pub now : ℕ
    pub later : ℕ
    pub kept : s.decision ≡ some decision
    pub approved :
        validate_action_approval host approval (some s.proposal) (some generation) now ≡ ok tt
    pub decided :
        validate_action_decision host decision (some s.proposal) host.evidence_size_limit ≡ ok tt
    pub bound :
        validate_action_started host receipt (some s.proposal) (some approval) (some decision) later
        ≡ ok tt

  pub record Settled (s : ActionSnapshot) (outcome : ActionOutcome) : Type 0 where
    pub receipt : ActionStarted
    pub reached : s.state ≡ settled_state outcome.status
    pub started : s.started ≡ some receipt
    pub valid :
        validate_action_outcome host outcome
          (some s.proposal)
          (some receipt)
          host.evidence_size_limit
        ≡ ok tt

  abbrev pub Decided : ActionSnapshot → ActionDecision → Type 0
  Decided s d =
      (s.decision ≡ some d)
      × (validate_action_decision host d (some s.proposal) host.evidence_size_limit ≡ ok tt)

  -- what holds where an execution waits
  abbrev pub Phase : ActionSnapshot → Number → (aborted : Bool) → Execution → Type 0
  Phase s g aborted Execution.unstarted = Idle s
  Phase s g aborted (Execution.rejected failure) = Unit
  Phase s g aborted Execution.ended = is_terminal_action_state s.state ≡ true
  Phase s g aborted Execution.reporting = s.state ≡ ActionState.interrupted
  Phase s g aborted Execution.refusing = Holds ActionState.evaluating s aborted × Idle s
  Phase s g aborted (Execution.requesting a) = Holds ActionState.evaluating s aborted × Idle s
  Phase s g aborted (Execution.deciding a) = Holds ActionState.evaluating s aborted × Idle s
  Phase s g aborted (Execution.recording a d) =
      Holds ActionState.evaluating s aborted × Idle s × Decided s d
  Phase s g aborted (Execution.dispatching a d receipt) =
      Holds ActionState.starting s aborted
      × Idle s
      × Decided s d
      × (later : ℕ) × (validate_action_started host receipt (some s.proposal) (some a) (some d)
            later
          ≡ ok tt)
  Phase s g aborted (Execution.handling a d receipt) =
      (s.state ≡ ActionState.running) × (s.started ≡ some receipt) × (s.outcome ≡ none)
  Phase s g aborted (Execution.settling receipt outcome) =
      (s.state ≡ ActionState.running)
      × (s.started ≡ some receipt)
      × (s.outcome ≡ none)
      × (validate_action_outcome host outcome (some s.proposal) (some receipt)
            host.evidence_size_limit
          ≡ ok tt)

  pub record Sound (r : ActionRecord) : Type 0 where
    pub authorised :
        (receipt : ActionStarted)
        → r.snapshot.started ≡ some receipt
        → Authorised r.snapshot r.expected_generation receipt
    pub settled :
        (outcome : ActionOutcome) → r.snapshot.outcome ≡ some outcome → Settled r.snapshot outcome
    pub phase : Phase r.snapshot r.expected_generation r.aborted r.execution

-- how a record may change
pub record Evolves (r q : ActionRecord) : Type 0 where
  pub walked : Reaches r.snapshot.state q.snapshot.state
  pub same_proposal : q.snapshot.proposal ≡ r.snapshot.proposal
  pub still_started :
      (receipt : ActionStarted)
      → r.snapshot.started ≡ some receipt
      → q.snapshot.started ≡ some receipt
  pub still_settled :
      (outcome : ActionOutcome)
      → r.snapshot.outcome ≡ some outcome
      → q.snapshot.outcome ≡ some outcome
  pub still_aborted : r.aborted ≡ true → q.aborted ≡ true
  pub barred : r.aborted ≡ true → r.snapshot.started ≡ none → q.snapshot.started ≡ none
