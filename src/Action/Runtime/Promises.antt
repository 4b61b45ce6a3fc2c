-- ===== src/Action/Runtime/Promises.antt =====
-- What a run of a runtime promises, whatever its callers, its hooks and its handlers do
-- (packages/action-runtime/src/runtime.ts).
use qodex.Common.{
  if◌then◌else◌, Result, ◌≡◌, refl, ap, subst, ◌∙◌, String, Bool, true, false, Option, none, some,
  ok, err, List, [], ◌∷◌, eq_refl, any,
}
use qodex.Common.Maps.{lookup, lookup-insert_same}
use qodex.Action.Types.{
  ActionApproval, ActionDecision, ActionStarted, ActionOutcome, ActionState, ActionSnapshot,
  ErrorCode,
}
use qodex.Action.Transitions.{
  transition_action_state, transitions, same_state, can_transition, is_terminal_action_state,
}
use qodex.Action.Canonical.{ActionHost}
use qodex.Action.Validation.{outcome_fits}
use qodex.Action.Validation.Inversion.{validate_action_outcome_inv}
use qodex.Action.Runtime.World.{Execution, ActionRecord, World}
use qodex.Action.Runtime.Dispatching.{settled_state}
use qodex.Action.Runtime.Calls.{
  System, Event, on_event, attempt, on_record, called, cancel_action, after_move, is_cancellable,
  returns,
}
use qodex.Action.Runtime.Invariant.{Phase, Reaches}
use qodex.Action.Runtime.Systems.{
  Reachable, Reachable-AllSound, run_events, run_events-Follows, Reachable-run_events,
}

stuck-list :
    (xs : List ActionState) (t : ActionState)
    → (elim xs [ [] ↦ true | _ ↦ false ]) ≡ true
    → any (same_state t) xs ≡ false
stuck-list [] t h = refl
stuck-list (x ∷ xs) t h = cc

terminal-stuck :
    (s t : ActionState) → is_terminal_action_state s ≡ true → can_transition s t ≡ false
unfolding is_terminal_action_state can_transition
terminal-stuck s t h = stuck-list (transitions s) t h

Reaches-terminal : (s t : ActionState) → is_terminal_action_state s ≡ true → Reaches s t → t ≡ s
Reaches-terminal s t h Reaches.stay = refl
Reaches-terminal s t h (Reaches.move walked step) =
    let here = Reaches-terminal s _ h walked in
    let stuck = terminal-stuck s t h in absurd cc (ap (λ x. can_transition x t) here, step, stuck)

-- the outcome of an action, and what it answers
pub record Concluded (s : ActionSnapshot) (outcome : ActionOutcome) : Type 0 where
  pub receipt : ActionStarted
  pub started : s.started ≡ some receipt
  pub answers : outcome.execution_receipt_id ≡ receipt.execution_receipt_id
  pub concerns : outcome.action_id ≡ s.proposal.action_id
  pub reached : s.state ≡ settled_state outcome.status
  pub fits : outcome_fits outcome.status outcome.result outcome.error ≡ true

after_move-keeps :
    (m : Result ErrorCode ActionState) (w : World)
    → ((after_move m w).left.action.aborted ≡ w.action.aborted)
      × ((after_move m w).left.action.snapshot.started ≡ w.action.snapshot.started)
after_move-keeps (err code) w = (refl, refl)
after_move-keeps (ok next) w = (refl, refl)

cancelled-keeps :
    (leaves : Bool) (m : Result ErrorCode ActionState) (w : World)
    → ((if leaves then after_move m w else returns w).left.action.aborted ≡ w.action.aborted)
      × ((if leaves then after_move m w else returns w).left.action.snapshot.started
          ≡ w.action.snapshot.started)
cancelled-keeps true m w = after_move-keeps m w
cancelled-keeps false m w = (refl, refl)

cancel_action-keeps :
    (w : World)
    → ((cancel_action w).left.action.aborted ≡ true)
      × ((cancel_action w).left.action.snapshot.started ≡ w.action.snapshot.started)
unfolding cancel_action
cancel_action-keeps w =
    cancelled-keeps (is_cancellable w.action.snapshot.state)
      (transition_action_state w.action.snapshot.state ActionState.cancelled)
      (record w { action = record w.action { aborted = true } })

module _ (host : ActionHost) where
  -- In every reachable runtime, the outcome of an action answers the receipt that the action was
  -- started with, names the action, has the result and the error that go with its status, and
  -- the state of the action is the one of that status.
  pub Reachable-Concluded :
      (s : System) (id : String) (r : ActionRecord) (outcome : ActionOutcome)
      → Reachable host s
      → lookup id s.records ≡ some r
      → r.snapshot.outcome ≡ some outcome
      → Concluded r.snapshot outcome
  Reachable-Concluded s id r outcome reached found has_outcome =
      let held = (Reachable-AllSound host reached id r found).settled outcome has_outcome in
      let (action, same, fits) =
        validate_action_outcome_inv host outcome r.snapshot.proposal held.receipt
          host.evidence_size_limit held.valid in
      record {
        receipt = held.receipt;
        started = held.started;
        answers = same;
        concerns = action;
        reached = held.reached;
        fits = fits;
      }

  -- Once the execution of an action has ended in a reachable runtime, the action is in a
  -- terminal state and stays in that state whatever happens afterwards.
  pub run_events-ended :
      (s : System) (id : String) (r : ActionRecord) (events : List Event)
      → Reachable host s
      → lookup id s.records ≡ some r
      → r.execution ≡ Execution.ended
      → (q : ActionRecord) × (lookup id (run_events host events s).records ≡ some q)
        × (q.snapshot.state ≡ r.snapshot.state)
        × (is_terminal_action_state q.snapshot.state ≡ true)
  run_events-ended s id r events reached found over =
      let (q, there, evolved) = run_events-Follows host events s reached id r found in
      let sound = Reachable-AllSound host reached id r found in
      let terminal : is_terminal_action_state r.snapshot.state ≡ true =
        subst (Phase host r.snapshot r.expected_generation r.aborted) over sound.phase in
      let same = Reaches-terminal r.snapshot.state q.snapshot.state terminal evolved.walked in
      (q, there, same, ap is_terminal_action_state same ∙ terminal)

  cancelled_record :
      (s : System) (id : String) (o : Option ActionRecord) (r : ActionRecord)
      → o ≡ some r
      → r.snapshot.started ≡ none
      → (q : ActionRecord) × (lookup id (called id o cancel_action s).1.records ≡ some q)
        × (q.aborted ≡ true)
        × (q.snapshot.started ≡ none)
  unfolding called
  cancelled_record s id none r found idle = cc
  cancelled_record s id (some q) r found idle =
      let w : World = record { action = q; shared = s.shared } in
      let (aborted, kept) = cancel_action-keeps w in
      let same : q ≡ r = cc in
      (
        (cancel_action w).left.action,
        lookup-insert_same id id (cancel_action w).left.action s.records (eq_refl id),
        aborted,
        kept ∙ ap (λ (x : ActionRecord). x.snapshot.started) same ∙ idle,
      )

  -- An action of a reachable runtime that is cancelled before it has a receipt never gets one,
  -- whatever happens afterwards, and its execution never waits for its handler.
  pub cancel-never_starts :
      (s : System) (id : String) (r : ActionRecord) (events : List Event)
      → Reachable host s
      → lookup id s.records ≡ some r
      → r.snapshot.started ≡ none
      → (q : ActionRecord) × (lookup id
            (run_events host events (on_event host (Event.cancel id) s)).records
          ≡ some q)
        × (q.snapshot.started ≡ none)
        × ((a : ActionApproval) (d : ActionDecision) (receipt : ActionStarted)
            → ¬ (q.execution ≡ Execution.handling a d receipt))
  unfolding on_event attempt on_record
  cancel-never_starts s id r events reached found idle =
      let (p, there, aborted, still) = cancelled_record s id (lookup id s.records) r found idle in
      let (q, last, evolved) =
        run_events-Follows host events (on_event host (Event.cancel id) s)
          (Reachable.later (Event.cancel id) reached) id p there in
      let bare = evolved.barred aborted still in
      let sound =
        Reachable-AllSound host
          (Reachable-run_events host events (Reachable.later (Event.cancel id) reached)) id q
          last in
      (
        q,
        last,
        bare,
        λ a d receipt waits.
            let (_, started, _) =
              subst (Phase host q.snapshot q.expected_generation q.aborted) waits sound.phase in
            cc,
      )
