-- ===== src/Action/Runtime/Systems.antt =====
-- Runs of a runtime: the calls and the answers of all actions in any order
-- (packages/action-runtime/src/runtime.ts).
use qodex.Common.{
  ◌≡◌, refl, sym, ap, subst, ◌∙◌, String, false, Option, none, some, ok, err, List, [], ◌∷◌, ◌==◌,
  eq_iff, Bool-cases, inl, inr, Result, not, ◌||◌, has, guard, >>=-eq-ok, guard-not-eq-ok,
  ok-injective,
}
use qodex.Common.Maps.{lookup, insert, lookup-insert_same, lookup-insert_other}
use qodex.Action.Types.{ActionProposal, ActionState, ErrorCode}
use qodex.Action.Transitions.{transition_action_state, can_transition}
use qodex.Action.Canonical.{ActionHost}
use qodex.Action.Validation.{is_present, validate_action_proposal}
use qodex.Action.Runtime.World.{ActionRecord, Shared, World}
use qodex.Action.Runtime.Calls.{
  Call, System, Event, called, on_record, left_by, propose_action, register_handler, attempt,
  on_event, proposed_record, returns, resume,
}
use qodex.Action.Runtime.Invariant.{Sound, Evolves}
use qodex.Action.Runtime.Invariant.Idling.{Next, Evolves-refl, Evolves-trans, Idle-Sound}
use qodex.Action.Runtime.Invariant.Called.{
  cancel_action-Next, accept_approval-Next, approve_action-Next, execute_action-Next, resume-Next,
}

-- `new ActionRuntime()`
abbrev pub fresh_system : System
fresh_system = record {
  records = [];
  shared = record {
    terminal_outcomes = [];
    decision_ids = [];
    execution_receipts = [];
    handlers = [];
  };
}

some-injective : {r q : ActionRecord} → some r ≡ some q → r ≡ q
some-injective h = cc

pub is_present-eq-false : (o : Option ActionRecord) → is_present o ≡ false → o ≡ none
is_present-eq-false none h = refl
is_present-eq-false (some r) h = cc

module _ (host : ActionHost) where
  pub data Reachable : System → Type 0 where
    fresh : Reachable fresh_system
    later : (event : Event) {s : System} → Reachable s → Reachable (on_event host event s)

  unfoldable pub run_events : List Event → System → System
  unfolding on_event
  run_events [] s = s
  run_events (event ∷ events) s = run_events events (on_event host event s)

  abbrev AllSound : System → Type 0
  AllSound s = (id : String) (r : ActionRecord) → lookup id s.records ≡ some r → Sound host r

  -- every record of `s` is still there in `t`, and has evolved
  abbrev Follows : System → System → Type 0
  Follows s t =
      (id : String) (r : ActionRecord)
      → lookup id s.records ≡ some r
      → (q : ActionRecord) × (lookup id t.records ≡ some q) × Evolves r q

  abbrev Keeps : System → System → Type 0
  Keeps s t = AllSound t × Follows s t

  Keeps-refl : (s : System) → AllSound s → Keeps s s
  Keeps-refl s sound = (sound, λ id r found. (r, found, Evolves-refl r))

  -- a record in place of another, or a new one
  insert-Sound :
      (s : System) (key : String) (next : ActionRecord) (shared : Shared)
      → AllSound s
      → Sound host next
      → AllSound (record { records = insert key next s.records; shared = shared })
  insert-Sound s key next shared sound fine id r found = elim (Bool-cases (key == id)) [
    | inl here ↦
        subst (Sound host)
          (some-injective (sym (lookup-insert_same key id next s.records here) ∙ found)) fine
    | inr apart ↦ sound id r (sym (lookup-insert_other key id next s.records apart) ∙ found)
  ]

  insert-Follows :
      (s : System) (key : String) (next : ActionRecord) (shared : Shared)
      → ((r : ActionRecord) → lookup key s.records ≡ some r → Evolves r next)
      → Follows s (record { records = insert key next s.records; shared = shared })
  insert-Follows s key next shared evolved id r found = elim (Bool-cases (key == id)) [
    | inl here ↦ (
      next,
      lookup-insert_same key id next s.records here,
      evolved r (ap (λ x. lookup x s.records) ((eq_iff key id).0 here) ∙ found),
    )
    | inr apart ↦ (r, lookup-insert_other key id next s.records apart ∙ found, Evolves-refl r)
  ]

  called-Keeps :
      (s : System) (id : String) (o : Option ActionRecord) (call : World → Call)
      → lookup id s.records ≡ o
      → AllSound s
      → ((w : World) → Sound host w.action → Next host w (call w).left)
      → Keeps s (called id o call s).1
  unfolding called
  called-Keeps s id none call found sound next = Keeps-refl s sound
  called-Keeps s id (some r) call found sound next =
      let w : World = record { action = r; shared = s.shared } in
      let stepped = next w (sound id r found) in
      (
        insert-Sound s id (call w).left.action (call w).left.shared sound stepped.sound,
        insert-Follows s id (call w).left.action (call w).left.shared (λ q there.
            let same : r ≡ q = cc in
            subst (λ x. Evolves x (call w).left.action) same stepped.evolved),
      )

  left_by-Keeps :
      (s : System) (m : Result ErrorCode System)
      → AllSound s
      → ((t : System) → m ≡ ok t → Keeps s t)
      → Keeps s (left_by s m).1
  left_by-Keeps s (err code) sound kept = Keeps-refl s sound
  left_by-Keeps s (ok t) sound kept = kept t refl

  propose-Keeps :
      (proposal : ActionProposal) (s : System)
      → AllSound s
      → Keeps s (left_by s (propose_action host proposal s)).1
  unfolding propose_action transition_action_state can_transition
  propose-Keeps proposal s sound = left_by-Keeps s (propose_action host proposal s) sound (λ t h.
      let (_, _, h₁) = >>=-eq-ok (validate_action_proposal host proposal) _ h in
      let (_, unused, h₂) =
        >>=-eq-ok
          (guard (not (is_present (lookup proposal.action_id s.records)))
            ErrorCode.duplicate_action)
          _ h₁ in
      let new = proposed_record proposal ActionState.awaiting_approval in
      let absent =
        is_present-eq-false (lookup proposal.action_id s.records)
          (guard-not-eq-ok _ ErrorCode.duplicate_action unused) in
      subst (Keeps s) (ok-injective h₂) (
        insert-Sound s proposal.action_id new s.shared sound
            (Idle-Sound host new (refl, refl) (refl, refl)),
        insert-Follows s proposal.action_id new s.shared
            (λ r there. let clash : ⊥ = cc (absent, there) in absurd clash),
      ))

  register-Keeps :
      (name : String) (s : System) → AllSound s → Keeps s (left_by s (register_handler name s)).1
  unfolding register_handler
  register-Keeps name s sound = left_by-Keeps s (register_handler name s) sound (λ t h.
      let (_, _, h₁) =
        >>=-eq-ok (guard (not (name == "" || has name s.shared.handlers)) ErrorCode.unknown_action)
          _ h in
      subst (Keeps s) (ok-injective h₁) (Keeps-refl s sound))

  on_event-Keeps : (event : Event) (s : System) → AllSound s → Keeps s (on_event host event s)
  unfolding on_event attempt on_record
  on_event-Keeps (Event.register name) s sound = register-Keeps name s sound
  on_event-Keeps (Event.call_propose proposal) s sound = propose-Keeps proposal s sound
  on_event-Keeps (Event.call_approve approval now) s sound =
      called-Keeps s approval.action_id _ _ refl sound
        (λ w fine. approve_action-Next host w fine approval now)
  on_event-Keeps (Event.accept id place hook_fails) s sound =
      called-Keeps s id _ _ refl sound (λ w fine. accept_approval-Next host w fine place hook_fails)
  on_event-Keeps (Event.execute id clock) s sound =
      called-Keeps s id _ _ refl sound (λ w fine. execute_action-Next host w fine clock)
  on_event-Keeps (Event.reply id r) s sound =
      called-Keeps s id _ (λ w. returns (resume host r w)) refl sound
        (λ w fine. resume-Next host w fine r)
  on_event-Keeps (Event.cancel id) s sound =
      called-Keeps s id _ _ refl sound (λ w fine. cancel_action-Next host w fine)

  pub Reachable-AllSound : {s : System} → Reachable s → AllSound s
  unfolding lookup
  Reachable-AllSound fresh = λ id r found. absurd cc found
  Reachable-AllSound (later event reached) = (on_event-Keeps event _ (Reachable-AllSound reached)).0

  pub Reachable-run_events :
      (events : List Event) {s : System} → Reachable s → Reachable (run_events events s)
  unfolding run_events
  Reachable-run_events [] reached = reached
  Reachable-run_events (event ∷ events) reached = Reachable-run_events events (later event reached)

  -- Whatever happens to a reachable runtime, every action stays known with the same proposal,
  -- its state moves along TRANSITIONS only, and a receipt or an outcome that it has is never
  -- replaced.
  pub run_events-Follows :
      (events : List Event) (s : System) → Reachable s → Follows s (run_events events s)
  unfolding run_events
  run_events-Follows [] s reached id r found = (r, found, Evolves-refl r)
  run_events-Follows (event ∷ events) s reached id r found =
      let (q, there, first) = (on_event-Keeps event s (Reachable-AllSound reached)).1 id r found in
      let (p, last, second) =
        run_events-Follows events (on_event host event s) (later event reached) id q there in
      (p, last, Evolves-trans r q p first second)
