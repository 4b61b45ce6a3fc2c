-- ===== src/Action/Runtime/Licences/Past.antt =====
-- What an event may have changed in the record of an action
-- (packages/action-runtime/src/runtime.ts).
use qodex.Common.{
  ◌≡◌, refl, sym, ◌∙◌, subst, ap, ◌⊎◌, inl, inr, ℕ, String, Bool, Option, none, some, ok, err,
  Result, ◌==◌, eq_iff, Bool-cases, not, ◌||◌, has, guard, >>=-eq-ok, ok-injective, guard-not-eq-ok,
}
use qodex.Common.Maps.{lookup, insert, lookup-insert_same, lookup-insert_other}
use qodex.Action.Types.{ActionProposal, ActionApproval, ActionStarted, ActionState, ErrorCode}
use qodex.Action.Transitions.{transition_action_state, can_transition}
use qodex.Action.Canonical.{ActionHost}
use qodex.Action.Validation.{is_present, validate_action_proposal}
use qodex.Action.Runtime.World.{ActionRecord, World}
use qodex.Action.Runtime.Calls.{
  Reply, Call, System, Event, called, on_record, left_by, propose_action, register_handler, attempt,
  on_event, proposed_record, returns, resume,
}
use qodex.Action.Runtime.Systems.{is_present-eq-false}
use qodex.Action.Runtime.Licences.Quiet.{HasApproval, held_approval}
use qodex.Action.Runtime.Licences.Resuming.{resume-Origin}
use qodex.Action.Runtime.Licences.Steps.{
  Granted, Accepted, Origin, Origin-refl, cancel_action-Origin, accept_approval-Origin,
  approve_action-Origin, execute_action-Origin,
}

-- a record that no call but `propose` has been about
abbrev Untouched : ActionRecord → Type 0
Untouched r = (r.snapshot.started ≡ none) × ((a : ActionApproval) → HasApproval a r → ⊥)

pub same_record : {r q : ActionRecord} → some r ≡ some q → r ≡ q
same_record h = cc

proposed-Untouched :
    (proposal : ActionProposal) (state : ActionState) → Untouched (proposed_record proposal state)
unfolding held_approval
proposed-Untouched proposal state =
    (refl, λ a h. elim h [ inl kept ↦ absurd cc kept | inr there ↦ absurd cc there ])

Origin-map :
    {G H : ActionStarted → Type 0} {A B : ActionApproval → Type 0} (r q : ActionRecord)
    → ((receipt : ActionStarted) → G receipt → H receipt)
    → ((a : ActionApproval) → A a → B a)
    → Origin G A r q
    → Origin H B r q
Origin-map r q give bring origin = record {
  receipts = λ receipt h. elim (origin.receipts receipt h) [
    | inl before ↦ inl before
    | inr given ↦ inr (give receipt given)
  ];
  still_over = origin.still_over;
  approvals = λ a h. elim (origin.approvals a h) [
    | inl before ↦ inl before
    | inr brought ↦ inr (bring a brought)
  ];
}

module _ (host : ActionHost) where
  -- The event is the answer of `beforeDispatch` for this action.
  abbrev pub Gives : Event → String → ActionRecord → ActionStarted → Type 0
  Gives event id q receipt =
      (answer : Reply) × (event ≡ Event.reply id answer) × Granted host q answer receipt

  -- The event is the answer of `beforeApprovalAccepted` for this action.
  abbrev Brings : Event → String → ActionRecord → ActionApproval → Type 0
  Brings event id q a =
      (place : ℕ) × (hook_fails : Bool) × (event ≡ Event.accept id place hook_fails)
      × Accepted q place hook_fails a

  abbrev Back : Event → String → System → ActionRecord → Type 0
  Back event id s r =
      ((lookup id s.records ≡ none) × Untouched r)
      ⊎ ((q : ActionRecord) × (lookup id s.records ≡ some q)
          × Origin (Gives event id q) (Brings event id q) q r)

  module _ (event : Event) (id : String) (s : System) where
    unchanged : (r : ActionRecord) → lookup id s.records ≡ some r → Back event id s r
    unchanged r found = inr (r, found, Origin-refl (record { action = r; shared = s.shared }))

    called-Back :
        (key : String) (o : Option ActionRecord) (call : World → Call) (r : ActionRecord)
        → lookup key s.records ≡ o
        → (key ≡ id
            → (w : World)
            → Origin
                (Gives event id w.action)
                (Brings event id w.action)
                w.action
                (call w).left.action)
        → lookup id (called key o call s).1.records ≡ some r
        → Back event id s r
    unfolding called
    called-Back key none call r held origin found = unchanged r found
    called-Back key (some q) call r held origin found =
        let w : World = record { action = q; shared = s.shared } in
        let next = (call w).left.action in
        elim (Bool-cases (key == id)) [
          | inl here ↦
              let same = (eq_iff key id).0 here in
              let left : next ≡ r =
                same_record (sym (lookup-insert_same key id next s.records here) ∙ found) in
              inr (
                q,
                ap (λ x. lookup x s.records) (sym same) ∙ held,
                subst (Origin (Gives event id q) (Brings event id q) q) left (origin same w),
              )
          | inr apart ↦ unchanged r (sym (lookup-insert_other key id next s.records apart) ∙ found)
        ]

    left_by-Back :
        (m : Result ErrorCode System) (r : ActionRecord)
        → ((t : System) → m ≡ ok t → lookup id t.records ≡ some r → Back event id s r)
        → lookup id (left_by s m).1.records ≡ some r
        → Back event id s r
    left_by-Back (err code) r made found = unchanged r found
    left_by-Back (ok t) r made found = made t refl found

    proposed-Back :
        (proposal : ActionProposal) (r : ActionRecord)
        → lookup id (left_by s (propose_action host proposal s)).1.records ≡ some r
        → Back event id s r
    unfolding propose_action transition_action_state can_transition
    proposed-Back proposal r = left_by-Back (propose_action host proposal s) r (λ t h found.
        let (_, _, h₁) = >>=-eq-ok (validate_action_proposal host proposal) _ h in
        let (_, unused, h₂) =
          >>=-eq-ok
            (guard (not (is_present (lookup proposal.action_id s.records)))
              ErrorCode.duplicate_action)
            _ h₁ in
        let new = proposed_record proposal ActionState.awaiting_approval in
        let found₁ : lookup id (insert proposal.action_id new s.records) ≡ some r =
          ap (λ (x : System). lookup id x.records) (ok-injective h₂) ∙ found in
        elim (Bool-cases (proposal.action_id == id)) [
          | inl here ↦
              let left : new ≡ r =
                same_record
                  (sym (lookup-insert_same proposal.action_id id new s.records here) ∙ found₁) in
              let absent =
                is_present-eq-false (lookup proposal.action_id s.records)
                  (guard-not-eq-ok _ ErrorCode.duplicate_action unused) in
              inl (
                subst (λ x. lookup x s.records ≡ none) ((eq_iff proposal.action_id id).0 here)
                    absent,
                subst Untouched left (proposed-Untouched proposal ActionState.awaiting_approval),
              )
          | inr apart ↦
              unchanged r
                (sym (lookup-insert_other proposal.action_id id new s.records apart) ∙ found₁)
        ])

    registered-Back :
        (name : String) (r : ActionRecord)
        → lookup id (left_by s (register_handler name s)).1.records ≡ some r
        → Back event id s r
    unfolding register_handler
    registered-Back name r = left_by-Back (register_handler name s) r (λ t h found.
        let (_, _, h₁) =
          >>=-eq-ok
            (guard (not (name == "" || has name s.shared.handlers)) ErrorCode.unknown_action) _ h in
        unchanged r (ap (λ (x : System). lookup id x.records) (ok-injective h₁) ∙ found))

  pub on_event-Back :
      (event : Event) (id : String) (s : System) (r : ActionRecord)
      → lookup id (on_event host event s).records ≡ some r
      → Back event id s r
  unfolding on_event attempt on_record
  on_event-Back (Event.register name) id s r found =
      registered-Back (Event.register name) id s name r found
  on_event-Back (Event.call_propose proposal) id s r found =
      proposed-Back (Event.call_propose proposal) id s proposal r found
  on_event-Back (Event.call_approve approval now) id s r found =
      called-Back (Event.call_approve approval now) id s approval.action_id _ _ r refl
        (λ same w. approve_action-Origin host w approval now) found
  on_event-Back (Event.accept key place fails) id s r found =
      called-Back (Event.accept key place fails) id s key _ _ r refl
        (λ same w.
          Origin-map w.action _ (λ receipt h. h)
            (λ a h. (place, fails, ap (λ x. Event.accept x place fails) same, h))
            (accept_approval-Origin w place fails))
        found
  on_event-Back (Event.execute key clock) id s r found =
      called-Back (Event.execute key clock) id s key _ _ r refl
        (λ same w. execute_action-Origin host w clock) found
  on_event-Back (Event.reply key answer) id s r found =
      called-Back (Event.reply key answer) id s key _ (λ w. returns (resume host answer w)) r refl
        (λ same w.
          Origin-map w.action _ (λ receipt h. (answer, ap (λ x. Event.reply x answer) same, h))
            (λ a h. h) (resume-Origin (Brings (Event.reply key answer) id w.action) host w answer))
        found
  on_event-Back (Event.cancel key) id s r found =
      called-Back (Event.cancel key) id s key _ _ r refl (λ same w. cancel_action-Origin w) found
