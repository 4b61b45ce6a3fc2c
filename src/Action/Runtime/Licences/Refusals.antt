-- ===== src/Action/Runtime/Licences/Refusals.antt =====
-- What becomes of an action whose decision is not a decision for it
-- (packages/action-runtime/src/runtime.ts).
use qodex.Common.{
  ◌≡◌, refl, sym, ◌∙◌, subst, ap, ◌⊎◌, inl, inr, String, true, Option, none, some, ok, err, List,
  [], ◌∷◌, has, >>=-eq-ok, guard-not-eq-ok, eq_refl,
}
use qodex.Common.Maps.{lookup, lookup-insert_same}
use qodex.Action.Types.{ActionApproval, ActionDecision, ActionStarted, ErrorCode, code_text}
use qodex.Action.Canonical.{ActionHost}
use qodex.Action.Validation.{Check, validate_action_decision}
use qodex.Action.Validation.Inversion.{validate_action_decision_inv}
use qodex.Action.Runtime.World.{Execution, ActionRecord, World, Clock, waiting, local_decision}
use qodex.Action.Runtime.Evaluating.{
  accept_decision, decided, fail_closed_decision, resume_deciding, keep_decision,
}
use qodex.Action.Runtime.Calls.{
  Reply, System, Event, on_event, attempt, on_record, called, resume, resume_at, returns,
}
use qodex.Action.Runtime.Invariant.{Phase}
use qodex.Action.Runtime.Invariant.Combinators.{checked-holds}
use qodex.Action.Runtime.Systems.{Reachable, Reachable-AllSound, run_events, run_events-Follows}
use qodex.Action.Runtime.Licences.Segments.{resume_deciding-Quiet}
use qodex.Action.Runtime.Licences.Quiet.{is_over, held_approval}
use qodex.Action.Runtime.Licences.Past.{on_event-Back, same_record}

-- no receipt, and none to come
pub record NeverStarts (r : ActionRecord) : Type 0 where
  pub idle : r.snapshot.started ≡ none
  pub over : is_over r.execution ≡ true

none-when :
    (o : Option ActionStarted) → ((receipt : ActionStarted) → o ≡ some receipt → ⊥) → o ≡ none
none-when none refused = refl
none-when (some receipt) refused = absurd (refused receipt refl)

-- The decision is on another action, or its identifier is that of an earlier decision
abbrev pub Unfit : System → ActionRecord → ActionDecision → Type 0
Unfit s r d =
    (d.action_id ≡ r.snapshot.proposal.action_id → ⊥)
    ⊎ (has d.decision_id s.shared.decision_ids ≡ true)

module _ (host : ActionHost) where
  on_event-NeverStarts :
      (event : Event) (s : System) (id : String) (r : ActionRecord)
      → Reachable host s
      → lookup id s.records ≡ some r
      → NeverStarts r
      → (q : ActionRecord) × (lookup id (on_event host event s).records ≡ some q) × NeverStarts q
  unfolding run_events is_over
  on_event-NeverStarts event s id r reached found never =
      let (q, there, _) = run_events-Follows host (event ∷ []) s reached id r found in
      elim (on_event-Back host event id s q there) [
        | inl (absent, _) ↦ absurd cc (absent, found)
        | inr (p, before, origin) ↦
            let same : r ≡ p = same_record (sym found ∙ before) in
            let still = subst NeverStarts same never in
            (
              q,
              there,
              record {
                idle = none-when q.snapshot.started (λ receipt h. elim (origin.receipts receipt h) [
                  | inl had ↦ cc (still.idle, had)
                  | inr (answer, _, granted) ↦ cc (ap is_over granted.waited, still.over)
                ]);
                over = origin.still_over still.over;
              },
            )
      ]

  run_events-NeverStarts :
      (events : List Event) (s : System) (id : String) (r : ActionRecord)
      → Reachable host s
      → lookup id s.records ≡ some r
      → NeverStarts r
      → (q : ActionRecord) × (lookup id (run_events host events s).records ≡ some q) × NeverStarts q
  unfolding run_events
  run_events-NeverStarts [] s id r reached found never = (r, found, never)
  run_events-NeverStarts (event ∷ events) s id r reached found never =
      let (q, there, still) = on_event-NeverStarts event s id r reached found never in
      run_events-NeverStarts events (on_event host event s) id q (Reachable.later event reached)
        there still

  Unfit-refused :
      (s : System) (r : ActionRecord) (d : ActionDecision)
      → Unfit s r d
      → accept_decision host (record { action = r; shared = s.shared }) d ≡ ok tt
      → ⊥
  unfolding accept_decision
  Unfit-refused s r d unfit h =
      let (_, valid, fresh) =
        >>=-eq-ok
          (validate_action_decision host d (some r.snapshot.proposal) host.evidence_size_limit) _
          h in
      elim unfit [
        | inl other ↦
            other (
              validate_action_decision_inv host d r.snapshot.proposal host.evidence_size_limit
                valid)
        | inr used ↦ cc (guard-not-eq-ok _ ErrorCode.duplicate_decision fresh, used)
      ]

  decided-is_over :
      (a : ActionApproval) (d : ActionDecision) (c : Check) (clock : Clock) (w : World)
      → (c ≡ ok tt → ⊥)
      → is_over (decided host a d c clock w).action.execution ≡ true
  unfolding decided fail_closed_decision is_over
  decided-is_over a d (err code) clock w refused =
      let l = local_decision host w.action.snapshot.proposal (code_text code) (clock 1) in
      checked-holds (λ v. is_over v.action.execution ≡ true) (accept_decision host w l) w
        (waiting Execution.refusing (keep_decision l w)) (λ failure. refl) (λ h. refl)
  decided-is_over a d (ok done) clock w refused = absurd (refused refl)

  refused_record :
      (s : System) (r : ActionRecord) (a : ActionApproval) (d : ActionDecision) (answer : Reply)
      → r.execution ≡ Execution.deciding a
      → answer.decision ≡ some d
      → r.snapshot.started ≡ none
      → Unfit s r d
      → NeverStarts (resume host answer (record { action = r; shared = s.shared })).action
  unfolding resume resume_at resume_deciding held_approval
  refused_record s r a d answer waits decides idle unfit =
      let w : World = record { action = r; shared = s.shared } in
      let calm =
        resume_deciding-Quiet host w a (inr (ap held_approval waits)) (some d) answer.clock in
      let refused : NeverStarts (resume_deciding host a (some d) answer.clock w).action = record {
        idle = calm.same_started ∙ idle;
        over =
            decided-is_over a d (accept_decision host w d) answer.clock w
              (Unfit-refused s r d unfit);
      } in
      subst (λ e. NeverStarts (resume_at host e answer w).action) (sym waits)
        (subst (λ o. NeverStarts (resume_deciding host a o answer.clock w).action) (sym decides)
          refused)

  replied_record :
      (s : System) (id : String) (answer : Reply) (o : Option ActionRecord) (r : ActionRecord)
      → o ≡ some r
      → NeverStarts (resume host answer (record { action = r; shared = s.shared })).action
      → (q : ActionRecord) × (lookup id
            (called id o (λ w. returns (resume host answer w)) s).1.records
          ≡ some q)
        × NeverStarts q
  unfolding called
  replied_record s id answer none r found never = absurd cc found
  replied_record s id answer (some q) r found never =
      let w : World = record { action = q; shared = s.shared } in
      let same : r ≡ q = same_record (sym found) in
      (
        (resume host answer w).action,
        lookup-insert_same id id (resume host answer w).action s.records (eq_refl id),
        subst
            (λ x.
              NeverStarts (resume host answer (record { action = x; shared = s.shared })).action)
            same never,
      )

  -- When the decision provider of an action of a reachable runtime answers with a decision on
  -- another action, or with the identifier of an earlier decision, the action never gets a receipt,
  -- whatever happens afterwards, and its execution is over or awaits only the hook for the decision
  -- that refuses it.
  pub wrong_decision-NeverStarts :
      (s : System) (id : String) (r : ActionRecord) (a : ActionApproval) (d : ActionDecision)
      (answer : Reply) (events : List Event)
      → Reachable host s
      → lookup id s.records ≡ some r
      → r.execution ≡ Execution.deciding a
      → answer.decision ≡ some d
      → Unfit s r d
      → (q : ActionRecord) × (lookup id
            (run_events host events (on_event host (Event.reply id answer) s)).records
          ≡ some q)
        × NeverStarts q
  unfolding on_event attempt on_record
  wrong_decision-NeverStarts s id r a d answer events reached found waits decides unfit =
      let sound = Reachable-AllSound host reached id r found in
      let (_, (idle, _)) =
        subst (Phase host r.snapshot r.expected_generation r.aborted) waits sound.phase in
      let (p, there, never) =
        replied_record s id answer (lookup id s.records) r found
          (refused_record s r a d answer waits decides idle unfit) in
      run_events-NeverStarts events (on_event host (Event.reply id answer) s) id p
        (Reachable.later (Event.reply id answer) reached) there never
