-- ===== src/Session/Sessions/Recovering.antt =====
-- Recovery of all sessions (packages/session-runtime/src/runtime.ts).
use qodex.Common.{
  ◌≡◌, refl, sym, ◌∙◌, ap, inl, inr, String, false, List, [], ◌∷◌, ok, >>=-eq-ok, ok-injective,
  subst, eq_iff, All, has, map, Distinct, ◌==◌, arith,
}
use qodex.Common.Maps.{lookup, lookup-insert_other}
use qodex.Session.Entries.{Entry}
use qodex.Session.Projector.Fold.{ProjectedSessionState}
use qodex.Session.Validation.{SessionRecord}
use qodex.Session.Store.{Store, get_session, mutate}
use qodex.Session.Store.Ledger.{append_entry_inv}
use qodex.Session.Runtime.{
  Host, AppendEntryInput, append_entry, project_current_state, load_active_path, require_session,
  mutation_of,
}
use qodex.Session.Runtime.Appending.{append_entry-Appended}
use qodex.Session.Runtime.Sound.{IsSound, list_entries-eq}
use qodex.Session.Recovery.{recover_session}
use qodex.Session.Recovery.Recovered.{Changed, recover_session-Recovered}
use qodex.Session.Sessions.{recover_incomplete_sessions}

-- Both stores have the same record and the same ledger of a session.
abbrev pub SameSession : String → Store → Store → Type 0
SameSession id st st' =
    (lookup id st'.sessions ≡ lookup id st.sessions)
    × (lookup id st'.entries ≡ lookup id st.entries)

abbrev pub session_ids : List SessionRecord → List String
session_ids sessions = map (λ (s : SessionRecord). s.id) sessions

SameSession-trans :
    (id : String) (st u st' : Store)
    → SameSession id st u
    → SameSession id u st'
    → SameSession id st st'
SameSession-trans id st u st' (record_kept, ledger_kept) (record_still, ledger_still) =
    (record_still ∙ record_kept, ledger_still ∙ ledger_kept)

module _ (host : Host) where
  append_entry-SameSession :
      (sid id : String) (input : AppendEntryInput) (random_id now : String) (st st' : Store)
      (e : Entry)
      → IsSound host.parses_date st
      → append_entry host sid input random_id now st ≡ ok (st', e)
      → sid == id ≡ false
      → SameSession id st st'
  append_entry-SameSession sid id input random_id now st st' e sound made apart =
      let a = append_entry-Appended host sid input random_id now st st' e made in
      let (session, es, found, _, _, _, _, after) =
        append_entry_inv host.checks e (mutation_of host e a.projected) st st' a.stored in
      let key : session.id ≡ sid = sound.keyed e.session_id session found ∙ a.owner in
      let other : e.session_id == id ≡ false = ap (λ x. x == id) a.owner ∙ apart in
      let other_record : session.id == id ≡ false = ap (λ x. x == id) key ∙ apart in
      (
        ap (λ (u : Store). lookup id u.sessions) after
            ∙ lookup-insert_other session.id id (mutate session (mutation_of host e a.projected))
                st.sessions other_record,
        ap (λ (u : Store). lookup id u.entries) after
            ∙ lookup-insert_other e.session_id id _ st.entries other,
      )

  Changed-SameSession :
      (sid id random_id now : String) (st st' : Store) (z : ProjectedSessionState)
      → IsSound host.parses_date st
      → Changed host sid random_id now st st' z
      → sid == id ≡ false
      → SameSession id st st'
  Changed-SameSession sid id random_id now st st' z sound (inl same) apart =
      (ap (λ (u : Store). lookup id u.sessions) same, ap (λ (u : Store). lookup id u.entries) same)
  Changed-SameSession sid id random_id now st st' z sound (inr (input, e, made)) apart =
      append_entry-SameSession sid id input random_id now st st' e sound made apart

  project_current_state-SameSession :
      (id : String) (st st' : Store)
      → SameSession id st st'
      → project_current_state host id st' ≡ project_current_state host id st
  unfolding project_current_state load_active_path require_session get_session
  project_current_state-SameSession id st st' (same, ledger) =
      simp (same, list_entries-eq id st' st (sym ledger)) refl

  -- A session was recovered as it was in the first store, and the last store has it as its recovery
  -- left it and answered.
  pub record IsRecovered (random_id now : String → String) (st st' : Store) (s : SessionRecord)
      : Type 0 where
    pub before : Store
    pub after : Store
    pub answer : ProjectedSessionState
    pub untouched : SameSession s.id st before
    pub recovered :
        recover_session host s.id (random_id s.id) (now s.id) before ≡ ok (after, answer)
    pub kept : SameSession s.id after st'
    pub projects : project_current_state host s.id st' ≡ ok answer

  IsRecovered-later :
      (random_id now : String → String) (key : String) (st u st' : Store)
      (rest : List SessionRecord)
      → has key (session_ids rest) ≡ false
      → ((id : String) → key == id ≡ false → SameSession id st u)
      → All (IsRecovered random_id now u st') rest
      → All (IsRecovered random_id now st st') rest
  IsRecovered-later random_id now key st u st' [] apart local held = tt
  IsRecovered-later random_id now key st u st' (s ∷ rest) apart local (first, others) =
      let other : key == s.id ≡ false = ground (arith, eq_iff key s.id, eq_iff s.id key) in
      (
        record {
          before = first.before;
          after = first.after;
          answer = first.answer;
          untouched = SameSession-trans s.id st u first.before (local s.id other) first.untouched;
          recovered = first.recovered;
          kept = first.kept;
          projects = first.projects;
        },
        IsRecovered-later random_id now key st u st' rest (ground arith) local others,
      )

  -- When recoverIncompleteSessions succeeds on a sound store and sessions of distinct identifiers,
  -- it leaves a sound store; each of these sessions was recovered as it was at first, and the store
  -- has it as its recovery left it and projects it to what the recovery answered; the records and
  -- the ledgers of all other sessions are as before.
  pub recover_incomplete_sessions-All :
      (random_id now : String → String) (sessions : List SessionRecord) (st st' : Store)
      → IsSound host.parses_date st
      → Distinct (session_ids sessions)
      → recover_incomplete_sessions host random_id now sessions st ≡ ok st'
      → IsSound host.parses_date st'
        × All (IsRecovered random_id now st st') sessions
        × ((id : String) → has id (session_ids sessions) ≡ false → SameSession id st st')
  unfolding recover_incomplete_sessions
  recover_incomplete_sessions-All random_id now [] st st' w distinct h =
      let same = ok-injective h in
      (
        subst (IsSound host.parses_date) same w,
        tt,
        λ id other. (
          ap (λ (u : Store). lookup id u.sessions) (sym same),
          ap (λ (u : Store). lookup id u.entries) (sym same),
        ),
      )
  recover_incomplete_sessions-All random_id now (s ∷ rest) st st' w (apart, distinct) h =
      let ((u, z), made, h₁) =
        >>=-eq-ok (recover_session host s.id (random_id s.id) (now s.id) st) _ h in
      let (sound, changed, answer) =
        recover_session-Recovered host s.id (random_id s.id) (now s.id) st u z w made in
      let local : (id : String) → s.id == id ≡ false → SameSession id st u = λ id other.
        Changed-SameSession s.id id (random_id s.id) (now s.id) st u z w changed other in
      let (last, recovered, others) =
        recover_incomplete_sessions-All random_id now rest u st' sound distinct h₁ in
      (
        last,
        (
          record {
            before = st;
            after = u;
            answer = z;
            untouched = (refl, refl);
            recovered = made;
            kept = others s.id apart;
            projects = project_current_state-SameSession s.id u st' (others s.id apart) ∙ answer;
          },
          IsRecovered-later random_id now s.id st u st' rest apart local recovered,
        ),
        λ id other.
            SameSession-trans id st u st' (local id (ground arith)) (others id (ground arith)),
      )
