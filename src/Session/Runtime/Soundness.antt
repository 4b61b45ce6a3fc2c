-- ===== src/Session/Runtime/Soundness.antt =====
-- The writes of the runtime and sound stores (packages/session-runtime/src/runtime.ts).
use qodex.Common.{
  leb, ◌≡◌, refl, sym, subst, String, Bool, true, false, inl, some, [], ◌∷◌, ◌++◌, ok, arith, ◌==◌,
  eq_refl, >>=-eq-ok, ok-injective,
}
use qodex.Common.Maps.{lookup, insert}
use qodex.Session.Entries.{Entry}
use qodex.Session.Projector.Fold.{
  ProjectedSessionState, project, projected, run, step, follows, dispatch,
}
use qodex.Session.Projector.State.{initial, is_terminal}
use qodex.Session.Validation.{
  SessionRecord, session_schema_version, validate_session, validate_entry,
}
use qodex.Session.Store.{
  Store, Mutation, list_entries, empty, get_session, parent_known, has_id, mutate,
}
use qodex.Session.Store
use qodex.Session.Store.Ledger.{
  IsWellFormed, IsWellFormed-empty, create_session_inv, create_session-IsWellFormed,
  append_entry_inv, append_entry-IsWellFormed,
}
use qodex.Session.Path.{build_active_path, climb, by_id, parent_of}
use qodex.Session.Runtime.{
  project_current_state, load_active_path, require_session, Host, NewSessionInput, new_session,
  first_entry, create_session, AppendEntryInput, mutation_of, append_entry,
}
use qodex.Session.Runtime.Status.{Agrees}
use qodex.Session.Runtime.Appending.{validate_entry-id, Appended, append_entry-Appended}
use qodex.Session.Runtime.Sound.{
  IsProjected, IsSound, appended-IsProjected, list_entries-of_lookup, IsSound-write,
}

module _ (host : Host) where
  -- A successful append to a sound store leaves it sound: its ledgers are well formed, each active
  -- path exists and projects, and each record has the projection's completion time, and its status,
  -- or RecoveryRequired where the projection says Interrupted.
  pub append_entry-IsSound :
      (sid : String) (input : AppendEntryInput) (random_id now : String) (st st' : Store)
      (e : Entry)
      → IsSound host.parses_date st
      → append_entry host sid input random_id now st ≡ ok (st', e)
      → IsSound host.parses_date st'
  append_entry-IsSound sid input random_id now st st' e w h =
      let a₀ = append_entry-Appended host sid input random_id now st st' e h in
      let a = subst (λ i. Appended host i st st' e) (sym a₀.owner) a₀ in
      let m = mutation_of host e a.projected in
      let (session, es, found, held, fresh, _, known, after) =
        append_entry_inv host.checks e m st st' a.stored in
      let same : a.session ≡ session = ground (arith, a.found) in
      let key = w.keyed e.session_id session found in
      let new =
        appended-IsProjected host e.session_id st st' e a es
          (list_entries-of_lookup e.session_id st es held) fresh known in
      let moved : st' ≡ record st {
        sessions = insert e.session_id (mutate session m) st.sessions;
        entries = insert e.session_id (es ++ e ∷ []) st.entries;
      } =
        subst
          (λ i. st' ≡ record st {
            sessions = insert i (mutate session m) st.sessions;
            entries = insert e.session_id (es ++ e ∷ []) st.entries;
          })
          key after in
      let formed = append_entry-IsWellFormed host.checks e m st st' w.well_formed a.stored in
      subst (IsSound host.parses_date) (sym moved) (
        IsSound-write host.parses_date e.session_id (mutate session m) (es ++ e ∷ []) st w key
          (subst (λ (r : SessionRecord). IsProjected host.parses_date (es ++ e ∷ []) (mutate r m))
            same new)
          (subst IsWellFormed moved formed))

  fresh-IsProjected :
      (input : NewSessionInput) (random_id entry_id now : String)
      → (entry_id == "") ≡ false
      → IsProjected host.parses_date
          (first_entry host (new_session host input random_id entry_id now) entry_id ∷ [])
          (new_session host input random_id entry_id now)
  unfolding new_session first_entry build_active_path climb by_id parent_of project projected run
      step follows dispatch is_terminal
  fresh-IsProjected input random_id entry_id now text =
      let first = first_entry host (new_session host input random_id entry_id now) entry_id in
      record {
        path = first ∷ [];
        projected = projected (record initial { seen = entry_id ∷ [] }) first first;
        walked = ground (arith, eq_refl entry_id);
        projects = refl;
        agrees = inl refl;
        completed = refl;
      }

  -- A successful creation of a session in a sound store leaves the store sound.
  pub create_session-IsSound :
      (input : NewSessionInput) (random_id entry_id now : String) (st st' : Store)
      (session : SessionRecord)
      → IsSound host.parses_date st
      → create_session host input random_id entry_id now st ≡ ok (st', session)
      → IsSound host.parses_date st'
  unfolding create_session
  create_session-IsSound input random_id entry_id now st st' session w h =
      let x = new_session host input random_id entry_id now in
      let first = first_entry host x entry_id in
      let (_, _, h₁) = >>=-eq-ok (validate_session host.checks x) _ h in
      let (_, valid, h₂) = >>=-eq-ok (validate_entry host.checks first) _ h₁ in
      let (next, made, h₃) = >>=-eq-ok (Store.create_session host.checks x first st) _ h₂ in
      let (_, _, _, _, after) = create_session_inv host.checks x first st next made in
      let formed = create_session-IsWellFormed host.checks x first st next w.well_formed made in
      let new =
        fresh-IsProjected input random_id entry_id now
          (unfold first_entry in validate_entry-id host.checks first valid) in
      subst (λ (r : Store × SessionRecord). IsSound host.parses_date r.0) (ok-injective h₃)
        (subst (IsSound host.parses_date) (sym after) (
          IsSound-write host.parses_date x.id x (first ∷ []) st w refl new
            (subst IsWellFormed after formed)))

IsSound-empty : (pd : String → Bool) → IsSound pd empty
unfolding lookup
IsSound-empty pd = record {
  well_formed = IsWellFormed-empty;
  keyed = λ sid s found. absurd (ground arith);
  live = λ sid s found. absurd (ground arith);
}

-- The stores that the runtime's two writes make of the empty one.
pub data Reached (host : Host) : Store → Type 0 where
  begun : Reached host empty
  created :
      (input : NewSessionInput) (random_id entry_id now : String) (st st' : Store)
      (session : SessionRecord)
      → Reached host st
      → create_session host input random_id entry_id now st ≡ ok (st', session)
      → Reached host st'
  appended :
      (sid : String) (input : AppendEntryInput) (random_id now : String) (st st' : Store)
      (e : Entry)
      → Reached host st
      → append_entry host sid input random_id now st ≡ ok (st', e)
      → Reached host st'

pub Reached-IsSound : (host : Host) (st : Store) → Reached host st → IsSound host.parses_date st
Reached-IsSound host _ begun = IsSound-empty host.parses_date
Reached-IsSound host _ (created input random_id entry_id now s st session r h) =
    create_session-IsSound host input random_id entry_id now s st session (Reached-IsSound host s r)
      h
Reached-IsSound host _ (appended sid input random_id now s st e r h) =
    append_entry-IsSound host sid input random_id now s st e (Reached-IsSound host s r) h

-- In a store that createSession and appendEntry make from the empty one, `projectCurrentState`
-- succeeds for each session whose schema version is not newer than the runtime's; the record has
-- the projection's completion time, and its status, or RecoveryRequired where the projection says
-- Interrupted.
pub project_current_state-Reached :
    (host : Host) (sid : String) (st : Store) (session : SessionRecord)
    → Reached host st
    → lookup sid st.sessions ≡ some session
    → leb session.schema_version session_schema_version ≡ true
    → (z : ProjectedSessionState) × (project_current_state host sid st ≡ ok z)
      × Agrees session.status z.status
      × (session.completed_at ≡ z.completed_at)
unfolding project_current_state load_active_path require_session get_session
project_current_state-Reached host sid st session r found version =
    let p = (Reached-IsSound host st r).live sid session found in
    (p.projected, ground (arith, found, version, p.walked, p.projects), p.agrees, p.completed)
