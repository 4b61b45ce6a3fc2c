-- ===== src/Session/Runtime/Sound.antt =====
-- What a sound store is, and a write of one session into it (packages/session-runtime/src/runtime.ts).
use qodex.Common.{
  ◌≡◌, refl, sym, ◌∙◌, ap, subst, String, Bool, true, false, inl, inr, none, some, List, [], ◌∷◌,
  ◌++◌, ok, arith, ◌==◌, eq_iff, Bool-cases,
}
use qodex.Common.Maps.{lookup, insert, lookup-insert_same, lookup-insert_other}
use qodex.Session.Entries.{Entry}
use qodex.Session.Projector.Fold.{ProjectedSessionState, project}
use qodex.Session.Validation.{SessionRecord}
use qodex.Session.Store.{Store, list_entries, parent_known, has_id, mutate}
use qodex.Session.Store.Ledger.{IsWellFormed}
use qodex.Session.Path.{build_active_path}
use qodex.Session.Path.Append.{build_active_path-append}
use qodex.Session.Runtime.{Host, mutation_of}
use qodex.Session.Runtime.Status.{Agrees, project-Agrees}
use qodex.Session.Runtime.Appending.{build_active_path-leaf, Appended}

-- The session's active path exists and projects, and the record says what the projection says.
pub record IsProjected (pd : String → Bool) (all : List Entry) (session : SessionRecord)
    : Type 0 where
  pub path : List Entry
  pub projected : ProjectedSessionState
  pub walked : build_active_path all (some session.active_leaf_id) ≡ ok path
  pub projects : project pd path ≡ ok projected
  pub agrees : Agrees session.status projected.status
  pub completed : session.completed_at ≡ projected.completed_at

pub record IsSound (pd : String → Bool) (st : Store) : Type 0 where
  pub well_formed : IsWellFormed st
  pub keyed : (sid : String) (s : SessionRecord) → lookup sid st.sessions ≡ some s → s.id ≡ sid
  pub live :
      (sid : String) (s : SessionRecord)
      → lookup sid st.sessions ≡ some s
      → IsProjected pd (list_entries sid st) s

module _ (host : Host) (sid : String) (st st' : Store) (e : Entry)
    (a : Appended host sid st st' e) where
  pub appended-IsProjected :
      (all : List Entry)
      → list_entries sid st ≡ all
      → has_id e.id all ≡ false
      → parent_known e.parent_entry_id all ≡ true
      → IsProjected host.parses_date
          (all ++ e ∷ [])
          (mutate a.session (mutation_of host e a.projected))
  unfolding mutation_of
  appended-IsProjected all held fresh known = record {
    path = a.below ++ e ∷ [];
    projected = a.projected;
    walked =
        build_active_path-append all e fresh a.parent a.below a.parented
          (subst (λ o. parent_known o all ≡ true) a.parented known)
          (build_active_path-leaf (list_entries sid st) a.parent a.walked) a.id_text
          (subst (λ l. build_active_path l (some a.parent) ≡ ok a.below) held a.walked);
    projects = a.projects;
    agrees = project-Agrees host.parses_date a.below e a.projected a.projects;
    completed = refl;
  }

pub list_entries-of_lookup :
    (sid : String) (st : Store) (es : List Entry)
    → lookup sid st.entries ≡ some es
    → list_entries sid st ≡ es
unfolding list_entries
list_entries-of_lookup sid st es h = ground arith

pub list_entries-eq :
    (sid : String) (st st' : Store)
    → lookup sid st'.entries ≡ lookup sid st.entries
    → list_entries sid st ≡ list_entries sid st'
unfolding list_entries
list_entries-eq sid st st' h = ap (λ o. elim o [ none ↦ [] | some es ↦ es ]) (sym h)

-- A store where the session `id` has the record `session` and the entries `es`, the others as before.
pub IsSound-write :
    (pd : String → Bool) (id : String) (session : SessionRecord) (es : List Entry) (st : Store)
    → IsSound pd st
    → session.id ≡ id
    → IsProjected pd es session
    → IsWellFormed
        (record st { sessions = insert id session st.sessions; entries = insert id es st.entries })
    → IsSound pd
        (record st { sessions = insert id session st.sessions; entries = insert id es st.entries })
IsSound-write pd id session es st w key new formed =
    let st' = record st {
      sessions = insert id session st.sessions;
      entries = insert id es st.entries;
    } in
    let both : (j : String) (s : SessionRecord)
        → lookup j st'.sessions ≡ some s
        → (s.id ≡ j) × IsProjected pd (list_entries j st') s =
      λ j s found. elim (Bool-cases (id == j)) [
        | inl same ↦
            let this : session ≡ s =
              ground (arith, lookup-insert_same id j session st.sessions same) in
            let held : list_entries j st' ≡ es =
              list_entries-of_lookup j st' es (lookup-insert_same id j es st.entries same) in
            let facts : (session.id ≡ j) × IsProjected pd (list_entries j st') session =
              (key ∙ (eq_iff id j).0 same, subst (λ l. IsProjected pd l session) (sym held) new) in
            subst (λ (r : SessionRecord). (r.id ≡ j) × IsProjected pd (list_entries j st') r) this
              facts
        | inr apart ↦
            let old : lookup j st.sessions ≡ some s =
              sym (lookup-insert_other id j session st.sessions apart) ∙ found in
            let held = list_entries-eq j st st' (lookup-insert_other id j es st.entries apart) in
            (w.keyed j s old, subst (λ l. IsProjected pd l s) held (w.live j s old))
      ] in
    record {
      well_formed = formed;
      keyed = λ j s found. (both j s found).0;
      live = λ j s found. (both j s found).1;
    }
