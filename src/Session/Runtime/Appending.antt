-- ===== src/Session/Runtime/Appending.antt =====
-- What a successful append of the runtime has found and stored (packages/session-runtime/src/runtime.ts).
use qodex.Common.{
  ◌≡◌, refl, sym, ap, subst, String, true, false, not, ◌||◌, inl, inr, Option, none, some, List, [],
  ◌∷◌, ◌++◌, ok, arith, ◌==◌, eq_iff, >>=-eq-ok, guard, require, guard-eq-ok, require-eq-ok,
  ok-injective, Bool-cases, Result,
}
use qodex.Common.Maps.{lookup}
use qodex.Common.Text.{is_blank}
use qodex.Session.Entries.{Entry}
use qodex.Session.Projector.State.{is_text}
use qodex.Session.Projector.Fold.{ProjectedSessionState, project}
use qodex.Session.Projector.Approving.{is_text-eq-some}
use qodex.Session.Validation.{Checks, SessionRecord, SessionError, validate_entry}
use qodex.Session.Store
use qodex.Session.Store.{Store, Mutation, list_entries, get_session, has_id, parent_known, mutate}
use qodex.Session.Path.{build_active_path}
use qodex.Session.Runtime.{
  Host, AppendEntryInput, require_session, new_entry, candidate_path, mutation_of, lift_ledger,
  listed, append_entry,
}

lift_ledger-eq-ok {ℓ} : {A : Type ℓ} (r : Result _ A) {a : A} → lift_ledger r ≡ ok a → r ≡ ok a
lift_ledger-eq-ok (ok a) h = ap ok (ok-injective h)
lift_ledger-eq-ok (Result.err e) h = cc

-- a valid identifier is not the empty text
pub validate_entry-id :
    (c : Checks) (e : Entry) {u : Unit {0}} → validate_entry c e ≡ ok u → (e.id == "") ≡ false
unfolding validate_entry is_blank
validate_entry-id c e h =
    let (_, h₀, _) =
      >>=-eq-ok
        (guard (not (is_blank e.id || is_blank e.session_id)) SessionError.missing_entry_identity) _
        h in
    elim (Bool-cases (e.id == "")) [
      | inl blank ↦
          let same : is_blank e.id ≡ true = ap is_blank ((eq_iff e.id "").0 blank) in ground arith
      | inr text ↦ text
    ]

-- a path exists only below a leaf that is not the empty text
pub build_active_path-leaf :
    (es : List Entry) (leaf : String) {path : List Entry}
    → build_active_path es (some leaf) ≡ ok path
    → (leaf == "") ≡ false
unfolding build_active_path
build_active_path-leaf es leaf h = ground arith

parent-some :
    (o : Option String) (leaf : String) (all : List Entry)
    → (is_text o leaf || listed o all) ≡ true
    → (p : String) × (o ≡ some p)
parent-some none leaf all h = cc
parent-some (some p) leaf all h = (p, refl)

pub require_session-eq-ok :
    (sid : String) (st : Store) {session : SessionRecord}
    → require_session sid st ≡ ok session
    → lookup sid st.sessions ≡ some session
unfolding require_session get_session
require_session-eq-ok sid st h =
    let (session, h₀, h₁) =
      >>=-eq-ok (require (lookup sid st.sessions) SessionError.session_not_found) _ h in
    ground (arith, require-eq-ok _ SessionError.session_not_found h₀)

module _ (host : Host) where
  -- Either way to find the path of the parent is a walk from the entry's parent.
  candidate_path-eq-ok :
      (session : SessionRecord) (all active path : List Entry) (e : Entry)
      → build_active_path all (some session.active_leaf_id) ≡ ok active
      → candidate_path host session all active e ≡ ok path
      → (below : List Entry) × (build_active_path all e.parent_entry_id ≡ ok below)
        × (path ≡ below ++ e ∷ [])
  unfolding candidate_path
  candidate_path-eq-ok session all active path e walked h =
      elim (Bool-cases (is_text e.parent_entry_id session.active_leaf_id)) [
        | inl same ↦ (
          active,
          subst (λ o. build_active_path all o ≡ ok active) (sym (is_text-eq-some _ _ same)) walked,
          sym (ok-injective (rw same at h)),
        )
        | inr apart ↦
            let (below, h₀, h₁) =
              >>=-eq-ok (build_active_path all e.parent_entry_id) _ (rw apart at h) in
            (below, h₀, sym (ok-injective h₁))
      ]

  -- What a successful append has found and stored.
  pub record Appended (sid : String) (st st' : Store) (e : Entry) : Type 0 where
    pub session : SessionRecord
    pub below : List Entry
    pub projected : ProjectedSessionState
    pub parent : String
    pub found : lookup sid st.sessions ≡ some session
    pub owner : e.session_id ≡ sid
    pub parented : e.parent_entry_id ≡ some parent
    pub id_text : (e.id == "") ≡ false
    pub walked : build_active_path (list_entries sid st) (some parent) ≡ ok below
    pub projects : project host.parses_date (below ++ e ∷ []) ≡ ok projected
    pub stored : Store.append_entry host.checks e (mutation_of host e projected) st ≡ ok st'

  new_entry-session_id :
      (sid : String) (session : SessionRecord) (all : List Entry) (input : AppendEntryInput)
      (random_id now : String)
      → (new_entry host sid session all input random_id now).session_id ≡ sid
  unfolding new_entry
  new_entry-session_id sid session all input random_id now = refl

  pub append_entry-Appended :
      (sid : String) (input : AppendEntryInput) (random_id now : String) (st st' : Store)
      (e : Entry)
      → append_entry host sid input random_id now st ≡ ok (st', e)
      → Appended sid st st' e
  unfolding append_entry
  append_entry-Appended sid input random_id now st st' e h =
      let (session, h₀, h₁) = >>=-eq-ok (require_session sid st) _ h in
      let all = list_entries sid st in
      let (active, h₂, h₃) = >>=-eq-ok (build_active_path all (some session.active_leaf_id)) _ h₁ in
      let x = new_entry host sid session all input random_id now in
      let (_, h₄, h₅) = >>=-eq-ok (validate_entry host.checks x) _ h₃ in
      let (_, h₆, h₇) =
        >>=-eq-ok
          (guard (is_text x.parent_entry_id session.active_leaf_id || listed x.parent_entry_id all)
            SessionError.selected_parent_missing)
          _ h₅ in
      let (path, h₈, h₉) = >>=-eq-ok (candidate_path host session all active x) _ h₇ in
      let (z, g₀, g₁) = >>=-eq-ok (lift_ledger (project host.parses_date path)) _ h₉ in
      let (after, g₂, g₃) =
        >>=-eq-ok (Store.append_entry host.checks x (mutation_of host x z) st) _ g₁ in
      let (below, walked, shape) = candidate_path-eq-ok session all active path x h₂ h₈ in
      let (p, parented) =
        parent-some x.parent_entry_id session.active_leaf_id all
          (guard-eq-ok _ SessionError.selected_parent_missing h₆) in
      let facts : Appended sid st after x = record {
        session = session;
        below = below;
        projected = z;
        parent = p;
        found = require_session-eq-ok sid st h₀;
        owner = new_entry-session_id sid session all input random_id now;
        parented = parented;
        id_text = validate_entry-id host.checks x h₄;
        walked = subst (λ o. build_active_path all o ≡ ok below) parented walked;
        projects = subst (λ l. project host.parses_date l ≡ ok z) shape (lift_ledger-eq-ok _ g₀);
        stored = g₂;
      } in
      subst (λ (r : Store × Entry). Appended sid st r.0 r.1) (ok-injective g₃) facts
