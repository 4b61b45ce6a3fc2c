-- ===== src/Session/Store.antt =====
-- `InMemorySessionStore` of packages/session-runtime/src/in-memory-store.ts. `structuredClone` of
-- a value is the value, since no object is shared with a caller. `listSessions`, which sorts by
-- the host's collation, is not modelled.
pub mod Ledger
use qodex.Common.{
  ℕ, suc, String, Bool, true, false, ◌&&◌, not, any, Option, none, some, List, [], ◌∷◌, ◌++◌, ◌==◌,
  eqb, last?, Result, ok, err, guard, require, ◌>>=◌, ◌>>◌,
}
use qodex.Common.Maps.{Table, lookup, insert, remove}
use qodex.Session.Entries.{SessionStatus, Entry}
use qodex.Session.Projector.State.{is_missing}
use qodex.Session.Validation.{Checks, SessionRecord, SessionError, validate_session, validate_entry}

pub record Mutation : Type 0 where
  pub active_leaf_id : String
  pub status : SessionStatus
  pub updated_at : String
  pub completed_at : Option String

pub record PrivateBinding : Type 0 where
  pub binding_id : String
  pub display_name : String
  pub private_root_path : String
  pub project_fingerprint : String
  pub last_opened_at : String

pub record ProjectBinding : Type 0 where
  pub binding_id : String
  pub display_name : String
  pub project_fingerprint : String
  pub last_opened_at : String

pub record Store : Type 0 where
  pub sessions : Table SessionRecord
  pub entries : Table (List Entry)
  pub bindings : Table PrivateBinding

abbrev pub empty : Store
empty = record { sessions = []; entries = []; bindings = [] }

-- `(entries.at(-1)?.sequence ?? 0) + 1`
unfoldable pub next_sequence : List Entry → ℕ
next_sequence entries = elim (last? entries) [ none ↦ 1 | some e ↦ suc e.sequence ]

abbrev pub has_id : String → List Entry → Bool
has_id id = any (λ e. e.id == id)

-- `parent === null || entries.some((candidate) => candidate.id === parent)`
abbrev pub parent_known : Option String → List Entry → Bool
parent_known none entries = true
parent_known (some p) entries = has_id p entries

-- `{ ...session, ...mutation }`
abbrev pub mutate : SessionRecord → Mutation → SessionRecord
mutate session m = record session {
  active_leaf_id = m.active_leaf_id;
  status = m.status;
  updated_at = m.updated_at;
  completed_at = m.completed_at;
}

module _ (c : Checks) where
  unfoldable pub create_session : SessionRecord → Entry → Store → Result SessionError Store
  create_session session first st = do
    validate_session c session
    validate_entry c first
    guard (is_missing (lookup session.id st.sessions)) SessionError.session_exists
    guard
        (first.session_id == session.id && eqb first.sequence 1 && is_missing first.parent_entry_id)
        SessionError.invalid_first_entry
    ok (record st {
      sessions = insert session.id session st.sessions;
      entries = insert session.id (first ∷ []) st.entries;
    })

  unfoldable pub append_entry : Entry → Mutation → Store → Result SessionError Store
  append_entry e m st = do
    validate_entry c e
    session ← require (lookup e.session_id st.sessions) SessionError.session_not_found
    entries ← require (lookup e.session_id st.entries) SessionError.session_not_found
    guard (not (has_id e.id entries)) SessionError.entry_exists
    guard (eqb e.sequence (next_sequence entries)) SessionError.not_append_only
    guard (parent_known e.parent_entry_id entries) SessionError.parent_not_found
    ok (record st {
      entries = insert e.session_id (entries ++ e ∷ []) st.entries;
      sessions = insert session.id (mutate session m) st.sessions;
    })

unfoldable pub get_session : String → Store → Option SessionRecord
get_session id st = lookup id st.sessions

unfoldable pub list_entries : String → Store → List Entry
list_entries id st = elim (lookup id st.entries) [ none ↦ [] | some es ↦ es ]

unfoldable pub delete_session : String → Store → Store × Bool
delete_session id st = (
  record st { entries = remove id st.entries; sessions = remove id st.sessions },
  not (is_missing (lookup id st.sessions)),
)

unfoldable public_binding : PrivateBinding → ProjectBinding
public_binding b = record {
  binding_id = b.binding_id;
  display_name = b.display_name;
  project_fingerprint = b.project_fingerprint;
  last_opened_at = b.last_opened_at;
}

unfoldable pub upsert_project_binding : PrivateBinding → Store → Store × ProjectBinding
unfolding public_binding
upsert_project_binding b st =
    (record st { bindings = insert b.binding_id b st.bindings }, public_binding b)

unfoldable pub get_project_binding : String → Store → Option ProjectBinding
unfolding public_binding
get_project_binding id st = elim (lookup id st.bindings) [
  | none ↦ none
  | some b ↦ some (public_binding b)
]

unfoldable verify_project_binding : String → String → String → Store → Bool
verify_project_binding id root fingerprint st = elim (lookup id st.bindings) [
  | none ↦ false
  | some b ↦ b.project_fingerprint == fingerprint && b.private_root_path == root
]
