-- ===== src/Session/Runtime.antt =====
-- `createSession`, `appendEntry` and the reads of `SessionRuntime`
-- (packages/session-runtime/src/runtime.ts), over the in-memory store. The clock and the random
-- identifiers are arguments. An `await` gives no other call a turn: calls run one after the other.
pub mod Status
pub mod Appending
pub mod Sound
pub mod Soundness
use qodex.Common.{
  ℕ, suc, String, Bool, true, false, ◌&&◌, ◌||◌, not, Option, none, some, List, [], ◌∷◌, ◌++◌, ◌==◌,
  leb, if◌then◌else◌, Result, ok, err, guard, require, ◌>>=◌, ◌>>◌,
}
use mathlib.Core.Option
use qodex.Session.Json.{Json, Fields}
use qodex.Session.Entries.{SessionStatus, EventType, Entry, LedgerError, truthy}
use qodex.Session.Sensitive.{sanitize_sensitive_text}
use qodex.Session.Sanitize.{sanitize_entry_for_persistence}
use qodex.Session.Projector.State.{is_text}
use qodex.Session.Projector.Fold.{ProjectedSessionState, project}
use qodex.Session.Validation.{
  Checks, SessionRecord, SessionError, session_schema_version, validate_session, validate_entry,
}
use qodex.Session.Store
use qodex.Session.Store.{
  PrivateBinding, ProjectBinding, Store, Mutation, get_session, list_entries, has_id, next_sequence,
}
use qodex.Session.Path.{build_active_path}

pub record Host : Type 0 where
  pub checks : Checks
  pub open checks use *
  -- `name in {}`: the names that every object inherits
  pub is_inherited : String → Bool

pub record NewSessionInput : Type 0 where
  pub id : Option String
  pub title : String
  pub project_binding_id : Option String
  pub provider_id : Option String
  pub model_id : Option String
  pub created_at : Option String

-- `undefined`, or a value that may be `null`
pub data ParentInput : Type 0 where
  unset : ParentInput
  given : Option String → ParentInput

pub record AppendEntryInput : Type 0 where
  pub id : Option String
  pub parent_entry_id : ParentInput
  pub type : EventType
  pub payload_version : Option ℕ
  pub payload : Option Json
  pub safe_metadata : Option Fields
  pub created_at : Option String

-- `value ?? fallback`
abbrev pub or_else {ℓ} : {A : Type ℓ} → Option A → A → A
or_else none d = d
or_else (some a) d = a

-- `TERMINAL_ENTRY_STATUS`
unfoldable pub terminal_entry_status : EventType → Option SessionStatus
terminal_entry_status EventType.session_completed = some SessionStatus.completed
terminal_entry_status EventType.delivery_completed = some SessionStatus.completed
terminal_entry_status EventType.session_failed = some SessionStatus.failed
terminal_entry_status EventType.session_cancelled = some SessionStatus.cancelled
terminal_entry_status EventType.session_limit_reached = some SessionStatus.limit_reached
terminal_entry_status EventType.session_interrupted = some SessionStatus.interrupted
terminal_entry_status EventType.recovery_required = some SessionStatus.recovery_required
terminal_entry_status _ = none

abbrev pub lift_ledger {ℓ} : {A : Type ℓ} → Result LedgerError A → Result SessionError A
lift_ledger (ok a) = ok a
lift_ledger (err e) = err (SessionError.ledger e)

unfoldable pub require_session : String → Store → Result SessionError SessionRecord
require_session id st = do
  session ← require (get_session id st) SessionError.session_not_found
  guard (leb session.schema_version session_schema_version) SessionError.newer_version
  ok session

-- `input.parentEntryId === undefined ? session.activeLeafId : input.parentEntryId`
abbrev parent_for : ParentInput → String → Option String
parent_for ParentInput.unset leaf = some leaf
parent_for (ParentInput.given p) leaf = p

-- `allEntries.some((candidate) => candidate.id === parent)`
abbrev pub listed : Option String → List Entry → Bool
listed none all = false
listed (some p) all = has_id p all

-- `input.payload ?? {}`
abbrev payload_of : Option Json → Json
payload_of none = Json.obj Fields.end
payload_of (some Json.null) = Json.obj Fields.end
payload_of (some payload) = payload

module _ (host : Host) where
  -- what `createSession` stores: the session and its first entry
  unfoldable pub new_session : NewSessionInput → String → String → String → SessionRecord
  new_session input random_id entry_id now =
      let created_at = or_else input.created_at now in
      record {
        id = or_else input.id random_id;
        schema_version = session_schema_version;
        title = sanitize_sensitive_text host.checks.patterns input.title;
        status = SessionStatus.active;
        active_leaf_id = entry_id;
        project_binding_id = input.project_binding_id;
        provider_id =
            Option.map (sanitize_sensitive_text host.checks.patterns) (truthy input.provider_id);
        model_id =
            Option.map (sanitize_sensitive_text host.checks.patterns) (truthy input.model_id);
        created_at = created_at;
        updated_at = created_at;
        completed_at = none;
      }

  unfoldable pub first_entry : SessionRecord → String → Entry
  first_entry session entry_id = record {
    id = entry_id;
    session_id = session.id;
    parent_entry_id = none;
    sequence = 1;
    type = EventType.session_created;
    payload_version = 1;
    payload = Json.obj (Fields.field "title" (Json.str session.title) Fields.end);
    safe_metadata = Fields.end;
    created_at = session.created_at;
  }

  unfoldable pub create_session :
      NewSessionInput
      → String
      → String
      → String
      → Store
      → Result SessionError (Store × SessionRecord)
  unfolding new_session first_entry
  create_session input random_id entry_id now st = do
    let session = new_session input random_id entry_id now
    let entry = first_entry session entry_id
    validate_session host.checks session
    validate_entry host.checks entry
    st' ← Store.create_session host.checks session entry st
    ok (st', session)

  -- the entry that `appendEntry` makes of its input
  unfoldable pub new_entry :
      String → SessionRecord → List Entry → AppendEntryInput → String → String → Entry
  new_entry session_id session all input random_id now =
      let (payload, metadata) =
        sanitize_entry_for_persistence host.checks.patterns input.type (payload_of input.payload)
          (or_else input.safe_metadata Fields.end) in
      record {
        id = or_else input.id random_id;
        session_id = session_id;
        parent_entry_id = parent_for input.parent_entry_id session.active_leaf_id;
        sequence = next_sequence all;
        type = input.type;
        payload_version = or_else input.payload_version 1;
        payload = payload;
        safe_metadata = metadata;
        created_at = or_else input.created_at now;
      }

  -- the active path as it would be with the entry
  unfoldable pub candidate_path :
      SessionRecord → List Entry → List Entry → Entry → Result SessionError (List Entry)
  candidate_path session all active e =
      if is_text e.parent_entry_id session.active_leaf_id
      then ok (active ++ e ∷ [])
      else do below ← build_active_path all e.parent_entry_id; ok (below ++ e ∷ [])

  unfoldable pub mutation_of : Entry → ProjectedSessionState → Mutation
  mutation_of e projected = record {
    active_leaf_id = e.id;
    status = or_else (terminal_entry_status e.type) projected.status;
    updated_at = e.created_at;
    completed_at = projected.completed_at;
  }

  unfoldable pub append_entry :
      String → AppendEntryInput → String → String → Store → Result SessionError (Store × Entry)
  append_entry session_id input random_id now st = do
    session ← require_session session_id st
    let all = list_entries session_id st
    active ← build_active_path all (some session.active_leaf_id)
    let e = new_entry session_id session all input random_id now
    validate_entry host.checks e
    guard (is_text e.parent_entry_id session.active_leaf_id || listed e.parent_entry_id all)
        SessionError.selected_parent_missing
    path ← candidate_path session all active e
    projected ← lift_ledger (project host.parses_date path)
    st' ← Store.append_entry host.checks e (mutation_of e projected) st
    ok (st', e)

  unfoldable pub load_active_path : String → Store → Result SessionError (List Entry)
  load_active_path session_id st = do
    session ← require_session session_id st
    build_active_path (list_entries session_id st) (some session.active_leaf_id)

  unfoldable pub project_current_state : String → Store → Result SessionError ProjectedSessionState
  project_current_state session_id st = do
    path ← load_active_path session_id st
    lift_ledger (project host.parses_date path)

  -- the operations that only call the store; `upsertProjectBinding` sanitises the name before
  unfoldable pub upsert_project_binding : PrivateBinding → Store → Store × ProjectBinding
  upsert_project_binding binding st =
      Store.upsert_project_binding
        (record binding {
          display_name = sanitize_sensitive_text host.checks.patterns binding.display_name;
        })
        st
