-- ===== src/Session/Validation.antt =====
-- `validateSession` and `validateEntry` of packages/session-runtime/src/validation.ts. The host's
-- date parser and its regular expressions are the fields of `Checks`.
use qodex.Common.{
  ℕ, String, Bool, true, ◌&&◌, ◌||◌, not, Option, ◌==◌, eqb, leb, Result, ok, guard, ◌>>◌,
}
use qodex.Common.Text.{is_blank}
use qodex.Session.Json.{Number, Json, Items, Fields}
use qodex.Session.Sensitive.{Patterns, has_sensitive_text}
use qodex.Session.Entries.{SessionStatus, Entry, LedgerError}

pub record Checks : Type 0 where
  pub parses_date : String → Bool
  pub patterns : Patterns

pub record SessionRecord : Type 0 where
  pub id : String
  pub schema_version : ℕ
  pub title : String
  pub status : SessionStatus
  pub active_leaf_id : String
  pub project_binding_id : Option String
  pub provider_id : Option String
  pub model_id : Option String
  pub created_at : String
  pub updated_at : String
  pub completed_at : Option String

abbrev pub session_schema_version : ℕ
session_schema_version = 1

-- One constructor for each `throw` of src/validation.ts, src/in-memory-store.ts and
-- src/runtime.ts; an error of the projector is passed on.
pub data SessionError : Type 0 where
  missing_identity unsupported_schema invalid_timestamp : SessionError
  missing_entry_identity invalid_sequence invalid_payload_version : SessionError
  sensitive_text non_finite_number sensitive_field : SessionError
  session_exists invalid_first_entry session_not_found entry_exists : SessionError
  not_append_only parent_not_found : SessionError
  newer_version leaf_missing parent_cycle parent_missing selected_parent_missing : SessionError
  out_of_fuel invalid_entry_type : SessionError
  ledger : LedgerError → SessionError

-- `Number.isFinite`
unfoldable pub is_finite : Number → Bool
is_finite (Number.natural n) = true
is_finite (Number.other text) = not (text == "NaN" || text == "Infinity" || text == "-Infinity")

module _ (c : Checks) where
  unfoldable pub validate_timestamp : String → Result SessionError (Unit {0})
  validate_timestamp value =
      guard (not (value == "") && c.parses_date value) SessionError.invalid_timestamp

  unfoldable mutual
    pub assert_safe_json : Json → Result SessionError (Unit {0})
    assert_safe_json Json.null = ok tt
    assert_safe_json (Json.bool b) = ok tt
    assert_safe_json (Json.str s) =
        guard (not (has_sensitive_text c.patterns s)) SessionError.sensitive_text
    assert_safe_json (Json.num n) = guard (is_finite n) SessionError.non_finite_number
    assert_safe_json (Json.arr xs) = assert_safe_items xs
    assert_safe_json (Json.obj fs) = assert_safe_fields fs

    pub assert_safe_items : Items → Result SessionError (Unit {0})
    assert_safe_items Items.nil = ok tt
    assert_safe_items (Items.cons x xs) = do assert_safe_json x; assert_safe_items xs

    pub assert_safe_fields : Fields → Result SessionError (Unit {0})
    assert_safe_fields Fields.end = ok tt
    assert_safe_fields (Fields.field key child fs) = do
      guard (not (c.patterns.is_sensitive_field_name key)) SessionError.sensitive_field
      assert_safe_json child
      assert_safe_fields fs

  unfoldable pub validate_session : SessionRecord → Result SessionError (Unit {0})
  validate_session session = do
    guard (not (is_blank session.id || is_blank session.title)) SessionError.missing_identity
    guard (eqb session.schema_version session_schema_version) SessionError.unsupported_schema
    validate_timestamp session.created_at
    validate_timestamp session.updated_at

  unfoldable pub validate_entry : Entry → Result SessionError (Unit {0})
  validate_entry e = do
    guard (not (is_blank e.id || is_blank e.session_id)) SessionError.missing_entry_identity
    guard (leb 1 e.sequence) SessionError.invalid_sequence
    guard (leb 1 e.payload_version) SessionError.invalid_payload_version
    validate_timestamp e.created_at
    assert_safe_json e.payload
    assert_safe_fields e.safe_metadata
