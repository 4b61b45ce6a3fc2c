-- ===== src/Session/Export.antt =====
-- `SessionExportService` of packages/session-runtime/src/export.ts: what of a session leaves the
-- machine.
pub mod Hiding
use qodex.Common.{
  ℕ, String, Bool, true, false, Option, none, some, List, [], ◌∷◌, map, ◌==◌, Result, ok, err,
  require, ◌>>=◌,
}
use qodex.Session.Json.{Number, Json, Items, Fields, get, text_at}
use qodex.Session.Entries.{SessionStatus, EventType, Entry, truthy}
use qodex.Session.Sensitive.{Patterns, sanitize_sensitive_text, sanitize_fields}
use qodex.Session.Sanitize.{redact_json, items_or_empty}
use qodex.Session.Validation.{SessionRecord, SessionError}
use qodex.Session.Store.{Store, get_session, get_project_binding}
use qodex.Session.Runtime.{Host, load_active_path}

record RedactedSessionExport : Type 0 where
  pub schema_version : ℕ
  pub session : Json
  pub entries : List Entry

-- the text of a status
unfoldable status_text : SessionStatus → String
status_text SessionStatus.active = "Active"
status_text SessionStatus.recovery_required = "RecoveryRequired"
status_text SessionStatus.interrupted = "Interrupted"
status_text SessionStatus.completed = "Completed"
status_text SessionStatus.failed = "Failed"
status_text SessionStatus.cancelled = "Cancelled"
status_text SessionStatus.limit_reached = "LimitReached"

-- `string | null`
abbrev nullable : Option String → Json
nullable none = Json.null
nullable (some s) = Json.str s

-- `{ ...safeSession, projectDisplayName }`: the session without its binding and its leaf
unfoldable session_fields : SessionRecord → Option String → Json
session_fields s display_name = Json.obj (
    Fields.field "id" (Json.str s.id) (
      Fields.field "schemaVersion" (Json.num (Number.natural s.schema_version)) (
        Fields.field "title" (Json.str s.title) (
          Fields.field "status" (Json.str (status_text s.status)) (
            Fields.field "providerId" (nullable s.provider_id) (
              Fields.field "modelId" (nullable s.model_id) (
                Fields.field "createdAt" (Json.str s.created_at) (
                  Fields.field "updatedAt" (Json.str s.updated_at) (
                    Fields.field "completedAt" (nullable s.completed_at) (
                      Fields.field "projectDisplayName" (nullable display_name) Fields.end))))))))))

module _ (ps : Patterns) where
  -- `redactJson(file.path ?? "")`
  abbrev pub exported_path : Option Json → Json
  exported_path none = redact_json ps (Json.str "")
  exported_path (some Json.null) = redact_json ps (Json.str "")
  exported_path (some v) = redact_json ps v

  abbrev pub export_file : Json → Json
  export_file (Json.obj fs) =
      Json.obj (Fields.field "path" (exported_path (get "path" fs)) Fields.end)
  export_file _ = Json.obj Fields.end

  unfoldable pub export_files : Items → Items
  export_files Items.nil = Items.nil
  export_files (Items.cons x xs) = Items.cons (export_file x) (export_files xs)

  abbrev text_or_empty : Option String → String
  text_or_empty none = ""
  text_or_empty (some s) = s

  abbrev summary_of : Option String → Json
  summary_of none = Json.str ""
  summary_of (some s) = redact_json ps (Json.str s)

  unfoldable pub redact_patch : Json → Json
  redact_patch (Json.obj fs) = Json.obj (
      Fields.field "actionId" (Json.str (text_or_empty (text_at "actionId" fs))) (
        Fields.field "summary" (summary_of (text_at "summary" fs)) (
          Fields.field "files" (Json.arr (export_files (items_or_empty (get "files" fs))))
            Fields.end)))
  redact_patch _ = Json.obj Fields.end

  unfoldable pub redact_payload : EventType → Json → Json
  redact_payload EventType.patch_proposed payload = redact_patch payload
  redact_payload _ payload = redact_json ps payload

  unfoldable pub redact_entry : Entry → Entry
  redact_entry e = record e {
    payload = redact_payload e.type e.payload;
    safe_metadata = sanitize_fields ps e.safe_metadata;
  }

-- `session.projectBindingId ? await getProjectBinding(…) : null`, and the display name of it
unfoldable pub display_name_of : SessionRecord → Store → Option String
display_name_of s st = elim (truthy s.project_binding_id) [
  | none ↦ none
  | some id ↦ elim (get_project_binding id st) [ none ↦ none | some b ↦ some b.display_name ]
]

unfoldable export_redacted : Host → String → Store → Result SessionError RedactedSessionExport
export_redacted host id st = do
  session ← require (get_session id st) SessionError.session_not_found
  path ← load_active_path host id st
  ok (record {
    schema_version = session.schema_version;
    session =
        redact_json host.checks.patterns (session_fields session (display_name_of session st));
    entries = map (redact_entry host.checks.patterns) path;
  })
