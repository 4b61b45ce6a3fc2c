-- ===== src/Session/Sanitize.antt =====
-- `sanitizeEntryForPersistence` and `redactJson` of packages/session-runtime/src/validation.ts:
-- what is removed from an entry before it is stored.
use qodex.Common.{String, Bool, true, false, ◌||◌, Option, some, ◌==◌, if◌then◌else◌}
use qodex.Session.Json.{Json, Items, Fields, get}
use qodex.Session.Entries.{EventType}
use qodex.Session.Sensitive.{
  Patterns, has_sensitive_text, sanitize_sensitive_text, sanitize_sensitive_json, sanitize_fields,
}

-- `object[key] = value`
unfoldable pub set_field : String → Json → Fields → Fields
set_field key value Fields.end = Fields.field key value Fields.end
set_field key value (Fields.field k v fs) =
    if k == key then Fields.field k value fs else Fields.field k v (set_field key value fs)

-- `isRecord(payload) ? payload : {}`
abbrev fields_or_empty : Json → Fields
fields_or_empty (Json.obj fs) = fs
fields_or_empty _ = Fields.end

-- `Array.isArray(value) ? value : []`
abbrev pub items_or_empty : Option Json → Items
items_or_empty (some (Json.arr xs)) = xs
items_or_empty _ = Items.nil

abbrev is_patch_proposed : EventType → Bool
is_patch_proposed EventType.patch_proposed = true
is_patch_proposed _ = false

module _ (ps : Patterns) where
  abbrev pub redact_json : Json → Json
  redact_json = sanitize_sensitive_json ps

  abbrev sensitive_value : Option Json → Bool
  sensitive_value (some (Json.str s)) = has_sensitive_text ps s
  sensitive_value _ = false

  abbrev sensitive_file : Json → Bool
  sensitive_file (Json.obj fs) =
      sensitive_value (get "path" fs)
      || sensitive_value (get "oldContent" fs)
      || sensitive_value (get "newContent" fs)
  sensitive_file _ = false

  unfoldable pub sensitive_content : Items → Bool
  sensitive_content Items.nil = false
  sensitive_content (Items.cons x xs) = sensitive_file x || sensitive_content xs

  abbrev path_or_unavailable : Option Json → String
  path_or_unavailable (some (Json.str s)) = sanitize_sensitive_text ps s
  path_or_unavailable _ = "[unavailable]"

  abbrev redact_file : Json → Json
  redact_file (Json.obj fs) = Json.obj (
      Fields.field "path" (Json.str (path_or_unavailable (get "path" fs)))
        (Fields.field "contentRedacted" (Json.bool true) Fields.end))
  redact_file _ = Json.obj Fields.end

  unfoldable pub redact_files : Items → Items
  redact_files Items.nil = Items.nil
  redact_files (Items.cons x xs) = Items.cons (redact_file x) (redact_files xs)

  unfoldable pub sanitize_entry_for_persistence : EventType → Json → Fields → Json × Fields
  sanitize_entry_for_persistence type payload metadata =
      let files = items_or_empty (get "files" (fields_or_empty payload)) in
      let plain : Json × Fields =
        (sanitize_sensitive_json ps payload, sanitize_fields ps metadata) in
      if is_patch_proposed type
      then (if sensitive_content files
          then (
            Json.obj (
                set_field "files" (Json.arr (redact_files files))
                  (sanitize_fields ps (fields_or_empty payload))),
            set_field "sensitiveContentRedacted" (Json.bool true)
                (set_field "recoverable" (Json.bool false) (sanitize_fields ps metadata)),
          )
          else plain)
      else plain
