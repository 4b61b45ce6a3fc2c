-- ===== src/Session/Export/Hiding.antt =====
-- What an exported patch shows (packages/session-runtime/src/export.ts).
use qodex.Common.{◌≡◌, refl, ap, sym, ◌∙◌, Option, none, some, List, [], ◌∷◌}
use qodex.Session.Json.{Json, Items, Fields, get, text_at}
use qodex.Session.Entries.{EventType, Entry}
use qodex.Session.Sensitive.{Patterns}
use qodex.Session.Sanitize.{items_or_empty}
use qodex.Session.Export.{
  exported_path, export_file, export_files, redact_patch, redact_payload, redact_entry,
}

-- the paths of the files of a patch, with a place for each item that is no record
abbrev path_of : Json → Option (Option Json)
path_of (Json.obj fs) = some (get "path" fs)
path_of _ = none

abbrev paths_of : Items → List (Option (Option Json))
paths_of Items.nil = []
paths_of (Items.cons x xs) = path_of x ∷ paths_of xs

-- two patches with the same action, the same summary and the same paths
pub record SameShown (a b : Fields) : Type 0 where
  pub action : text_at "actionId" a ≡ text_at "actionId" b
  pub summary : text_at "summary" a ≡ text_at "summary" b
  pub paths : paths_of (items_or_empty (get "files" a)) ≡ paths_of (items_or_empty (get "files" b))

module _ (ps : Patterns) where
  -- the exported file, from its path alone
  abbrev file_of : Option (Option Json) → Json
  file_of none = Json.obj Fields.end
  file_of (some p) = Json.obj (Fields.field "path" (exported_path ps p) Fields.end)

  abbrev files_of : List (Option (Option Json)) → Items
  files_of [] = Items.nil
  files_of (p ∷ rest) = Items.cons (file_of p) (files_of rest)

  export_file-eq : (v : Json) → export_file ps v ≡ file_of (path_of v)
  export_file-eq (Json.obj fs) = refl
  export_file-eq Json.null = refl
  export_file-eq (Json.bool b) = refl
  export_file-eq (Json.num n) = refl
  export_file-eq (Json.str t) = refl
  export_file-eq (Json.arr xs) = refl

  export_files-eq : (xs : Items) → export_files ps xs ≡ files_of (paths_of xs)
  unfolding export_files
  export_files-eq Items.nil = refl
  export_files-eq (Items.cons x xs) = cc (export_file-eq x, export_files-eq xs)

  redact_patch-eq :
      (a b : Fields) → SameShown a b → redact_patch ps (Json.obj a) ≡ redact_patch ps (Json.obj b)
  unfolding redact_patch
  redact_patch-eq a b w =
      let files : export_files ps (items_or_empty (get "files" a))
          ≡ export_files ps (items_or_empty (get "files" b)) =
        export_files-eq _ ∙ ap files_of w.paths ∙ sym (export_files-eq _) in
      rw (w.action, w.summary, files) refl

  -- The export of a proposed patch depends on nothing of its payload but the action's identifier,
  -- the summary and the paths of its files: no content of a file is exported.
  pub redact_entry-hides :
      (e : Entry) (a b : Fields)
      → e.type ≡ EventType.patch_proposed
      → SameShown a b
      → redact_entry ps (record e { payload = Json.obj a })
        ≡ redact_entry ps (record e { payload = Json.obj b })
  unfolding redact_entry redact_payload
  redact_entry-hides e a b k w = rw (k, redact_patch-eq a b w) refl
