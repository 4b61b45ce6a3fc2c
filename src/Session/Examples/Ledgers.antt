-- ===== src/Session/Examples/Ledgers.antt =====
-- The theorems on ledgers at the example ledger (packages/session-runtime/src/projector.ts, src/runtime.ts, src/validation.ts).
use qodex.Common.{
  ◌≡◌, refl, String, Bool, true, false, none, some, List, [], ◌∷◌, ◌++◌, ◌==◌, ◌≢◌, ◌⊎◌, Any, ok,
  err, Distinct,
}
use qodex.Session.Json.{Json, Items, Fields, get, text_at}
use qodex.Session.Export.{redact_entry}
use qodex.Session.Export.Hiding.{SameShown, redact_entry-hides}
use qodex.Session.Entries.{EventType, Entry, action_id_of}
use qodex.Session.Sensitive.{Rule}
use qodex.Session.Validation.{Checks, SessionError}
use qodex.Session.Projector.State.{PendingAction, is_terminal}
use qodex.Session.Projector.Fold.{is_created}
use qodex.Session.Projector.Evidence.{
  StartEvidence, SettlementEvidence, project-StartEvidence, project-SettlementEvidence,
}
use qodex.Session.Projector.Unsettled.{project-Settles}
use qodex.Session.Projector.Started.{Settles}
use qodex.Session.Projector.Closing.{project-close_last}
use qodex.Session.Projector.Order.{Ordered, ids, project-Ordered}
use qodex.Session.Projector.Counts.{
  count_of, is_message, is_tool_request, is_patch, is_command, is_artifact, project-counts,
}
use qodex.Session.Path.{build_active_path, climb, by_id, parent_of}
use qodex.Session.Path.Total.{build_active_path-ne-out_of_fuel}
use qodex.Session.Path.Append.{build_active_path-append}
use qodex.Session.Recovery.Search.{find_unmatched_started_action}
use qodex.Session.Recovery.Tracking.{IsIdle, evidence_of}
use qodex.Session.Recovery.Matching.{find_unmatched_started_action-project}
use qodex.Session.Examples.{
  started, completed, message, closed, before_start, ledger, parses, projection, ledger-projects,
  entry,
}

project-StartEvidence_example : StartEvidence before_start started
project-StartEvidence_example =
    project-StartEvidence parses before_start (completed ∷ message ∷ closed ∷ []) started
      (projection ledger) ledger-projects refl

project-SettlementEvidence_example : SettlementEvidence (before_start ++ started ∷ []) completed
project-SettlementEvidence_example =
    project-SettlementEvidence parses (before_start ++ started ∷ []) (message ∷ closed ∷ [])
      completed (projection ledger) ledger-projects refl

project-Settles_example :
    (a : String) × (action_id_of started ≡ some a)
    × (Any (Settles a) (completed ∷ message ∷ closed ∷ [])
        ⊎ ((p : PendingAction) × ((projection ledger).pending_action ≡ some p)
            × (p.action_id ≡ a)
            × (p.started ≡ true)
            × (is_terminal (projection ledger).status ≡ false)))
project-Settles_example =
    project-Settles parses before_start (completed ∷ message ∷ closed ∷ []) started
      (projection ledger) ledger-projects refl

project-close_last_example : ◌≡◌ {A = List Entry} [] []
project-close_last_example =
    project-close_last parses (before_start ++ started ∷ completed ∷ message ∷ []) [] closed
      (projection ledger) ledger-projects refl

project-Ordered_example :
    (first : Entry) × (rest : List Entry) × (ledger ≡ first ∷ rest)
    × (is_created first.type ≡ true)
    × Ordered first.sequence rest
    × Distinct (ids ledger)
project-Ordered_example = project-Ordered parses ledger (projection ledger) ledger-projects

project-counts_example :
    ((projection ledger).message_count ≡ count_of is_message ledger)
    × ((projection ledger).tool_call_count ≡ count_of is_tool_request ledger)
    × ((projection ledger).patch_count ≡ count_of is_patch ledger)
    × ((projection ledger).command_count ≡ count_of is_command ledger)
    × ((projection ledger).artifact_count ≡ count_of is_artifact ledger)
project-counts_example = project-counts parses ledger (projection ledger) ledger-projects

find_unmatched_started_action-project_example :
    ((find_unmatched_started_action ledger ≡ none) × IsIdle (projection ledger).pending_action)
    ⊎ ((p : PendingAction) × (b : Bool) × ((projection ledger).pending_action ≡ some p)
        × (p.started ≡ true)
        × (p.settled ≡ false)
        × (is_terminal (projection ledger).status ≡ false)
        × (find_unmatched_started_action ledger ≡ some (evidence_of p.action_id b)))
find_unmatched_started_action-project_example =
    find_unmatched_started_action-project parses ledger (projection ledger) ledger-projects

build_active_path-ne-out_of_fuel_example :
    build_active_path ledger (some "e8") ≢ err SessionError.out_of_fuel
build_active_path-ne-out_of_fuel_example = build_active_path-ne-out_of_fuel ledger (some "e8")

path-walked : build_active_path before_start (some "e4") ≡ ok before_start
unfolding build_active_path climb by_id parent_of
path-walked = refl

build_active_path-append_example :
    build_active_path (before_start ++ started ∷ []) (some "e5") ≡ ok (before_start ++ started ∷ [])
build_active_path-append_example =
    build_active_path-append before_start started refl "e4" before_start refl refl refl refl
      path-walked

-- a host whose one rule finds one text
abbrev finds : Rule → String → Bool
finds Rule.bearer text = text == "Bearer x"
finds _ text = false

abbrev replaces : Rule → String → String
replaces Rule.bearer text = "[redacted]"
replaces _ text = text

abbrev checks : Checks
checks = record {
  parses_date = parses;
  patterns = record {
    test = finds;
    replace = replaces;
    is_sensitive_field_name = λ key. key == "token";
  };
}

abbrev patch_with : String → Fields
patch_with content = Fields.field "actionId" (Json.str "a1") (
    Fields.field "files"
      (Json.arr (
        Items.cons
          (Json.obj (
            Fields.field "path" (Json.str "x.ts")
              (Fields.field "newContent" (Json.str content) Fields.end)))
          Items.nil))
      Fields.end)

patches-SameShown : SameShown (patch_with "one") (patch_with "two")
unfolding get text_at
patches-SameShown = record { action = refl; summary = refl; paths = refl }

abbrev proposed_patch : Entry
proposed_patch = entry "e2" (some "e1") 2 EventType.patch_proposed

redact_entry-hides_example :
    redact_entry checks.patterns (record proposed_patch { payload = Json.obj (patch_with "one") })
    ≡ redact_entry checks.patterns (record proposed_patch { payload = Json.obj (patch_with "two") })
redact_entry-hides_example =
    redact_entry-hides checks.patterns proposed_patch (patch_with "one") (patch_with "two") refl
      patches-SameShown
