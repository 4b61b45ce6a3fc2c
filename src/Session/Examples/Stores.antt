-- ===== src/Session/Examples/Stores.antt =====
-- The theorems on stores at a session that is created, gets a message and is recovered
-- (packages/session-runtime/src/runtime.ts, src/in-memory-store.ts, src/recovery.ts).
use qodex.Common.{◌≡◌, refl, String, true, false, none, some, [], ◌∷◌, ok, ◌==◌, leb, All, has}
use qodex.Common.Text.{is_blank}
use qodex.Common.Maps.{lookup, insert}
use qodex.Session.Json.{Json, get, text_at}
use qodex.Session.Entries.{EventType, Entry}
use qodex.Session.Sensitive.{
  Patterns, sanitize_sensitive_json, inspect_sensitive_text, scan, sanitize_sensitive_text,
}
use qodex.Session.Sanitize.{sanitize_entry_for_persistence}
use qodex.Session.Validation.{
  SessionRecord, validate_timestamp, assert_safe_json, assert_safe_fields, validate_session,
  validate_entry,
}
use qodex.Session.Projector.State.{initial, is_terminal}
use qodex.Session.Projector.Steps.{interrupt}
use qodex.Session.Projector.Fold.{
  ProjectedSessionState, dispatch, step, follows, run, project, projected,
}
use qodex.Session.Store
use qodex.Session.Store.{Store, empty, next_sequence, list_entries, get_session}
use qodex.Session.Path.{build_active_path, climb, by_id, parent_of}
use qodex.Session.Runtime.{
  Host, NewSessionInput, ParentInput, AppendEntryInput, new_session, first_entry, create_session,
  new_entry, candidate_path, mutation_of, append_entry, require_session, terminal_entry_status,
  load_active_path, project_current_state,
}
use qodex.Session.Runtime.Soundness.{
  Reached, Reached-IsSound, append_entry-IsSound, create_session-IsSound,
  project_current_state-Reached,
}
use qodex.Session.Runtime.Sound.{IsSound}
use qodex.Session.Runtime.Status.{Agrees}
use qodex.Session.Recovery.{
  is_recovered_status, recovery_entry, recover_settled, recover, recover_session,
}
use qodex.Session.Recovery.Search.{
  find_unmatched_started_action, observe_all, observe, observe_session, is_started_event,
  is_settled_event, is_interruption, is_masking_terminal,
}
use qodex.Session.Recovery.Recovered.{Changed, recover_session-Recovered}
use qodex.Session.Sessions.{recover_incomplete_sessions}
use qodex.Session.Sessions.Recovering.{
  SameSession, session_ids, IsRecovered, recover_incomplete_sessions-All,
}
use qodex.Session.Examples.{created, value_or, parses}

abbrev patterns : Patterns
patterns = record {
  test = λ rule text. false;
  replace = λ rule text. text;
  is_sensitive_field_name = λ key. key == "token";
}

abbrev host : Host
host = record {
  checks = record { parses_date = parses; patterns = patterns };
  is_inherited = λ name. name == "toString";
}

abbrev input : NewSessionInput
input = record {
  id = some "s";
  title = "Title";
  project_binding_id = none;
  provider_id = none;
  model_id = none;
  created_at = none;
}

abbrev message_input : AppendEntryInput
message_input = record {
  id = none;
  parent_entry_id = ParentInput.unset;
  type = EventType.user_message;
  payload_version = none;
  payload = some (Json.str "hello");
  safe_metadata = none;
  created_at = none;
}

abbrev made : Store × SessionRecord
made =
    value_or (empty, new_session host input "s" "e1" "2026")
      (create_session host input "s" "e1" "2026" empty)

create-made : create_session host input "s" "e1" "2026" empty ≡ ok made
unfolding create_session new_session first_entry validate_session validate_entry validate_timestamp
    assert_safe_json assert_safe_fields is_blank Store.create_session lookup insert
    inspect_sensitive_text scan sanitize_sensitive_text
create-made = refl

abbrev grown : Store × Entry
grown = value_or (empty, created) (append_entry host "s" message_input "e2" "2027" made.0)

append-grown : append_entry host "s" message_input "e2" "2027" made.0 ≡ ok grown
unfolding create_session new_session first_entry validate_session validate_entry validate_timestamp
    assert_safe_json assert_safe_fields is_blank Store.create_session Store.append_entry lookup
    insert inspect_sensitive_text scan sanitize_sensitive_text append_entry require_session
    get_session list_entries build_active_path climb by_id parent_of new_entry next_sequence
    sanitize_entry_for_persistence sanitize_sensitive_json candidate_path project run step follows
    dispatch is_terminal projected mutation_of terminal_entry_status
append-grown = refl

abbrev recovered : Store × ProjectedSessionState
recovered =
    value_or (empty, projected initial created created)
      (recover_session host "s" "e3" "2028" grown.0)

recover-recovered : recover_session host "s" "e3" "2028" grown.0 ≡ ok recovered
unfolding create_session new_session first_entry validate_session validate_entry validate_timestamp
    assert_safe_json assert_safe_fields is_blank Store.create_session Store.append_entry lookup
    insert inspect_sensitive_text scan sanitize_sensitive_text append_entry require_session
    get_session list_entries build_active_path climb by_id parent_of new_entry next_sequence
    sanitize_entry_for_persistence sanitize_sensitive_json candidate_path project run step follows
    dispatch is_terminal projected mutation_of terminal_entry_status recover_session
    load_active_path recover find_unmatched_started_action observe_all observe observe_session
    is_started_event is_settled_event is_interruption is_masking_terminal recover_settled
    is_recovered_status recovery_entry text_at get project_current_state interrupt
recover-recovered = refl

grown-Reached : Reached host grown.0
grown-Reached =
    Reached.appended "s" message_input "e2" "2027" made.0 grown.0 grown.1
      (Reached.created input "s" "e1" "2026" empty made.0 made.1 Reached.begun create-made)
      append-grown

append_entry-IsSound_example : IsSound parses grown.0
append_entry-IsSound_example =
    append_entry-IsSound host "s" message_input "e2" "2027" made.0 grown.0 grown.1
      (Reached-IsSound host made.0
        (Reached.created input "s" "e1" "2026" empty made.0 made.1 Reached.begun create-made))
      append-grown

create_session-IsSound_example : IsSound parses made.0
create_session-IsSound_example =
    create_session-IsSound host input "s" "e1" "2026" empty made.0 made.1
      (Reached-IsSound host empty Reached.begun) create-made

recover_session-Recovered_example :
    IsSound parses recovered.0
    × Changed host "s" "e3" "2028" grown.0 recovered.0 recovered.1
    × (project_current_state host "s" recovered.0 ≡ ok recovered.1)
recover_session-Recovered_example =
    recover_session-Recovered host "s" "e3" "2028" grown.0 recovered.0 recovered.1
      (Reached-IsSound host grown.0 grown-Reached) recover-recovered

abbrev grown_session : SessionRecord
grown_session = record made.1 { active_leaf_id = "e2"; updated_at = "2027" }

grown-found : lookup "s" grown.0.sessions ≡ some grown_session
unfolding create_session new_session first_entry validate_session validate_entry validate_timestamp
    assert_safe_json assert_safe_fields is_blank Store.create_session Store.append_entry lookup
    insert inspect_sensitive_text scan sanitize_sensitive_text append_entry require_session
    get_session list_entries build_active_path climb by_id parent_of new_entry next_sequence
    sanitize_entry_for_persistence sanitize_sensitive_json candidate_path project run step follows
    dispatch is_terminal projected mutation_of terminal_entry_status
grown-found = refl

grown-version : leb grown_session.schema_version 1 ≡ true
unfolding create_session new_session first_entry validate_session validate_entry validate_timestamp
    assert_safe_json assert_safe_fields is_blank Store.create_session lookup insert
    inspect_sensitive_text scan sanitize_sensitive_text
grown-version = refl

project_current_state-Reached_example :
    (z : ProjectedSessionState) × (project_current_state host "s" grown.0 ≡ ok z)
    × Agrees grown_session.status z.status
    × (grown_session.completed_at ≡ z.completed_at)
project_current_state-Reached_example =
    project_current_state-Reached host "s" grown.0 grown_session grown-Reached grown-found
      grown-version

recover-all :
    recover_incomplete_sessions host (λ id. "e3") (λ id. "2028") (grown_session ∷ []) grown.0
    ≡ ok recovered.0
unfolding recover_incomplete_sessions create_session new_session first_entry validate_session
    validate_entry validate_timestamp assert_safe_json assert_safe_fields is_blank
    Store.create_session Store.append_entry lookup insert inspect_sensitive_text scan
    sanitize_sensitive_text append_entry require_session get_session list_entries build_active_path
    climb by_id parent_of new_entry next_sequence sanitize_entry_for_persistence
    sanitize_sensitive_json candidate_path project run step follows dispatch is_terminal projected
    mutation_of terminal_entry_status recover_session load_active_path recover
    find_unmatched_started_action observe_all observe observe_session is_started_event
    is_settled_event is_interruption is_masking_terminal recover_settled is_recovered_status
    recovery_entry text_at get project_current_state interrupt
recover-all = refl

recover_incomplete_sessions-All_example :
    IsSound parses recovered.0
    × All (IsRecovered host (λ id. "e3") (λ id. "2028") grown.0 recovered.0) (grown_session ∷ [])
    × ((id : String)
        → has id (session_ids (grown_session ∷ [])) ≡ false
        → SameSession id grown.0 recovered.0)
recover_incomplete_sessions-All_example =
    recover_incomplete_sessions-All host (λ id. "e3") (λ id. "2028") (grown_session ∷ []) grown.0
      recovered.0 (Reached-IsSound host grown.0 grown-Reached) (refl, tt) recover-all
