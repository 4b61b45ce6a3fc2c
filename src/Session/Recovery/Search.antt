-- ===== src/Session/Recovery/Search.antt =====
-- `findUnmatchedStartedAction` of packages/session-runtime/src/recovery.ts.
use qodex.Common.{String, Bool, true, false, Option, none, some, List, [], ◌∷◌, if◌then◌else◌}
use qodex.Common.Maps.{Table, insert, remove}
use qodex.Session.Entries.{EventType, Entry, truthy, action_id_of}
use qodex.Session.Projector.State.{is_missing}

pub record Unmatched : Type 0 where
  pub action_id : String
  pub masking_terminal_parent_entry_id : Option String
  pub already_interrupted : Bool

-- `STARTED_EVENTS.has`
unfoldable pub is_started_event : EventType → Bool
is_started_event EventType.patch_started = true
is_started_event EventType.command_started = true
is_started_event EventType.action_started = true
is_started_event _ = false

-- `SETTLED_EVENTS.has`
unfoldable pub is_settled_event : EventType → Bool
is_settled_event EventType.patch_applied = true
is_settled_event EventType.command_completed = true
is_settled_event EventType.action_completed = true
is_settled_event EventType.action_failed = true
is_settled_event _ = false

-- `entry.type === "SESSION_INTERRUPTED"`
unfoldable pub is_interruption : EventType → Bool
is_interruption EventType.session_interrupted = true
is_interruption _ = false

-- `MASKING_TERMINAL_EVENTS.has`
unfoldable pub is_masking_terminal : EventType → Bool
is_masking_terminal EventType.session_completed = true
is_masking_terminal EventType.delivery_completed = true
is_masking_terminal EventType.session_failed = true
is_masking_terminal EventType.session_cancelled = true
is_masking_terminal EventType.session_limit_reached = true
is_masking_terminal _ = false

abbrev pub map_values {ℓ} : {V : Type ℓ} → (V → V) → Table V → Table V
map_values f [] = []
map_values f ((k, v) ∷ m) = (k, f v) ∷ map_values f m

abbrev pub interrupt_evidence : Unmatched → Unmatched
interrupt_evidence u = record u { already_interrupted = true }

-- `evidence.maskingTerminalParentEntryId ??= parent`
abbrev pub mask_evidence : Option String → Unmatched → Unmatched
mask_evidence parent u =
    if is_missing u.masking_terminal_parent_entry_id
    then record u { masking_terminal_parent_entry_id = parent }
    else u

-- `entries[index - 1]?.id ?? null`
abbrev pub id_before : Option Entry → Option String
id_before none = none
id_before (some e) = some e.id

-- the action that the entry names, if the entry passes the test
abbrev pub named_action : Bool → Entry → Option String
named_action false e = none
named_action true e = truthy (action_id_of e)

-- the checks of a round that are not about one action
unfoldable pub observe_session : Option Entry → Entry → Table Unmatched → Table Unmatched
observe_session previous e m =
    if is_interruption e.type
    then map_values interrupt_evidence m
    else if is_masking_terminal e.type
    then map_values (mask_evidence (id_before previous)) m
    else m

-- one round of the loop of `findUnmatchedStartedAction`
unfoldable pub observe : Option Entry → Entry → Table Unmatched → Table Unmatched
observe previous e m = elim (named_action (is_started_event e.type) e) [
  | some a ↦
      insert a
        (record {
          action_id = a;
          masking_terminal_parent_entry_id = none;
          already_interrupted = false;
        })
        m
  | none ↦ elim (named_action (is_settled_event e.type) e) [
    | some a ↦ remove a m
    | none ↦ observe_session previous e m
  ]
]

unfoldable pub observe_all : Option Entry → List Entry → Table Unmatched → Table Unmatched
observe_all previous [] m = m
observe_all previous (e ∷ es) m = observe_all (some e) es (observe previous e m)

-- `started.values().next().value ?? null`
abbrev pub first_value {ℓ} : {V : Type ℓ} → Table V → Option V
first_value [] = none
first_value ((k, v) ∷ m) = some v

unfoldable pub find_unmatched_started_action : List Entry → Option Unmatched
find_unmatched_started_action entries = first_value (observe_all none entries [])
