-- ===== src/Session/Recovery.antt =====
-- `SessionRecoveryService` of packages/session-runtime/src/recovery.ts: what a session that was
-- cut off gets appended when it is opened again.
pub mod Search
pub mod Tracking
pub mod Observing
pub mod Idle
pub mod Matching
pub mod Recovered
use qodex.Common.{
  String, Bool, true, false, not, ◌&&◌, ◌||◌, Option, none, some, List, [], ◌∷◌, ◌==◌, ℕ, ◌+◌,
  if◌then◌else◌, Result, ok, err, guard, ◌>>=◌, ◌>>◌,
}
use Prim.Native.String.{◌++◌}
use qodex.Common.Maps.{Table, insert, remove}
use qodex.Session.Json.{Number, Json, Fields, text_at}
use qodex.Session.Entries.{SessionStatus, EventType, Entry, Kind, truthy, action_id_of}
use qodex.Session.Projector.State.{PendingAction, is_missing, kind_eq, is_text}
use qodex.Session.Projector.Fold.{ProjectedSessionState, project}
use qodex.Session.Validation.{SessionError}
use qodex.Session.Store.{Store}
use qodex.Session.Runtime.{
  Host, ParentInput, AppendEntryInput, lift_ledger, require_session, append_entry, load_active_path,
  project_current_state,
}
use qodex.Session.Recovery.Search.{
  Unmatched, is_started_event, is_settled_event, is_interruption, is_masking_terminal, map_values,
  interrupt_evidence, mask_evidence, id_before, named_action, observe_session, observe, observe_all,
  first_value, find_unmatched_started_action,
}

-- `TERMINAL_RUNTIME_EVENTS[status]`
unfoldable terminal_runtime_event : String → Option EventType
terminal_runtime_event status =
    if status == "Done"
    then some EventType.session_completed
    else if status == "Failed"
    then some EventType.session_failed
    else if status == "Cancelled"
    then some EventType.session_cancelled
    else if status == "LimitReached"
    then some EventType.session_limit_reached
    else none

-- `INTERRUPTED_RUNTIME_STATES.has`
unfoldable is_interrupted_state : String → Bool
is_interrupted_state status =
    status == "Planning"
    || status == "CallingModel"
    || status == "Streaming"
    || status == "ExecutingReadTool"
    || status == "ApplyingPatch"
    || status == "RunningCommand"
    || status == "ReturningToolResult"
    || status == "Cancelling"

-- the statuses that recovery leaves as they are
unfoldable pub is_recovered_status : SessionStatus → Bool
is_recovered_status SessionStatus.active = false
is_recovered_status _ = true

abbrev reason_payload : String → Json
reason_payload reason = Json.obj (Fields.field "reason" (Json.str reason) Fields.end)

abbrev pub execution_status : String → Fields
execution_status status = Fields.field "executionStatus" (Json.str status) Fields.end

-- an input of `appendEntry` without the fields that recovery leaves out
abbrev recovery_input : ParentInput → EventType → String → Fields → AppendEntryInput
recovery_input parent type reason metadata = record {
  id = none;
  parent_entry_id = parent;
  type = type;
  payload_version = none;
  payload = some (reason_payload reason);
  safe_metadata = some metadata;
  created_at = none;
}

abbrev interruption_input : AppendEntryInput
interruption_input =
    recovery_input ParentInput.unset EventType.session_interrupted
      "Application stopped before the active operation settled."
      (execution_status "unknown_or_interrupted")

-- the entry for a started action that is not settled
abbrev pub unmatched_input : Unmatched → AppendEntryInput
unmatched_input u =
    recovery_input
      (elim (truthy u.masking_terminal_parent_entry_id) [
        | none ↦ ParentInput.unset
        | some p ↦ ParentInput.given (some p)
      ])
      EventType.session_interrupted "unmatched_started_action_after_restart"
      (Fields.field "actionId" (Json.str u.action_id) (execution_status "unknown_or_interrupted"))

-- `(projection.pendingAction?.approvalGeneration ?? 0) + 1`
abbrev next_generation : Option PendingAction → ℕ
next_generation none = 1
next_generation (some p) = p.approval_generation + 1

abbrev reapproval_input : String → Option PendingAction → AppendEntryInput
reapproval_input reason pending =
    recovery_input ParentInput.unset EventType.recovery_required reason (
      Fields.field "executionStatus" (Json.str "unknown_or_interrupted") (
        Fields.field "approvalGeneration" (Json.num (Number.natural (next_generation pending)))
          Fields.end))

abbrev has_kind : Option PendingAction → Kind → Bool
has_kind none kind = false
has_kind (some p) kind = kind_eq p.kind kind

-- the input that `recover` appends for a path that projects, by the status of the task
unfoldable pub recovery_entry : Option String → Option PendingAction → Option AppendEntryInput
unfolding is_interrupted_state terminal_runtime_event
recovery_entry none pending =
    if has_kind pending Kind.patch
    then some (reapproval_input "patch_reapproval" pending)
    else if has_kind pending Kind.command
    then some (reapproval_input "command_reapproval" pending)
    else some interruption_input
recovery_entry (some status) pending = elim (terminal_runtime_event status) [
  | some type ↦ some (
      recovery_input ParentInput.unset type
        ("Recovered terminal " ++ status ++ " evidence after restart.")
        (execution_status "settled"))
  | none ↦
      if is_interrupted_state status
      then some interruption_input
      else if status == "WaitingForPatchApproval"
      then some (reapproval_input "patch_reapproval" pending)
      else if status == "WaitingForCommandApproval"
      then some (reapproval_input "command_reapproval" pending)
      else if status == "Idle"
      then some interruption_input
      else none
]

module _ (host : Host) where
  -- `runtimeStatus in TERMINAL_RUNTIME_EVENTS` is also true of the names that every object
  -- inherits; the type of the entry is no text then, and `validateEntry` throws.
  abbrev pub inherited : Option String → Bool
  inherited none = false
  inherited (some status) = host.is_inherited status

  abbrev pub append_then_project :
      String
      → AppendEntryInput
      → String
      → String
      → Store
      → Result SessionError (Store × ProjectedSessionState)
  append_then_project id input random_id now st = do
    (st', e) ← append_entry host id input random_id now st
    z ← project_current_state host id st'
    ok (st', z)

  abbrev pub follow_up :
      String
      → Option AppendEntryInput
      → String
      → String
      → Store
      → Result SessionError (Store × ProjectedSessionState)
  follow_up id none random_id now st = do
    current ← project_current_state host id st
    ok (st, current)
  follow_up id (some input) random_id now st = append_then_project id input random_id now st

  -- what `recover` does of a path in which every started action is settled
  unfoldable pub recover_settled :
      String
      → ProjectedSessionState
      → String
      → String
      → Store
      → Result SessionError (Store × ProjectedSessionState)
  recover_settled id z random_id now st = if is_recovered_status z.status then ok (st, z) else do
    let runtime_status = truthy (text_at "runtimeStatus" z.last_entry.safe_metadata)
    guard (not (inherited runtime_status)) SessionError.invalid_entry_type
    follow_up id (recovery_entry runtime_status z.pending_action) random_id now st

  -- the interruption of the action is on the path
  abbrev pub is_settled_uncertain : Unmatched → Bool
  is_settled_uncertain u =
      is_missing (truthy u.masking_terminal_parent_entry_id) && u.already_interrupted

  unfoldable pub recover :
      String
      → List Entry
      → String
      → String
      → Store
      → Result SessionError (Store × ProjectedSessionState)
  recover id active random_id now st = elim (find_unmatched_started_action active) [
    | some u ↦
        if is_settled_uncertain u
        then (do z ← lift_ledger (project host.parses_date active); ok (st, z))
        else append_then_project id (unmatched_input u) random_id now st
    | none ↦ do
      z ← lift_ledger (project host.parses_date active)
      recover_settled id z random_id now st
  ]

  unfoldable pub recover_session :
      String → String → String → Store → Result SessionError (Store × ProjectedSessionState)
  recover_session id random_id now st = do
    session ← require_session id st
    active ← load_active_path host id st
    recover session.id active random_id now st
