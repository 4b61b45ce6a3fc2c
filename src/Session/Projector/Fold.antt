-- ===== src/Session/Projector/Fold.antt =====
-- `SessionProjector.project` of packages/session-runtime/src/projector.ts: the loop over the
-- entries, its checks and its switch.
use qodex.Common.{
  ℕ, String, Bool, true, false, not, Option, none, some, List, [], ◌∷◌, ◌+◌, leb, has, Result, ok,
  err, guard, ◌>>=◌, ◌>>◌,
}
use qodex.Session.Json.{Json}
use qodex.Session.Entries.{SessionStatus, EventType, Entry, Kind, LedgerError}
use qodex.Session.Projector.State.{
  PendingAction, RecoveryRequirement, State, Step, initial, is_terminal,
}
use qodex.Session.Projector.Checks.{proposed, require_no_pending}
use qodex.Session.Projector.Steps.{
  approve, decide, deny, start, complete, complete_command, fail, require_recovery, finish_recovery,
  interrupt, close,
}

-- case ACTION_PROPOSED, PATCH_PROPOSED, COMMAND_PROPOSED, after the counter
unfoldable pub propose : Kind → Entry → State → Step
propose kind e s = do
  require_no_pending s.pending_action
  p ← proposed e kind
  ok (record s { pending_action = some p })

-- the switch
unfoldable pub dispatch : (String → Bool) → EventType → Entry → State → Step
dispatch pd EventType.session_created e s = ok s
dispatch pd EventType.tool_completed e s = ok s
dispatch pd EventType.agent_state_changed e s = ok s
dispatch pd EventType.user_message e s = ok (record s { message_count = s.message_count + 1 })
dispatch pd EventType.model_message e s = ok (record s { message_count = s.message_count + 1 })
dispatch pd EventType.tool_requested e s = ok (record s { tool_call_count = s.tool_call_count + 1 })
dispatch pd EventType.artifact_created e s = ok (record s { artifact_count = s.artifact_count + 1 })
dispatch pd EventType.action_proposed e s = propose Kind.action e s
dispatch pd EventType.patch_proposed e s =
    propose Kind.patch e (record s { patch_count = s.patch_count + 1 })
dispatch pd EventType.command_proposed e s =
    propose Kind.command e (record s { command_count = s.command_count + 1 })
dispatch pd EventType.action_approved e s = approve e s
dispatch pd EventType.patch_approved e s = approve e s
dispatch pd EventType.command_approved e s = approve e s
dispatch pd EventType.action_decided e s = decide pd e s
dispatch pd EventType.action_denied e s = deny e s
dispatch pd EventType.patch_rejected e s = deny e s
dispatch pd EventType.command_denied e s = deny e s
dispatch pd EventType.action_started e s = start e s
dispatch pd EventType.patch_started e s = start e s
dispatch pd EventType.command_started e s = start e s
dispatch pd EventType.action_completed e s = complete e s
dispatch pd EventType.patch_applied e s = complete e s
dispatch pd EventType.command_completed e s = complete_command e s
dispatch pd EventType.action_failed e s = fail e s
dispatch pd EventType.recovery_required e s = require_recovery e s
dispatch pd EventType.recovery_completed e s = finish_recovery s
dispatch pd EventType.session_interrupted e s = interrupt s
dispatch pd EventType.session_completed e s = close SessionStatus.completed e s
dispatch pd EventType.delivery_completed e s = close SessionStatus.completed e s
dispatch pd EventType.session_failed e s = close SessionStatus.failed e s
dispatch pd EventType.session_cancelled e s = close SessionStatus.cancelled e s
dispatch pd EventType.session_limit_reached e s = close SessionStatus.limit_reached e s

abbrev pub is_created : EventType → Bool
is_created EventType.session_created = true
is_created _ = false

-- the two checks for `index > 0`; `previous` is the entry before, if there is one
unfoldable pub follows : Option Entry → Entry → Result LedgerError (Unit {0})
follows none e = ok tt
follows (some previous) e = do
  guard (not (is_created e.type)) LedgerError.created_again
  guard (not (leb e.sequence previous.sequence)) LedgerError.not_ordered

-- one round of the loop
unfoldable pub step : (String → Bool) → Option Entry → Entry → State → Step
step pd previous e s = do
  guard (not (has e.id s.seen)) LedgerError.duplicate_entry
  follows previous e
  guard (not (is_terminal s.status)) LedgerError.terminal_session
  dispatch pd e.type e (record s { seen = e.id ∷ s.seen })

unfoldable pub run : (String → Bool) → Option Entry → List Entry → State → Step
run pd previous [] s = ok s
run pd previous (e ∷ es) s = do t ← step pd previous e s; run pd (some e) es t

pub record ProjectedSessionState : Type 0 where
  pub status : SessionStatus
  pub last_entry : Entry
  pub pending_action : Option PendingAction
  pub recovery_requirement : Option RecoveryRequirement
  pub message_count : ℕ
  pub tool_call_count : ℕ
  pub patch_count : ℕ
  pub command_count : ℕ
  pub artifact_count : ℕ
  pub last_command_result : Json
  pub started_at : String
  pub updated_at : String
  pub completed_at : Option String

abbrev pub last_of {ℓ} : {A : Type ℓ} → A → List A → A
last_of x [] = x
last_of x (y ∷ ys) = last_of y ys

-- the object that `project` returns
unfoldable pub projected : State → Entry → Entry → ProjectedSessionState
projected s first last = record {
  status = s.status;
  last_entry = last;
  pending_action = s.pending_action;
  recovery_requirement = s.recovery_requirement;
  message_count = s.message_count;
  tool_call_count = s.tool_call_count;
  patch_count = s.patch_count;
  command_count = s.command_count;
  artifact_count = s.artifact_count;
  last_command_result = s.last_command_result;
  started_at = first.created_at;
  updated_at = last.created_at;
  completed_at = s.completed_at;
}

unfoldable pub project : (String → Bool) → List Entry → Result LedgerError ProjectedSessionState
unfolding projected
project pd [] = err LedgerError.not_begun
project pd (first ∷ rest) = do
  guard (is_created first.type) LedgerError.not_begun
  s ← run pd none (first ∷ rest) initial
  ok (projected s first (last_of first rest))
