-- ===== src/Session/Projector/State.antt =====
-- The state of a projection (packages/session-runtime/src/types.ts, and the local variables of
-- `SessionProjector.project` in src/projector.ts).
use qodex.Common.{ℕ, String, Bool, true, false, Option, none, some, List, [], ◌==◌, Result}
use qodex.Session.Json.{Json, null}
use qodex.Session.Entries.{SessionStatus, Kind, Decision, Reason, LedgerError}

pub record PendingAction : Type 0 where
  pub kind : Kind
  pub action_id : String
  pub task_id : Option String
  pub proposal_digest : Option String
  pub proposal_entry_id : String
  pub payload : Json
  pub approved : Bool
  pub started : Bool
  pub settled : Bool
  pub approval_id : Option String
  pub approval_generation : ℕ
  pub decision_recorded : Bool
  pub decision_id : Option String
  pub decision : Option Decision
  pub reason_code : Option String
  pub decided_at : Option String
  pub policy_version : Option String
  pub decision_schema_version : Option String
  pub agent_fuse_commit : Option String
  pub execution_receipt_id : Option String
  pub recovery_required : Bool
  pub stale : Bool

pub record RecoveryRequirement : Type 0 where
  pub reason : Reason
  pub execution_status : Option String

-- the variables of `project`
pub record State : Type 0 where
  pub seen : List String
  pub approval_ids : List String
  pub decision_ids : List String
  pub status : SessionStatus
  pub pending_action : Option PendingAction
  pub recovery_requirement : Option RecoveryRequirement
  pub message_count : ℕ
  pub tool_call_count : ℕ
  pub patch_count : ℕ
  pub command_count : ℕ
  pub artifact_count : ℕ
  pub last_command_result : Json
  pub completed_at : Option String

abbrev pub initial : State
initial = record {
  seen = [];
  approval_ids = [];
  decision_ids = [];
  status = SessionStatus.active;
  pending_action = none;
  recovery_requirement = none;
  message_count = 0;
  tool_call_count = 0;
  patch_count = 0;
  command_count = 0;
  artifact_count = 0;
  last_command_result = null;
  completed_at = none;
}

abbrev pub Step : Type 0
Step = Result LedgerError State

-- `TERMINAL.has`
unfoldable pub is_terminal : SessionStatus → Bool
is_terminal SessionStatus.completed = true
is_terminal SessionStatus.failed = true
is_terminal SessionStatus.cancelled = true
is_terminal SessionStatus.limit_reached = true
is_terminal _ = false

abbrev pub kind_eq : Kind → Kind → Bool
kind_eq Kind.patch Kind.patch = true
kind_eq Kind.command Kind.command = true
kind_eq Kind.action Kind.action = true
kind_eq _ _ = false

abbrev pub is_allow : Option Decision → Bool
is_allow (some Decision.allow) = true
is_allow _ = false

abbrev pub is_hold : Decision → Bool
is_hold Decision.hold = true
is_hold _ = false

-- `a === b` of an identifier that may be null and one that is not
abbrev pub is_text : Option String → String → Bool
is_text none t = false
is_text (some s) t = s == t

abbrev pub is_missing {ℓ} : {A : Type ℓ} → Option A → Bool
is_missing none = true
is_missing (some a) = false
