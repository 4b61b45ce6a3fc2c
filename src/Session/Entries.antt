-- ===== src/Session/Entries.antt =====
-- The ledger's entries (packages/session-runtime/src/types.ts), and what the projector reads of
-- one entry (the functions at the end of src/projector.ts).
use qodex.Common.{
  ℕ, String, Bool, true, false, ◌&&◌, Option, none, some, ◌==◌, if◌then◌else◌, Result, guard, ◌>>=◌,
  require,
}
use qodex.Common.Text.{is_blank}
use qodex.Session.Json.{
  Json, str, Fields, get, text_at, natural_at, fields_of, payload_at, payload_text, same_value,
}

pub data SessionStatus : Type 0 where
  active recovery_required interrupted completed failed cancelled limit_reached : SessionStatus

pub data EventType : Type 0 where
  session_created user_message model_message tool_requested tool_completed : EventType
  action_proposed action_approved action_decided action_denied action_started : EventType
  action_completed action_failed artifact_created delivery_completed : EventType
  session_interrupted session_failed session_completed session_cancelled : EventType
  session_limit_reached recovery_required recovery_completed : EventType
  patch_proposed patch_approved patch_started patch_applied patch_rejected : EventType
  command_proposed command_approved command_denied command_started command_completed : EventType
  agent_state_changed : EventType

pub record Entry : Type 0 where
  pub id : String
  pub session_id : String
  pub parent_entry_id : Option String
  pub sequence : ℕ
  pub type : EventType
  pub payload_version : ℕ
  pub payload : Json
  pub safe_metadata : Fields
  pub created_at : String

pub data Kind : Type 0 where
  patch command action : Kind

pub data Decision : Type 0 where
  allow deny hold error : Decision

pub data Reason : Type 0 where
  patch_reapproval command_reapproval interrupted : Reason

-- One constructor for each `throw` of src/projector.ts.
pub data LedgerError : Type 0 where
  not_begun duplicate_entry created_again not_ordered terminal_session : LedgerError
  pending_replaced hidden_start no_pending missing_action_id different_action : LedgerError
  approved_after_start approved_twice missing_approval_id approval_reused : LedgerError
  missing_generation stale_reapproval different_generation : LedgerError
  undecidable_kind decided_unapproved decided_after_start decided_twice : LedgerError
  missing_task different_task decision_reused unsupported_decision hold_command : LedgerError
  different_digest invalid_decided_at missing_payload invalid_payload : LedgerError
  denied_after_start unapproved_start started_twice settled_start no_prior_allow : LedgerError
  different_decision missing_receipt different_approval different_kind : LedgerError
  settled_unapproved settled_unstarted settled_twice different_receipt : LedgerError
  not_a_patch not_a_command reapproved_after_start recovery_generation : LedgerError
  recovery_pending : LedgerError
  missing_metadata : String → LedgerError

-- `!text` is also true of the empty text.
abbrev pub truthy : Option String → Option String
truthy none = none
truthy (some s) = if s == "" then none else some s

-- a text that is not blank
nonblank : Option String → Option String
nonblank none = none
nonblank (some s) = if is_blank s then none else some s

unfoldable pub action_id_of : Entry → Option String
action_id_of e = elim (text_at "actionId" e.safe_metadata) [
  | some a ↦ some a
  | none ↦ payload_text "actionId" e.payload
]

unfoldable pub metadata_text : String → Entry → Option String
unfolding nonblank
metadata_text key e = nonblank (text_at key e.safe_metadata)

unfoldable pub required_metadata_text : String → Entry → Result LedgerError String
required_metadata_text key e = require (metadata_text key e) (missing_metadata key)

unfoldable pub approval_id_of : Entry → Option String
approval_id_of e = metadata_text "approvalId" e

unfoldable pub approval_generation_of : Entry → Option ℕ
approval_generation_of e = natural_at "approvalGeneration" e.safe_metadata

unfoldable pub execution_receipt_id_of : Entry → Option String
execution_receipt_id_of e = metadata_text "executionReceiptId" e

decision_named : String → Option Decision
decision_named s =
    if s == "allow"
    then some allow
    else if s == "deny"
    then some deny
    else if s == "hold"
    then some hold
    else if s == "error"
    then some error
    else none

unfoldable pub decision_of : Entry → Option Decision
unfolding decision_named
decision_of e = elim (text_at "decision" e.safe_metadata) [
  | none ↦ none
  | some s ↦ decision_named s
]

unfoldable pub entry_kind : EventType → Option Kind
entry_kind patch_proposed = some patch
entry_kind patch_approved = some patch
entry_kind patch_started = some patch
entry_kind patch_applied = some patch
entry_kind patch_rejected = some patch
entry_kind command_proposed = some command
entry_kind command_approved = some command
entry_kind command_denied = some command
entry_kind command_started = some command
entry_kind command_completed = some command
entry_kind action_proposed = some action
entry_kind action_approved = some action
entry_kind action_decided = some action
entry_kind action_denied = some action
entry_kind action_started = some action
entry_kind action_completed = some action
entry_kind action_failed = some action
entry_kind _ = none

unfoldable pub recovery_reason : Json → Reason
recovery_reason payload =
    if same_value (payload_at "reason" payload) (some (str "patch_reapproval"))
    then patch_reapproval
    else if same_value (payload_at "reason" payload) (some (str "command_reapproval"))
    then command_reapproval
    else interrupted

unfoldable pub proposal_digest_of : Entry → Option String
unfolding nonblank
proposal_digest_of e = elim (metadata_text "proposalDigest" e) [
  | some d ↦ some d
  | none ↦ nonblank (payload_text "proposalDigest" e.payload)
]

-- `!isRecord(payload.evidence)`
has_evidence : Json → Bool
has_evidence payload = elim (payload_at "evidence" payload) [
  | none ↦ false
  | some v ↦ elim (fields_of v) [ none ↦ false | some fs ↦ true ]
]

unfoldable pub require_command_decision_payload :
    Entry → String → String → String → Result LedgerError (Unit {0})
unfolding has_evidence
require_command_decision_payload e proposal_digest reason_code decided_at = do
  fs ← require (fields_of e.payload) missing_payload
  guard
      (same_value (get "actionId" fs) (get "actionId" e.safe_metadata)
        && same_value (get "proposalDigest" fs) (some (str proposal_digest))
        && same_value (get "decision" fs) (get "decision" e.safe_metadata)
        && same_value (get "reasonCode" fs) (some (str reason_code))
        && same_value (get "decidedAt" fs) (some (str decided_at))
        && has_evidence e.payload)
      invalid_payload
