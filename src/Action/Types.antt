-- ===== src/Action/Types.antt =====
-- packages/action-runtime/src/types.ts and src/errors.ts: proposals, approvals, decisions,
-- receipts and outcomes of actions. A `JsonValue` is the session package's `Json`.
use qodex.Common.{String, Option}
use qodex.Session.Json.{Number, Json}

pub data ActionRisk : Type 0 where
  read write process network external : ActionRisk

pub record ActionProposalInput : Type 0 where
  pub action_id : String
  pub task_id : String
  pub session_id : Option String
  pub action_type : String
  pub title : String
  pub summary : String
  pub risk : ActionRisk
  pub parameters : Json
  pub requested_at : String

pub record ActionProposal : Type 0 where
  pub schema_version : String
  pub content : ActionProposalInput
  pub open content use *
  pub proposal_digest : String

pub record ActionApproval : Type 0 where
  pub approval_id : String
  pub action_id : String
  pub task_id : String
  pub proposal_digest : String
  pub generation : Number
  pub approved_at : String
  pub expires_at : String

pub data Verdict : Type 0 where
  allow deny hold error : Verdict

pub record ActionDecision : Type 0 where
  pub decision_id : String
  pub action_id : String
  pub decision : Verdict
  pub reason_code : String
  pub summary : String
  pub policy_version : String
  pub evidence : Json
  pub decided_at : String

pub record ActionStarted : Type 0 where
  pub action_id : String
  pub approval_id : String
  pub decision_id : String
  pub execution_receipt_id : String
  pub started_at : String

pub data OutcomeStatus : Type 0 where
  completed failed cancelled unknown_or_interrupted : OutcomeStatus

pub record OutcomeError : Type 0 where
  pub code : String
  pub message : String

pub record ActionOutcome : Type 0 where
  pub action_id : String
  pub execution_receipt_id : String
  pub status : OutcomeStatus
  pub result : Option Json
  pub error : Option OutcomeError
  pub settled_at : String

pub data ActionState : Type 0 where
  proposed awaiting_approval approved evaluating allowed denied held : ActionState
  decision_error starting running completed failed cancelled interrupted : ActionState

pub record ActionSnapshot : Type 0 where
  pub proposal : ActionProposal
  pub state : ActionState
  pub approval : Option ActionApproval
  pub decision : Option ActionDecision
  pub started : Option ActionStarted
  pub outcome : Option ActionOutcome

pub data ErrorCode : Type 0 where
  invalid_proposal invalid_approval invalid_decision invalid_started invalid_outcome : ErrorCode
  duplicate_action action_not_found invalid_transition approval_mismatch : ErrorCode
  approval_expired approval_generation_mismatch decision_mismatch duplicate_decision : ErrorCode
  unknown_action dispatch_barrier_failed duplicate_dispatch duplicate_terminal_outcome : ErrorCode

-- the code as it is written into a local decision
unfoldable pub code_text : ErrorCode → String
code_text ErrorCode.invalid_proposal = "invalid_proposal"
code_text ErrorCode.invalid_approval = "invalid_approval"
code_text ErrorCode.invalid_decision = "invalid_decision"
code_text ErrorCode.invalid_started = "invalid_started"
code_text ErrorCode.invalid_outcome = "invalid_outcome"
code_text ErrorCode.duplicate_action = "duplicate_action"
code_text ErrorCode.action_not_found = "action_not_found"
code_text ErrorCode.invalid_transition = "invalid_transition"
code_text ErrorCode.approval_mismatch = "approval_mismatch"
code_text ErrorCode.approval_expired = "approval_expired"
code_text ErrorCode.approval_generation_mismatch = "approval_generation_mismatch"
code_text ErrorCode.decision_mismatch = "decision_mismatch"
code_text ErrorCode.duplicate_decision = "duplicate_decision"
code_text ErrorCode.unknown_action = "unknown_action"
code_text ErrorCode.dispatch_barrier_failed = "dispatch_barrier_failed"
code_text ErrorCode.duplicate_dispatch = "duplicate_dispatch"
code_text ErrorCode.duplicate_terminal_outcome = "duplicate_terminal_outcome"
