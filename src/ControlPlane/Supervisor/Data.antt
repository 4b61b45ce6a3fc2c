-- ===== src/ControlPlane/Supervisor/Data.antt =====
-- The types of a control-plane task (packages/multi-agent-runtime/src/control-plane/types.ts).
use qodex.Common.{String, Bool, Option, List}
use qodex.ControlPlane.Governance.{GovernanceTier, GovernanceMode, Evidence}

pub data WorkerRunStatus : Type 0 where
  queued starting running completed failed cancelled unsettled : WorkerRunStatus

pub data SupervisorClassification : Type 0 where
  agreement partial_agreement disagreement unresolved : SupervisorClassification

pub record AgentBackendCapabilities : Type 0 where
  pub supports_streaming : Bool
  pub supports_cancel : Bool
  pub supports_tool_events : Bool
  pub governance_tier : GovernanceTier
  pub governance_mode : GovernanceMode
  pub supports_resume : Bool

pub record AgentBackendAdmission : Type 0 where
  pub version : String
  pub model : Option String
  pub capabilities : AgentBackendCapabilities

-- a `governanceRequired` that is missing is `false`
pub record ControlPlaneWorkerRequirement : Type 0 where
  pub backend_id : String
  pub session_id : Option String
  pub governance_required : Bool

pub record ControlPlaneTaskInput : Type 0 where
  pub task_id : String
  pub title : String
  pub workspace : String
  pub prompt : String
  pub workers : Option (List ControlPlaneWorkerRequirement)

-- what `probeCapabilities` answers is a part of the backend; `none` when it throws
pub record AgentBackend : Type 0 where
  pub id : String
  pub kind : String
  pub probe : Option AgentBackendAdmission

pub record AdmittedBackend : Type 0 where
  pub backend : AgentBackend
  pub admission : AgentBackendAdmission
  pub requirement : ControlPlaneWorkerRequirement

pub data Severity : Type 0 where
  critical high medium low : Severity

pub record ReviewFinding : Type 0 where
  pub finding : String
  pub evidence : String
  pub severity : Severity
  pub smallest_fix : String
  pub files : List String

pub record AgentTaskResult : Type 0 where
  pub findings : List ReviewFinding
  pub raw_result_reference : String

pub record AgentBackendTaskOutput : Type 0 where
  pub result : AgentTaskResult
  pub governance_evidence : List Evidence

pub data ObservationKind : Type 0 where
  process_started tool_observed message_observed process_completed : ObservationKind

pub record AgentObservation : Type 0 where
  pub kind : ObservationKind
  pub at : String
  pub summary : String

pub record WorkerLifecycleEntry : Type 0 where
  pub status : WorkerRunStatus
  pub at : String
  pub summary : String

pub record WorkerGovernance : Type 0 where
  pub tier : GovernanceTier
  pub mode : GovernanceMode
  pub evidence : List Evidence

pub record WorkerRun : Type 0 where
  pub run_id : String
  pub task_id : String
  pub session_id : Option String
  pub agent_id : String
  pub agent_kind : String
  pub agent_version : String
  pub model : Option String
  pub capabilities : AgentBackendCapabilities
  pub governance : WorkerGovernance
  pub status : WorkerRunStatus
  pub started_at : String
  pub ended_at : String
  pub lifecycle : List WorkerLifecycleEntry
  pub observations : List AgentObservation
  pub result : Option AgentTaskResult
  pub error : Option String

-- One constructor for each `throw`.
pub data SupervisorError : Type 0 where
  empty_task_field worker_limit duplicate_backend duplicate_kind : SupervisorError
  duplicate_requirement unknown_backend empty_session probe_failed : SupervisorError
  empty_version ungoverned_tier opaque_mode governance_admission : SupervisorError
