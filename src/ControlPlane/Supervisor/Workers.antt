-- ===== src/ControlPlane/Supervisor/Workers.antt =====
-- A worker from `createWorker` through `runWorker`
-- (packages/multi-agent-runtime/src/control-plane/supervisor.ts). Workers share nothing, so the
-- events of each are a list of their own; a copy that is frozen is the value itself.
use Prim.Native.String.{◌++◌ as ◌+++◌}
use qodex.Common.{
  String, Bool, true, false, ◌&&◌, none, some, List, [], ◌∷◌, ◌++◌, all, ◌==◌, if◌then◌else◌,
}
use qodex.ControlPlane.Governance.{Evidence}
use qodex.ControlPlane.Supervisor.Data.{
  WorkerRunStatus, ControlPlaneTaskInput, AdmittedBackend, AgentBackendTaskOutput, AgentObservation,
  WorkerRun,
}

-- What a backend does after `startTask`: it observes, and it answers or throws once. What it does
-- after that reaches the observations only.
pub data WorkerEvent : Type 0 where
  observed : AgentObservation → WorkerEvent
  replied : AgentBackendTaskOutput → (at : String) → WorkerEvent
  raised : (message : String) → (at : String) → WorkerEvent

-- `number` is the text of the index and one
unfoldable pub create_worker :
    ControlPlaneTaskInput → AdmittedBackend → (number : String) → (at : String) → WorkerRun
create_worker input admitted number at = record {
  run_id = input.task_id +++ (":worker:" +++ number);
  task_id = input.task_id;
  session_id = admitted.requirement.session_id;
  agent_id = admitted.backend.id;
  agent_kind = admitted.backend.kind;
  agent_version = admitted.admission.version;
  model = admitted.admission.model;
  capabilities = admitted.admission.capabilities;
  governance = record {
    tier = admitted.admission.capabilities.governance_tier;
    mode = admitted.admission.capabilities.governance_mode;
    evidence = [];
  };
  status = WorkerRunStatus.queued;
  started_at = at;
  ended_at = at;
  lifecycle =
      record {
        status = WorkerRunStatus.queued;
        at = at;
        summary = "Worker queued by the supervisor.";
      }
      ∷ [];
  observations = [];
  result = none;
  error = none;
}

abbrev pub transition : WorkerRunStatus → (at : String) → (summary : String) → WorkerRun → WorkerRun
transition status at summary worker = record worker {
  status = status;
  lifecycle = worker.lifecycle ++ record { status = status; at = at; summary = summary } ∷ [];
}

unfoldable pub start_worker : (starting : String) → (running : String) → WorkerRun → WorkerRun
start_worker starting running worker =
    transition WorkerRunStatus.running running "Agent backend is running."
      (record (transition WorkerRunStatus.starting starting "Starting the admitted agent backend."
        worker) { started_at = starting })

unfoldable pub names_worker : WorkerRun → Evidence → Bool
names_worker worker evidence =
    evidence.task_id == worker.task_id
    && (evidence.worker_run_id == worker.run_id
        && (evidence.agent_id == worker.agent_id
            && (evidence.agent_kind == worker.agent_kind
                && evidence.agent_version == worker.agent_version)))

unfoldable pub fail_worker : (message : String) → (at : String) → WorkerRun → WorkerRun
fail_worker message at worker =
    record (transition WorkerRunStatus.failed at message (record worker { error = some message })) {
      ended_at = at;
    }

-- `attachOutput`, and what `runWorker` does behind it
unfoldable pub complete_worker : AgentBackendTaskOutput → (at : String) → WorkerRun → WorkerRun
unfolding names_worker fail_worker
complete_worker output at worker =
    if all (names_worker worker) output.governance_evidence
    then record (transition WorkerRunStatus.completed at "Agent returned a structured result."
        worker) {
          result = some output.result;
          governance = record worker.governance { evidence = output.governance_evidence };
          ended_at = at;
        }
    else fail_worker "Agent governance evidence does not match its worker identity." at worker

unfoldable pub is_settled : WorkerRunStatus → Bool
is_settled WorkerRunStatus.completed = true
is_settled WorkerRunStatus.failed = true
is_settled _ = false

unfoldable pub on_worker_event : WorkerEvent → WorkerRun → WorkerRun
unfolding complete_worker fail_worker is_settled
on_worker_event (WorkerEvent.observed o) worker = record worker {
  observations = worker.observations ++ o ∷ [];
}
on_worker_event (WorkerEvent.replied output at) worker =
    if is_settled worker.status then worker else complete_worker output at worker
on_worker_event (WorkerEvent.raised message at) worker =
    if is_settled worker.status then worker else fail_worker message at worker

unfoldable pub drive_worker : List WorkerEvent → WorkerRun → WorkerRun
unfolding on_worker_event
drive_worker [] worker = worker
drive_worker (event ∷ events) worker = drive_worker events (on_worker_event event worker)

-- `runWorker`
unfoldable pub run_worker :
    (starting : String) → (running : String) → List WorkerEvent → WorkerRun → WorkerRun
unfolding start_worker drive_worker
run_worker starting running events worker =
    drive_worker events (start_worker starting running worker)
