-- ===== src/ControlPlane/Supervisor/Reconciliation.antt =====
-- `reconcileWorkerResults` and `runParallel`
-- (packages/multi-agent-runtime/src/control-plane/supervisor.ts).
use qodex.Common.{
  ℕ, String, Bool, true, false, not, ◌&&◌, ◌||◌, Option, none, some, List, [], ◌∷◌, ◌++◌, all, any,
  has, length, eqb, if◌then◌else◌, Result, ok, ◌>>=◌, ◌>>◌,
}
use qodex.Common.Maps.{Table, insert}
use qodex.ControlPlane.Supervisor.Data.{
  WorkerRunStatus, SupervisorClassification, ControlPlaneTaskInput, AgentBackend, AdmittedBackend,
  ReviewFinding, AgentTaskResult, WorkerRun, SupervisorError,
}
use qodex.ControlPlane.Supervisor.Admission.{validate_task, validate_backends, admit_backends}
use qodex.ControlPlane.Supervisor.Workers.{WorkerEvent, create_worker, run_worker, is_settled}
use qodex.ControlPlane.Supervisor.Findings.{
  FindingHost, MatchedFindingPair, finding_files, unique, keep_if,
}
use qodex.ControlPlane.Supervisor.Matching.{is_empty, match_findings}

-- the text of the summary is not modelled
pub record ReconciliationResult : Type 0 where
  pub classification : SupervisorClassification
  pub shared_files : List String
  pub matched_findings : List MatchedFindingPair
  pub agent_only_files : Table (List String)

pub data ControlPlaneTaskStatus : Type 0 where
  completed failed : ControlPlaneTaskStatus

pub record ControlPlaneTaskResult : Type 0 where
  pub task_id : String
  pub title : String
  pub status : ControlPlaneTaskStatus
  pub started_at : String
  pub ended_at : String
  pub workers : List WorkerRun
  pub reconciliation : ReconciliationResult

-- what the clock answers for a worker, and what its backend does
pub record WorkerScript : Type 0 where
  pub queued_at : String
  pub starting_at : String
  pub running_at : String
  pub events : List WorkerEvent

unfoldable is_completed : WorkerRunStatus → Bool
is_completed WorkerRunStatus.completed = true
is_completed _ = false

abbrev pub findings_in : Option AgentTaskResult → List ReviewFinding
findings_in none = []
findings_in (some result) = result.findings

unfoldable pub has_result : WorkerRun → Bool
unfolding is_completed
has_result worker =
    is_completed worker.status && elim worker.result [ none ↦ false | some result ↦ true ]

-- `Object.fromEntries` of the files of each worker
unfoldable pub files_by_agent :
    (WorkerRun → List String) → List WorkerRun → Table (List String) → Table (List String)
unfolding insert
files_by_agent files_of [] table = table
files_by_agent files_of (worker ∷ rest) table =
    files_by_agent files_of rest (insert worker.agent_id (files_of worker) table)

unfoldable pub unresolved : List WorkerRun → ReconciliationResult
unfolding files_by_agent
unresolved workers = record {
  classification = SupervisorClassification.unresolved;
  shared_files = [];
  matched_findings = [];
  agent_only_files = files_by_agent (λ worker. []) workers [];
}

-- the workers that completed with a result
unfoldable pub completed_workers : List WorkerRun → List WorkerRun
unfolding has_result
completed_workers [] = []
completed_workers (worker ∷ rest) =
    let others = completed_workers rest in if has_result worker then worker ∷ others else others

unfoldable files_in_findings : List ReviewFinding → List String
unfolding finding_files
files_in_findings [] = []
files_in_findings (finding ∷ rest) = finding_files finding ++ files_in_findings rest

unfoldable pub file_set : WorkerRun → List String
unfolding files_in_findings unique
file_set worker = unique (files_in_findings (findings_in worker.result))

abbrev pub is_none_left : Table (List String) → Bool
is_none_left table = all (λ (entry : String × List String). is_empty entry.1) table

unfoldable pub classify : ℕ → ℕ → ℕ → Table (List String) → SupervisorClassification
classify matched lefts rights only =
    if eqb matched 0
    then SupervisorClassification.disagreement
    else if eqb matched lefts && (eqb matched rights && is_none_left only)
    then SupervisorClassification.agreement
    else SupervisorClassification.partial_agreement

unfoldable pub run_script :
    ControlPlaneTaskInput → AdmittedBackend → String → WorkerScript → WorkerRun
unfolding run_worker create_worker
run_script input admitted number script =
    run_worker script.starting_at script.running_at script.events
      (create_worker input admitted number script.queued_at)

module _ (host : FindingHost) where
  -- the files of the first worker that all others name
  unfoldable pub shared_of : WorkerRun → List WorkerRun → List String
  unfolding keep_if file_set
  shared_of left others = host.sorted (
      keep_if (λ file. all (λ (worker : WorkerRun). has file (file_set worker)) others)
        (file_set left))

  unfoldable pub own_files : List String → WorkerRun → List String
  unfolding keep_if file_set
  own_files shared worker = host.sorted (keep_if (λ file. not (has file shared)) (file_set worker))

  -- the comparison of workers that all have a result; the findings of the first two are matched
  unfoldable pub compared : WorkerRun → WorkerRun → List WorkerRun → ReconciliationResult
  unfolding match_findings classify own_files shared_of files_by_agent
  compared left right rest =
      let shared = shared_of left (right ∷ rest) in
      let only = files_by_agent (own_files shared) (left ∷ right ∷ rest) [] in
      let lefts = findings_in left.result in
      let rights = findings_in right.result in
      let pairs = match_findings host left.agent_id right.agent_id lefts rights [] in
      record {
        classification = classify (length pairs) (length lefts) (length rights) only;
        shared_files = shared;
        matched_findings = pairs;
        agent_only_files = only;
      }

  unfoldable pub compare_workers : List WorkerRun → List WorkerRun → ReconciliationResult
  unfolding compared unresolved file_set
  compare_workers workers (left ∷ right ∷ rest) =
      if not (eqb (length (left ∷ right ∷ rest)) (length workers))
        || any (λ (worker : WorkerRun). is_empty (file_set worker)) (left ∷ right ∷ rest)
      then unresolved workers
      else compared left right rest
  compare_workers workers _ = unresolved workers

  unfoldable pub reconcile_worker_results : List WorkerRun → ReconciliationResult
  unfolding completed_workers compare_workers unresolved
  reconcile_worker_results workers = compare_workers workers (completed_workers workers)

  -- `none` while a worker is running
  unfoldable pub task_result :
      ControlPlaneTaskInput
      → (started_at ended_at : String) → WorkerRun
      → WorkerRun
      → Option ControlPlaneTaskResult
  unfolding reconcile_worker_results is_completed is_settled
  task_result input started_at ended_at left right =
      let completed = is_completed left.status && is_completed right.status in
      if is_settled left.status && is_settled right.status
      then some (record {
        task_id = input.task_id;
        title = input.title;
        status =
            if completed then ControlPlaneTaskStatus.completed else ControlPlaneTaskStatus.failed;
        started_at = started_at;
        ended_at = ended_at;
        workers = left ∷ right ∷ [];
        reconciliation = reconcile_worker_results (left ∷ right ∷ []);
      })
      else none

  unfoldable pub run_admitted :
      ControlPlaneTaskInput
      → List AdmittedBackend
      → (started_at ended_at : String) → WorkerScript
      → WorkerScript
      → Option ControlPlaneTaskResult
  unfolding task_result run_script
  run_admitted input (left ∷ right ∷ []) started_at ended_at first second =
      task_result input started_at ended_at (run_script input left "1" first)
        (run_script input right "2" second)
  run_admitted input _ started_at ended_at first second = none

  unfoldable pub run_parallel :
      ControlPlaneTaskInput
      → List AgentBackend
      → (started_at ended_at : String) → WorkerScript
      → WorkerScript
      → Result SupervisorError (Option ControlPlaneTaskResult)
  unfolding validate_task validate_backends admit_backends run_admitted
  run_parallel input backends started_at ended_at first second = do
    validate_task input
    validate_backends backends
    admitted ← admit_backends input backends
    ok (run_admitted input admitted started_at ended_at first second)
