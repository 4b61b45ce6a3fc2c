-- ===== src/ControlPlane/Supervisor/Examples.antt =====
-- The theorems on tasks at a concrete task
-- (packages/multi-agent-runtime/src/control-plane/supervisor.ts).
use qodex.Common.{
  ◌≡◌, refl, ◌≤◌, Bool, true, false, Option, none, some, List, [], ◌∷◌, ok, All, length, Result,
  err, Distinct,
}
use qodex.ControlPlane.Governance.{GovernanceTier, GovernanceMode}
use qodex.ControlPlane.Supervisor.Data.{
  ControlPlaneTaskInput, AgentBackend, AgentBackendCapabilities, ReviewFinding, Severity,
  SupervisorError, SupervisorClassification, AdmittedBackend, WorkerRun,
}
use qodex.ControlPlane.Supervisor.Workers.{WorkerEvent}
use qodex.ControlPlane.Supervisor.Findings.{FindingHost}
use qodex.ControlPlane.Supervisor.Matching.{match_findings}
use qodex.ControlPlane.Supervisor.Bounds.{match_findings-bounded}
use qodex.ControlPlane.Supervisor.Reconciliation.{
  ControlPlaneTaskResult, WorkerScript, run_parallel, ControlPlaneTaskStatus, run_script,
  reconcile_worker_results,
}
use qodex.ControlPlane.Supervisor.Promises.{Accountable, run_parallel-Accountable}
use qodex.Common.Text.{is_blank}
use qodex.ControlPlane.Supervisor.Tables.{agent_ids}
use qodex.ControlPlane.Supervisor.Agreement.{Agrees, reconcile_worker_results-Agrees}

abbrev example_finding_host : FindingHost
example_finding_host = record {
  lower = λ text. text;
  sorted = λ files. files;
  rounded = λ part whole. "0.5";
}

abbrev cache_finding : ReviewFinding
cache_finding = record {
  finding = "cache entries never expire";
  evidence = "src/cache.ts";
  severity = Severity.high;
  smallest_fix = "expire cache entries";
  files = "./src/cache.ts" ∷ [];
}

match_findings-bounded_example :
    (length (
        match_findings example_finding_host "a" "b"
          (cache_finding ∷ [])
          (cache_finding ∷ cache_finding ∷ [])
          [])
      ≤ length (cache_finding ∷ []))
    × (length (
          match_findings example_finding_host "a" "b"
            (cache_finding ∷ [])
            (cache_finding ∷ cache_finding ∷ [])
            [])
        ≤ length (cache_finding ∷ cache_finding ∷ []))
match_findings-bounded_example =
    match_findings-bounded example_finding_host "a" "b" (cache_finding ∷ [])
      (cache_finding ∷ cache_finding ∷ [])

abbrev example_task : ControlPlaneTaskInput
example_task = record {
  task_id = "task-1";
  title = "Review";
  workspace = "workspace";
  prompt = "Review the cache";
  workers =
      some (record { backend_id = "first"; session_id = none; governance_required = true } ∷ []);
}

abbrev example_capabilities : AgentBackendCapabilities
example_capabilities = record {
  supports_streaming = true;
  supports_cancel = false;
  supports_tool_events = true;
  governance_tier = GovernanceTier.governed;
  governance_mode = GovernanceMode.host_dispatch;
  supports_resume = false;
}

abbrev example_backends : List AgentBackend
example_backends =
    record {
      id = "first";
      kind = "one";
      probe = some (record { version = "1"; model = none; capabilities = example_capabilities });
    }
    ∷ record {
      id = "second";
      kind = "two";
      probe = some (record { version = "2"; model = none; capabilities = example_capabilities });
    }
    ∷ []

abbrev completing_script : WorkerScript
completing_script = record {
  queued_at = "10:00";
  starting_at = "10:01";
  running_at = "10:02";
  events =
      WorkerEvent.replied
        (record {
          result = record { findings = cache_finding ∷ []; raw_result_reference = "raw" };
          governance_evidence = [];
        })
        "10:03"
      ∷ [];
}

abbrev failing_script : WorkerScript
failing_script = record {
  queued_at = "10:00";
  starting_at = "10:01";
  running_at = "10:02";
  events = WorkerEvent.raised "the backend failed" "10:03" ∷ [];
}

abbrev Produced : Type 0
Produced = Result SupervisorError (Option ControlPlaneTaskResult)

blank_result : ControlPlaneTaskResult
blank_result = record {
  task_id = "";
  title = "";
  status = ControlPlaneTaskStatus.failed;
  started_at = "";
  ended_at = "";
  workers = [];
  reconciliation = record {
    classification = SupervisorClassification.unresolved;
    shared_files = [];
    matched_findings = [];
    agent_only_files = [];
  };
}

result_of : Produced → ControlPlaneTaskResult
result_of (ok (some result)) = result
result_of _ = blank_result

is_produced : Produced → Bool
is_produced (ok (some result)) = true
is_produced _ = false

is_produced-result_of : (m : Produced) → is_produced m ≡ true → m ≡ ok (some (result_of m))
unfolding is_produced result_of
is_produced-result_of (ok (some result)) h = refl
is_produced-result_of (ok none) h = cc
is_produced-result_of (err e) h = cc

abbrev example_run : Produced
example_run =
    run_parallel example_finding_host example_task example_backends "10:00" "10:05"
      completing_script failing_script

example_run-is_produced : is_produced example_run ≡ true
unfolding run_parallel is_produced is_blank
example_run-is_produced = refl

run_parallel-Accountable_example : All (Accountable example_task) (result_of example_run).workers
run_parallel-Accountable_example =
    run_parallel-Accountable example_task example_finding_host example_backends "10:00" "10:05"
      completing_script failing_script (result_of example_run)
      (is_produced-result_of example_run example_run-is_produced)

abbrev first_admitted : AdmittedBackend
first_admitted = record {
  backend = record { id = "first"; kind = "one"; probe = none };
  admission = record { version = "1"; model = none; capabilities = example_capabilities };
  requirement = record { backend_id = "first"; session_id = none; governance_required = false };
}

abbrev first_worker : WorkerRun
first_worker = run_script example_task first_admitted "1" completing_script

abbrev second_worker : WorkerRun
second_worker =
    run_script example_task
      (record first_admitted { backend = record { id = "second"; kind = "two"; probe = none } }) "2"
      completing_script

abbrev third_worker : WorkerRun
third_worker =
    run_script example_task
      (record first_admitted { backend = record { id = "third"; kind = "three"; probe = none } })
      "3" completing_script

abbrev three_workers : List WorkerRun
three_workers = first_worker ∷ second_worker ∷ third_worker ∷ []

workers-agree :
    (reconcile_worker_results example_finding_host three_workers).classification
    ≡ SupervisorClassification.agreement
unfolding reconcile_worker_results run_script
workers-agree = refl

workers-Distinct : Distinct (agent_ids three_workers)
unfolding run_script
workers-Distinct = (refl, (refl, (refl, tt)))

reconcile_worker_results-Agrees_example :
    Agrees three_workers (reconcile_worker_results example_finding_host three_workers)
reconcile_worker_results-Agrees_example =
    reconcile_worker_results-Agrees example_finding_host (λ files file. refl) three_workers
      workers-Distinct workers-agree
