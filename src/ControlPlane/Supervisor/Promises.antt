-- ===== src/ControlPlane/Supervisor/Promises.antt =====
-- What a task of the supervisor promises of its workers
-- (packages/multi-agent-runtime/src/control-plane/supervisor.ts).
use qodex.Common.{
  ◌≡◌, refl, subst, String, Bool, true, false, not, ◌&&◌, Option, none, some, List, [], ◌∷◌, all,
  All, ok, if◌then◌else◌, guard, require, >>=-eq-ok, guard-not-eq-ok, ok-injective,
}
use qodex.ControlPlane.Supervisor.Data.{
  WorkerRunStatus, ControlPlaneTaskInput, AgentBackend, AdmittedBackend, AgentBackendTaskOutput,
  AgentTaskResult, WorkerRun, SupervisorError,
}
use qodex.ControlPlane.Supervisor.Admission.{
  find_requirement, configured, is_governed, freeze_admission, admit_backend, admit_all,
  admit_backends, check_requirements, validate_task, validate_backends,
}
use qodex.ControlPlane.Supervisor.Workers.{
  WorkerEvent, create_worker, start_worker, names_worker, fail_worker, complete_worker, is_settled,
  on_worker_event, drive_worker, run_worker, transition,
}
use qodex.ControlPlane.Supervisor.Findings.{FindingHost}
use qodex.ControlPlane.Supervisor.Reconciliation.{
  ControlPlaneTaskResult, WorkerScript, task_result, run_script, run_admitted, run_parallel,
}

-- a result is there exactly when the worker completed, an error exactly when it failed
pub Outcome : WorkerRunStatus → Option AgentTaskResult → Option String → Type 0
Outcome WorkerRunStatus.completed result error =
    ((r : AgentTaskResult) × (result ≡ some r)) × (error ≡ none)
Outcome WorkerRunStatus.failed result error = (result ≡ none) × ((m : String) × (error ≡ some m))
Outcome _ result error = (result ≡ none) × (error ≡ none)

unsettled-Outcome :
    (s : WorkerRunStatus) (result : Option AgentTaskResult) (error : Option String)
    → is_settled s ≡ false
    → Outcome s result error
    → (result ≡ none) × (error ≡ none)
unfolding Outcome is_settled
unsettled-Outcome WorkerRunStatus.completed result error running held = cc
unsettled-Outcome WorkerRunStatus.failed result error running held = cc
unsettled-Outcome _ result error running held = held

module _ (input : ControlPlaneTaskInput) where
  pub record Accountable (w : WorkerRun) : Type 0 where
    pub attributed : all (names_worker w) w.governance.evidence ≡ true
    pub governed :
        (find_requirement w.agent_id (configured input.workers)).governance_required ≡ true
        → is_governed w.governance.tier ≡ true
    pub outcome : Outcome w.status w.result w.error

  Accountable-fail :
      (message at : String) (w : WorkerRun)
      → is_settled w.status ≡ false
      → Accountable w
      → Accountable (fail_worker message at w)
  unfolding fail_worker Outcome names_worker
  Accountable-fail message at w running held = record {
    attributed = held.attributed;
    governed = held.governed;
    outcome =
        ((unsettled-Outcome w.status w.result w.error running held.outcome).0, (message, refl));
  }

  completed-Accountable :
      (output : AgentBackendTaskOutput) (at : String) (w : WorkerRun)
      → is_settled w.status ≡ false
      → Accountable w
      → all (names_worker w) output.governance_evidence ≡ true
      → Accountable (record w {
        status = WorkerRunStatus.completed;
        lifecycle =
            (transition WorkerRunStatus.completed at "Agent returned a structured result."
              w).lifecycle;
        result = some output.result;
        governance = record w.governance { evidence = output.governance_evidence };
        ended_at = at;
      })
  unfolding names_worker Outcome
  completed-Accountable output at w running held named = record {
    attributed = named;
    governed = held.governed;
    outcome = (
      (output.result, refl),
      (unsettled-Outcome w.status w.result w.error running held.outcome).1,
    );
  }

  -- `if` with both branches kept
  if-Accountable :
      (b : Bool) (v w : WorkerRun)
      → (b ≡ true → Accountable v)
      → (b ≡ false → Accountable w)
      → Accountable (if b then v else w)
  if-Accountable true v w held other = held refl
  if-Accountable false v w held other = other refl

  Accountable-complete :
      (output : AgentBackendTaskOutput) (at : String) (w : WorkerRun)
      → is_settled w.status ≡ false
      → Accountable w
      → Accountable (complete_worker output at w)
  unfolding complete_worker
  Accountable-complete output at w running held =
      if-Accountable (all (names_worker w) output.governance_evidence) _ _
        (λ named. completed-Accountable output at w running held named)
        (λ foreign.
          Accountable-fail "Agent governance evidence does not match its worker identity." at w
            running held)

  Accountable-event :
      (event : WorkerEvent) (w : WorkerRun) → Accountable w → Accountable (on_worker_event event w)
  unfolding on_worker_event names_worker
  Accountable-event (WorkerEvent.observed o) w held = record {
    attributed = held.attributed;
    governed = held.governed;
    outcome = held.outcome;
  }
  Accountable-event (WorkerEvent.replied output at) w held =
      if-Accountable (is_settled w.status) _ _ (λ settled. held)
        (λ running. Accountable-complete output at w running held)
  Accountable-event (WorkerEvent.raised message at) w held =
      if-Accountable (is_settled w.status) _ _ (λ settled. held)
        (λ running. Accountable-fail message at w running held)

  Accountable-drive :
      (events : List WorkerEvent) (w : WorkerRun)
      → Accountable w
      → Accountable (drive_worker events w)
  unfolding drive_worker
  Accountable-drive [] w held = held
  Accountable-drive (event ∷ events) w held =
      Accountable-drive events (on_worker_event event w) (Accountable-event event w held)

  abbrev Admitted : AdmittedBackend → Type 0
  Admitted a =
      (find_requirement a.backend.id (configured input.workers)).governance_required ≡ true
      → is_governed a.admission.capabilities.governance_tier ≡ true

  Accountable-script :
      (a : AdmittedBackend) (number : String) (script : WorkerScript)
      → Admitted a
      → Accountable (run_script input a number script)
  unfolding run_script run_worker start_worker create_worker Outcome
  Accountable-script a number script admitted =
      Accountable-drive script.events _
        (record { attributed = refl; governed = admitted; outcome = (refl, refl) })

  required-governed :
      (required governed : Bool)
      → required && not governed ≡ false
      → required ≡ true
      → governed ≡ true
  required-governed true true h same = refl
  required-governed true false h same = cc
  required-governed false governed h same = cc

  admit_backend-Admitted :
      (b : AgentBackend) (a : AdmittedBackend) → admit_backend input b ≡ ok a → Admitted a
  unfolding admit_backend
  admit_backend-Admitted b a h =
      let (probed, _, h₁) = >>=-eq-ok (require b.probe SupervisorError.probe_failed) _ h in
      let (admission, _, h₂) = >>=-eq-ok (freeze_admission probed) _ h₁ in
      let required = (find_requirement b.id (configured input.workers)).governance_required in
      let tier = is_governed admission.capabilities.governance_tier in
      let (_, passed, h₃) =
        >>=-eq-ok (guard (not (required && not tier)) SupervisorError.governance_admission) _ h₂ in
      subst Admitted (ok-injective h₃) (
        required-governed required tier
          (guard-not-eq-ok (required && not tier) SupervisorError.governance_admission passed))

  admit_all-Admitted :
      (backends : List AgentBackend) (admitted : List AdmittedBackend)
      → admit_all input backends ≡ ok admitted
      → All Admitted admitted
  unfolding admit_all
  admit_all-Admitted [] admitted h = subst (All Admitted) (ok-injective h) tt
  admit_all-Admitted (b ∷ rest) admitted h =
      let (a, first, h₁) = >>=-eq-ok (admit_backend input b) _ h in
      let (others, later, h₂) = >>=-eq-ok (admit_all input rest) _ h₁ in
      subst (All Admitted) (ok-injective h₂)
        (admit_backend-Admitted b a first, admit_all-Admitted rest others later)

  module _ (host : FindingHost) where
    taken :
        (b : Bool) (r result : ControlPlaneTaskResult)
        → (if b then some r else none) ≡ some result
        → r ≡ result
    taken true r result h = cc
    taken false r result h = cc

    run_admitted-Accountable :
        (admitted : List AdmittedBackend) (started_at ended_at : String)
        (first second : WorkerScript) (result : ControlPlaneTaskResult)
        → All Admitted admitted
        → run_admitted host input admitted started_at ended_at first second ≡ some result
        → All Accountable result.workers
    unfolding run_admitted task_result
    run_admitted-Accountable (left ∷ right ∷ []) started_at ended_at first second result
          (one, (two, rest)) h =
        subst (λ (r : ControlPlaneTaskResult). All Accountable r.workers) (taken _ _ result h)
          (Accountable-script left "1" first one, (Accountable-script right "2" second two, tt))
    run_admitted-Accountable _ started_at ended_at first second result held h = cc

    -- In the result of a task, a worker that completed has a result and no error, and one that failed
    -- has an error and no result; the governance evidence of each worker names the worker, and a
    -- worker whose backend must be governed runs on a backend that was admitted as governed.
    pub run_parallel-Accountable :
        (backends : List AgentBackend) (started_at ended_at : String) (first second : WorkerScript)
        (result : ControlPlaneTaskResult)
        → run_parallel host input backends started_at ended_at first second ≡ ok (some result)
        → All Accountable result.workers
    unfolding run_parallel admit_backends
    run_parallel-Accountable backends started_at ended_at first second result h =
        let (_, _, h₁) = >>=-eq-ok (validate_task input) _ h in
        let (_, _, h₂) = >>=-eq-ok (validate_backends backends) _ h₁ in
        let (admitted, made, h₃) = >>=-eq-ok (admit_backends input backends) _ h₂ in
        let (_, _, made₁) = >>=-eq-ok (check_requirements input backends) _ made in
        run_admitted-Accountable admitted started_at ended_at first second result
          (admit_all-Admitted backends admitted made₁) (ok-injective h₃)
