-- ===== src/ControlPlane/Supervisor/Agreement.antt =====
-- When workers agree (packages/multi-agent-runtime/src/control-plane/supervisor.ts).
use qodex.Common.{
  ◌≡◌, refl, sym, ◌∙◌, ap, subst, ◌≤◌, String, Bool, true, false, not, ◌&&◌, ◌||◌, some, List, [],
  ◌∷◌, any, all, All, has, length, eqb, Distinct, if◌then◌else◌, arith, &&-eq-true,
}
use qodex.Common.Maps.{Table, lookup}
use qodex.ControlPlane.Supervisor.Data.{SupervisorClassification, WorkerRun}
use qodex.ControlPlane.Supervisor.Findings.{FindingHost, keep_if}
use qodex.ControlPlane.Supervisor.Reconciliation.{
  ReconciliationResult, unresolved, compare_workers, reconcile_worker_results, has_result,
  findings_in, compared, own_files, shared_of, file_set, is_none_left, completed_workers,
}
use qodex.ControlPlane.Supervisor.Matching.{is_empty}
use qodex.ControlPlane.Supervisor.Tables.{
  agent_ids, all-All, classify-agreement, completed_workers-eq, files_by_agent-All, has-keep_if,
  is_empty-has, none_left-lookup, same_files-All,
}

-- All workers have a result and name the same files, and the findings of the first two are matched
-- one to one.
pub record Agrees (workers : List WorkerRun) (result : ReconciliationResult) : Type 0 where
  pub left : WorkerRun
  pub right : WorkerRun
  pub rest : List WorkerRun
  pub split : workers ≡ left ∷ right ∷ rest
  pub results : All (λ (worker : WorkerRun). has_result worker ≡ true) workers
  pub some_matched : 1 ≤ length result.matched_findings
  pub left_matched : length result.matched_findings ≡ length (findings_in left.result)
  pub right_matched : length result.matched_findings ≡ length (findings_in right.result)
  pub same_files :
      All
        (λ (worker : WorkerRun).
          (file : String) → has file (file_set worker) ≡ has file result.shared_files)
        workers

module _ (host : FindingHost)
    (sorts : (files : List String) (file : String)
      → has file (host.sorted files) ≡ has file files) where
  no_own-shared :
      (shared : List String) (worker : WorkerRun)
      → is_empty (own_files host shared worker) ≡ true
      → (file : String) → has file (file_set worker) ≡ true
      → has file shared ≡ true
  unfolding own_files
  no_own-shared shared worker empty file named =
      let test = λ (x : String). not (has x shared) in
      let absent : has file (file_set worker) && not (has file shared) ≡ false =
        sym (has-keep_if test (file_set worker) file)
        ∙ sym (sorts (keep_if test (file_set worker)) file)
        ∙ is_empty-has (own_files host shared worker) file empty in
      ground (arith, absent, named)

  shared_of-All :
      (left : WorkerRun) (others : List WorkerRun) (file : String)
      → has file (shared_of host left others) ≡ true
      → All (λ (worker : WorkerRun). has file (file_set worker) ≡ true) (left ∷ others)
  unfolding shared_of
  shared_of-All left others file h =
      let test = λ (x : String). all (λ (worker : WorkerRun). has x (file_set worker)) others in
      let (first, rest) = &&-eq-true (has file (file_set left)) (test file) (
        sym (has-keep_if test (file_set left) file)
        ∙ sym (sorts (keep_if test (file_set left)) file)
        ∙ h) in
      (first, all-All (λ (worker : WorkerRun). has file (file_set worker)) others rest)

  own_files-All :
      (shared : List String) (only : Table (List String)) (workers : List WorkerRun)
      → is_none_left only ≡ true
      → All
          (λ (worker : WorkerRun).
            lookup worker.agent_id only ≡ some (own_files host shared worker))
          workers
      → All
          (λ (worker : WorkerRun).
            (file : String) → has file (file_set worker) ≡ true → has file shared ≡ true)
          workers
  own_files-All shared only [] none_left found = tt
  own_files-All shared only (worker ∷ rest) none_left (first, others) = (
    no_own-shared shared worker
        (none_left-lookup only worker.agent_id (own_files host shared worker) none_left first),
    own_files-All shared only rest none_left others,
  )

  compared-Agrees :
      (left right : WorkerRun) (rest : List WorkerRun)
      → Distinct (agent_ids (left ∷ right ∷ rest))
      → All (λ (worker : WorkerRun). has_result worker ≡ true) (left ∷ right ∷ rest)
      → (compared host left right rest).classification ≡ SupervisorClassification.agreement
      → Agrees (left ∷ right ∷ rest) (compared host left right rest)
  unfolding compared
  compared-Agrees left right rest distinct results h =
      let r = compared host left right rest in
      let (one, lefts, rights, none_left) =
        classify-agreement (length r.matched_findings) (length (findings_in left.result))
          (length (findings_in right.result)) r.agent_only_files h in
      record {
        left = left;
        right = right;
        rest = rest;
        split = refl;
        results = results;
        some_matched = one;
        left_matched = lefts;
        right_matched = rights;
        same_files =
            same_files-All r.shared_files (left ∷ right ∷ rest)
              (own_files-All r.shared_files r.agent_only_files (left ∷ right ∷ rest) none_left (
                files_by_agent-All (own_files host r.shared_files) (left ∷ right ∷ rest) []
                  distinct))
              (shared_of-All left (right ∷ rest));
      }

  compare_workers-Agrees :
      (workers completed : List WorkerRun)
      → completed_workers workers ≡ completed
      → Distinct (agent_ids workers)
      → (compare_workers host workers completed).classification ≡ SupervisorClassification.agreement
      → Agrees workers (compare_workers host workers completed)
  unfolding compare_workers unresolved
  compare_workers-Agrees workers [] same distinct h = cc
  compare_workers-Agrees workers (left ∷ []) same distinct h = cc
  compare_workers-Agrees workers (left ∷ right ∷ rest) same distinct h =
      passed (eqb (length (left ∷ right ∷ rest)) (length workers)) refl
        (any (λ (worker : WorkerRun). is_empty (file_set worker)) (left ∷ right ∷ rest)) h
    where
      passed :
          (b : Bool)
          → eqb (length (left ∷ right ∷ rest)) (length workers) ≡ b
          → (c : Bool)
          → (if not b || c
              then unresolved workers
              else compared host left right rest).classification
            ≡ SupervisorClassification.agreement
          → Agrees workers
              (if not b || c then unresolved workers else compared host left right rest)
      passed false e c agreed = cc
      passed true e true agreed = cc
      passed true e false agreed =
          let counted : length (left ∷ right ∷ rest) ≡ length workers = ground (arith, e) in
          let (whole, results) =
            completed_workers-eq workers (ap (λ (x : List WorkerRun). length x) same ∙ counted) in
          let equal : left ∷ right ∷ rest ≡ workers = sym same ∙ whole in
          subst (λ x. Agrees x (compared host left right rest)) equal
            (compared-Agrees left right rest
              (subst (λ x. Distinct (agent_ids x)) (sym equal) distinct)
              (subst (λ x. All (λ (worker : WorkerRun). has_result worker ≡ true) x) (sym equal)
                results)
              agreed)

  -- For workers of distinct agents, reconcileWorkerResults answers AGREEMENT only when there are at
  -- least two, all of them completed with a result, all name exactly the shared files, and the
  -- matched pairs are at least one and as many as the first worker has findings and as many as the
  -- second has. Sorting texts keeps which texts there are.
  pub reconcile_worker_results-Agrees :
      (workers : List WorkerRun)
      → Distinct (agent_ids workers)
      → (reconcile_worker_results host workers).classification ≡ SupervisorClassification.agreement
      → Agrees workers (reconcile_worker_results host workers)
  unfolding reconcile_worker_results
  reconcile_worker_results-Agrees workers distinct h =
      compare_workers-Agrees workers (completed_workers workers) refl distinct h
