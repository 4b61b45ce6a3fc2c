-- ===== src/ControlPlane/Supervisor/Tables.antt =====
-- The tables and lists of a reconciliation (packages/multi-agent-runtime/src/control-plane/supervisor.ts).
use qodex.Common.{
  ◌≡◌, refl, sym, ◌∙◌, ap, subst, ◌≤◌, ℕ, String, Bool, true, false, ◌&&◌, some, List, [], ◌∷◌, all,
  All, has, map, length, ◌==◌, eq_iff, eq_refl, Distinct, if◌then◌else◌, arith, &&-eq-true,
}
use qodex.Common.Maps.{Table, lookup, insert, lookup-insert_same, lookup-insert_other}
use qodex.ControlPlane.Supervisor.Data.{SupervisorClassification, WorkerRun}
use qodex.ControlPlane.Supervisor.Findings.{keep_if}
use qodex.ControlPlane.Supervisor.Reconciliation.{
  classify, has_result, file_set, files_by_agent, is_none_left, completed_workers,
}
use qodex.ControlPlane.Supervisor.Matching.{is_empty}

pub has-keep_if :
    (test : String → Bool) (xs : List String) (file : String)
    → has file (keep_if test xs) ≡ (has file xs && test file)
unfolding keep_if
has-keep_if test [] file = refl
has-keep_if test (x ∷ xs) file = ground (arith, has-keep_if test xs file, eq_iff x file)

pub is_empty-has : (xs : List String) (file : String) → is_empty xs ≡ true → has file xs ≡ false
is_empty-has [] file h = refl
is_empty-has (x ∷ xs) file h = cc

pub none_left-lookup :
    (table : Table (List String)) (key : String) (files : List String)
    → is_none_left table ≡ true
    → lookup key table ≡ some files
    → is_empty files ≡ true
unfolding lookup
none_left-lookup [] key files none_left found = cc
none_left-lookup ((name, value) ∷ rest) key files none_left found =
    let (empty, others) = &&-eq-true (is_empty value) (is_none_left rest) none_left in
    named (name == key) empty (none_left-lookup rest key files others) found
  where
    named :
        (b : Bool)
        → is_empty value ≡ true
        → (lookup key rest ≡ some files → is_empty files ≡ true)
        → (if b then some value else lookup key rest) ≡ some files
        → is_empty files ≡ true
    named true empty later h =
        let same : value ≡ files = cc in subst (λ x. is_empty x ≡ true) same empty
    named false empty later h = later h

abbrev pub agent_ids : List WorkerRun → List String
agent_ids workers = map (λ (worker : WorkerRun). worker.agent_id) workers

module _ (files_of : WorkerRun → List String) where
  lookup-files_by_agent :
      (workers : List WorkerRun) (table : Table (List String)) (key : String)
      → has key (agent_ids workers) ≡ false
      → lookup key (files_by_agent files_of workers table) ≡ lookup key table
  unfolding files_by_agent
  lookup-files_by_agent [] table key apart = refl
  lookup-files_by_agent (worker ∷ rest) table key apart =
      let other : worker.agent_id == key ≡ false = ground arith in
      let others : has key (agent_ids rest) ≡ false = ground arith in
      lookup-files_by_agent rest (insert worker.agent_id (files_of worker) table) key others
      ∙ lookup-insert_other worker.agent_id key (files_of worker) table other

  pub files_by_agent-All :
      (workers : List WorkerRun) (table : Table (List String))
      → Distinct (agent_ids workers)
      → All
          (λ (worker : WorkerRun).
            lookup worker.agent_id (files_by_agent files_of workers table) ≡ some (files_of worker))
          workers
  unfolding files_by_agent
  files_by_agent-All [] table distinct = tt
  files_by_agent-All (worker ∷ rest) table (apart, distinct) = (
    lookup-files_by_agent rest (insert worker.agent_id (files_of worker) table) worker.agent_id
          apart
        ∙ lookup-insert_same worker.agent_id worker.agent_id (files_of worker) table
            (eq_refl worker.agent_id),
    files_by_agent-All rest (insert worker.agent_id (files_of worker) table) distinct,
  )

same-when : (a b : Bool) → (a ≡ true → b ≡ true) → (b ≡ true → a ≡ true) → a ≡ b
same-when true b there back = sym (there refl)
same-when false true there back = back refl
same-when false false there back = refl

pub all-All :
    (test : WorkerRun → Bool) (workers : List WorkerRun)
    → all test workers ≡ true
    → All (λ (worker : WorkerRun). test worker ≡ true) workers
all-All test [] h = tt
all-All test (worker ∷ rest) h =
    let (first, others) = &&-eq-true (test worker) (all test rest) h in
    (first, all-All test rest others)

-- Every file of each worker is shared, and every shared file is one of each worker.
pub same_files-All :
    (shared : List String) (workers : List WorkerRun)
    → All
        (λ (worker : WorkerRun).
          (file : String) → has file (file_set worker) ≡ true → has file shared ≡ true)
        workers
    → ((file : String)
        → has file shared ≡ true
        → All (λ (worker : WorkerRun). has file (file_set worker) ≡ true) workers)
    → All
        (λ (worker : WorkerRun). (file : String) → has file (file_set worker) ≡ has file shared)
        workers
same_files-All shared [] none_own all_shared = tt
same_files-All shared (worker ∷ rest) (first, others) all_shared = (
  λ file.
      same-when (has file (file_set worker)) (has file shared) (first file)
        (λ h. (all_shared file h).0),
  same_files-All shared rest others (λ file h. (all_shared file h).1),
)

length-completed_workers :
    (workers : List WorkerRun) → length (completed_workers workers) ≤ length workers
unfolding completed_workers
length-completed_workers [] = omega arith
length-completed_workers (worker ∷ rest) = ground (arith, length-completed_workers rest)

pub completed_workers-eq :
    (workers : List WorkerRun)
    → length (completed_workers workers) ≡ length workers
    → (completed_workers workers ≡ workers)
      × All (λ (worker : WorkerRun). has_result worker ≡ true) workers
unfolding completed_workers
completed_workers-eq [] h = (refl, tt)
completed_workers-eq (worker ∷ rest) h =
    kept (has_result worker) refl (length-completed_workers rest) (completed_workers-eq rest) h
  where
    kept :
        (b : Bool)
        → has_result worker ≡ b
        → length (completed_workers rest) ≤ length rest
        → (length (completed_workers rest) ≡ length rest
            → (completed_workers rest ≡ rest)
              × All (λ (other : WorkerRun). has_result other ≡ true) rest)
        → length (if b then worker ∷ completed_workers rest else completed_workers rest)
          ≡ length (worker ∷ rest)
        → ((if b then worker ∷ completed_workers rest else completed_workers rest) ≡ worker ∷ rest)
          × All (λ (other : WorkerRun). has_result other ≡ true) (worker ∷ rest)
    kept true has_it short later same =
        let (equal, held) = later (omega arith) in (ap (λ x. worker ∷ x) equal, (has_it, held))
    kept false has_it short later same = absurd (omega arith)

pub classify-agreement :
    (matched lefts rights : ℕ) (only : Table (List String))
    → classify matched lefts rights only ≡ SupervisorClassification.agreement
    → (1 ≤ matched) × (matched ≡ lefts) × (matched ≡ rights) × (is_none_left only ≡ true)
unfolding classify
classify-agreement matched lefts rights only h = ground arith
