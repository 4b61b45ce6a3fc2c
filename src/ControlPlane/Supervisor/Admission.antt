-- ===== src/ControlPlane/Supervisor/Admission.antt =====
-- The checks of a task and the admission of its backends
-- (packages/multi-agent-runtime/src/control-plane/supervisor.ts). Where several backends are
-- refused, the source throws what comes first in time, the model what comes first in place.
use Prim.Native.String.{[] as end_of_text, ◌∷◌ as ◌∷∷◌}
use Prim.Native.Char.{code}
use qodex.Common.{
  String, Bool, true, false, not, ◌&&◌, Option, none, some, List, [], ◌∷◌, map, any, has, length,
  ◌==◌, eqb, if◌then◌else◌, Result, ok, guard, require, ◌>>=◌, ◌>>◌,
}
use qodex.Common.Text.{is_blank, is_space}
use qodex.ControlPlane.Governance.{GovernanceTier, GovernanceMode}
use qodex.ControlPlane.Supervisor.Data.{
  AgentBackendAdmission, ControlPlaneWorkerRequirement, ControlPlaneTaskInput, AgentBackend,
  AdmittedBackend, SupervisorError,
}

abbrev Checked : Type 0
Checked = Result SupervisorError (Unit {0})

-- `text.trim()`
unfoldable trim_end : String → String
trim_end end_of_text = ""
trim_end (c ∷∷ rest) =
    let kept = trim_end rest in if kept == "" && is_space (code c) then "" else c ∷∷ kept

unfoldable trim_start : String → String
trim_start end_of_text = ""
trim_start (c ∷∷ rest) = let kept = trim_start rest in if is_space (code c) then kept else c ∷∷ rest

unfoldable pub trim : String → String
unfolding trim_start trim_end
trim text = trim_start (trim_end text)

-- `new Set(texts).size === texts.length`
unfoldable all_distinct : List String → Bool
all_distinct [] = true
all_distinct (x ∷ xs) = not (has x xs) && all_distinct xs

unfoldable pub validate_task : ControlPlaneTaskInput → Checked
validate_task input =
    guard (not (any is_blank (input.task_id ∷ input.title ∷ input.workspace ∷ input.prompt ∷ [])))
      SupervisorError.empty_task_field

unfoldable pub validate_backends : List AgentBackend → Checked
unfolding all_distinct
validate_backends backends = do
  guard (eqb (length backends) 2) SupervisorError.worker_limit
  guard (all_distinct (map (λ (b : AgentBackend). b.id) backends)) SupervisorError.duplicate_backend
  guard (all_distinct (map (λ (b : AgentBackend). b.kind) backends)) SupervisorError.duplicate_kind

unfoldable pub find_requirement :
    String → List ControlPlaneWorkerRequirement → ControlPlaneWorkerRequirement
find_requirement id [] = record { backend_id = id; session_id = none; governance_required = false }
find_requirement id (item ∷ rest) = if item.backend_id == id then item else find_requirement id rest

unfoldable blank_session : Option String → Bool
blank_session none = false
blank_session (some id) = is_blank id

abbrev pub configured :
    Option (List ControlPlaneWorkerRequirement) → List ControlPlaneWorkerRequirement
configured none = []
configured (some items) = items

-- `requirementsByBackend`; the map it makes is read by `find_requirement`
unfoldable pub check_requirements : ControlPlaneTaskInput → List AgentBackend → Checked
unfolding all_distinct find_requirement blank_session
check_requirements input backends =
    let items = configured input.workers in
    let ids = map (λ (b : AgentBackend). b.id) backends in
    do
      guard (all_distinct (map (λ (r : ControlPlaneWorkerRequirement). r.backend_id) items))
          SupervisorError.duplicate_requirement
      guard (not (any (λ (r : ControlPlaneWorkerRequirement). not (has r.backend_id ids)) items))
          SupervisorError.unknown_backend
      guard (not (any (λ (id : String). blank_session (find_requirement id items).session_id) ids))
          SupervisorError.empty_session

unfoldable is_none : GovernanceMode → Bool
is_none GovernanceMode.ungoverned = true
is_none _ = false

unfoldable pub is_governed : GovernanceTier → Bool
is_governed GovernanceTier.governed = true
is_governed _ = false

unfoldable is_opaque : GovernanceTier → Bool
is_opaque GovernanceTier.opaque = true
is_opaque _ = false

unfoldable trimmed_model : Option String → Option String
unfolding trim
trimmed_model none = none
trimmed_model (some name) = let short = trim name in if short == "" then none else some short

unfoldable pub freeze_admission :
    AgentBackendAdmission → Result SupervisorError AgentBackendAdmission
unfolding is_none is_governed is_opaque trimmed_model
freeze_admission admission =
    let tier = admission.capabilities.governance_tier in
    let mode = admission.capabilities.governance_mode in
    do
      guard (not (is_blank admission.version)) SupervisorError.empty_version
      guard (not (is_governed tier && is_none mode)) SupervisorError.ungoverned_tier
      guard (not (is_opaque tier && not (is_none mode))) SupervisorError.opaque_mode
      ok (record admission { model = trimmed_model admission.model })

unfoldable pub admit_backend :
    ControlPlaneTaskInput → AgentBackend → Result SupervisorError AdmittedBackend
unfolding freeze_admission is_governed find_requirement
admit_backend input backend = do
  probed ← require backend.probe SupervisorError.probe_failed
  admission ← freeze_admission probed
  let requirement = find_requirement backend.id (configured input.workers)
  guard
      (not (
        requirement.governance_required
        && not (is_governed admission.capabilities.governance_tier)))
      SupervisorError.governance_admission
  ok (record { backend = backend; admission = admission; requirement = requirement })

unfoldable pub admit_all :
    ControlPlaneTaskInput → List AgentBackend → Result SupervisorError (List AdmittedBackend)
unfolding admit_backend
admit_all input [] = ok []
admit_all input (backend ∷ rest) = do
  admitted ← admit_backend input backend
  others ← admit_all input rest
  ok (admitted ∷ others)

unfoldable pub admit_backends :
    ControlPlaneTaskInput → List AgentBackend → Result SupervisorError (List AdmittedBackend)
unfolding check_requirements admit_all
admit_backends input backends = do check_requirements input backends; admit_all input backends
