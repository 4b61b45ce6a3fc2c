-- ===== src/ControlPlane/Governance.antt =====
-- packages/multi-agent-runtime/src/control-plane/governance.ts: evidence on how an agent's tool
-- calls are governed, and the tier that it proves; and `validateGovernanceCapability` of
-- src/control-plane/types.ts. `Object.freeze` of a copy of a value is the value.
pub mod Tiers
pub mod Complete
pub mod Accepted
mod Examples
use qodex.Common.{
  String, Bool, true, false, not, ◌&&◌, ◌||◌, Option, none, some, List, [], ◌∷◌, ◌++◌, any,
  if◌then◌else◌, Result, ok, err, guard, ◌>>=◌, ◌>>◌,
}
use Prim.Native.String.{◌++◌ as ◌+++◌}
use qodex.Common.Text.{is_blank}
use qodex.Common.Maps.{Table, lookup, insert}

pub data EvidenceProvenance : Type 0 where
  observed derived asserted_by_contract unattributed : EvidenceProvenance

-- `boolean | "unknown"`
pub data EvidenceTruthValue : Type 0 where
  yes no unsure : EvidenceTruthValue

pub data PolicyDecision : Type 0 where
  allow block ask error_deny undecided : PolicyDecision

pub data GovernanceOutcome : Type 0 where
  blocked succeeded failed_closed failed unsettled : GovernanceOutcome

pub data GovernanceTier : Type 0 where
  opaque observable governed : GovernanceTier

pub data GovernanceMode : Type 0 where
  ungoverned host_dispatch pre_dispatch_plugin external_decision : GovernanceMode

pub record EvidenceFact {ℓ} (T : Type ℓ) : Type ℓ where
  pub value : T
  pub provenance : EvidenceProvenance

pub record GovernanceEvidenceProvenance : Type 0 where
  pub runtime_source : String
  pub model_provider : String
  pub model : String
  pub policy_adapter : String
  pub capture_method : String

pub record Evidence : Type 0 where
  pub task_id : String
  pub worker_run_id : String
  pub agent_id : String
  pub agent_kind : String
  pub agent_version : String
  pub tool_call_id : String
  pub tool_name : String
  pub action_summary : String
  pub model_tool_call_observed : EvidenceFact EvidenceTruthValue
  pub policy_decision : EvidenceFact PolicyDecision
  pub policy_reason : String
  pub pre_execute_observed : EvidenceFact EvidenceTruthValue
  pub dispatch_occurred : EvidenceFact EvidenceTruthValue
  pub tool_body_started : EvidenceFact EvidenceTruthValue
  pub physical_side_effect : EvidenceFact EvidenceTruthValue
  pub outcome : GovernanceOutcome
  pub provenance : GovernanceEvidenceProvenance

-- One constructor for each `throw`.
pub data EvidenceError : Type 0 where
  empty_field unobserved_body body_without_dispatch effect_without_body dispatched_block :
      EvidenceError
  contradictory_block contradictory_success success_without_body : EvidenceError
  undenied_closure dispatched_closure ungoverned_tier opaque_mode : EvidenceError

abbrev pub is_value : EvidenceTruthValue → Bool → Bool
is_value EvidenceTruthValue.yes true = true
is_value EvidenceTruthValue.no false = true
is_value _ _ = false

abbrev pub is_observed : EvidenceProvenance → Bool
is_observed EvidenceProvenance.observed = true
is_observed _ = false

abbrev pub same_decision : PolicyDecision → PolicyDecision → Bool
same_decision PolicyDecision.allow PolicyDecision.allow = true
same_decision PolicyDecision.block PolicyDecision.block = true
same_decision PolicyDecision.ask PolicyDecision.ask = true
same_decision PolicyDecision.error_deny PolicyDecision.error_deny = true
same_decision PolicyDecision.undecided PolicyDecision.undecided = true
same_decision _ _ = false

abbrev same_outcome : GovernanceOutcome → GovernanceOutcome → Bool
same_outcome GovernanceOutcome.blocked GovernanceOutcome.blocked = true
same_outcome GovernanceOutcome.succeeded GovernanceOutcome.succeeded = true
same_outcome GovernanceOutcome.failed_closed GovernanceOutcome.failed_closed = true
same_outcome GovernanceOutcome.failed GovernanceOutcome.failed = true
same_outcome GovernanceOutcome.unsettled GovernanceOutcome.unsettled = true
same_outcome _ _ = false

-- the fields that `validateNonEmptyFields` looks at
abbrev required_fields : Evidence → List String
required_fields e =
    e.task_id ∷ e.worker_run_id ∷ e.agent_id ∷ e.agent_kind ∷ e.agent_version ∷ e.tool_call_id
    ∷ e.tool_name ∷ e.action_summary ∷ e.policy_reason ∷ e.provenance.runtime_source
    ∷ e.provenance.model_provider ∷ e.provenance.model ∷ e.provenance.policy_adapter
    ∷ e.provenance.capture_method ∷ []

unfoldable pub validate_non_empty_fields : Evidence → Result EvidenceError (Unit {0})
validate_non_empty_fields e =
    guard (not (any is_blank (required_fields e))) EvidenceError.empty_field

abbrev require_values :
    Evidence → PolicyDecision → Bool → Bool → EvidenceError → Result EvidenceError (Unit {0})
require_values e decision dispatch side_effect error =
    guard
      (not (
        not (same_decision e.policy_decision.value decision)
        || not (is_value e.dispatch_occurred.value dispatch)
        || not (is_value e.physical_side_effect.value side_effect)))
      error

-- the checks that belong to an outcome
unfoldable pub validate_outcome : Evidence → GovernanceOutcome → Result EvidenceError (Unit {0})
validate_outcome e GovernanceOutcome.blocked =
    require_values e PolicyDecision.block false false EvidenceError.contradictory_block
validate_outcome e GovernanceOutcome.succeeded = do
  require_values e PolicyDecision.allow true true EvidenceError.contradictory_success
  guard (is_value e.tool_body_started.value true) EvidenceError.success_without_body
validate_outcome e GovernanceOutcome.failed_closed = do
  guard
      (same_decision e.policy_decision.value PolicyDecision.ask
        || same_decision e.policy_decision.value PolicyDecision.error_deny)
      EvidenceError.undenied_closure
  guard (is_value e.dispatch_occurred.value false && is_value e.physical_side_effect.value false)
      EvidenceError.dispatched_closure
validate_outcome e _ = ok tt

unfoldable pub validate_evidence_consistency : Evidence → Result EvidenceError (Unit {0})
validate_evidence_consistency e = do
  guard
      (not (
        is_value e.tool_body_started.value false
        && not (is_observed e.tool_body_started.provenance)))
      EvidenceError.unobserved_body
  guard (not (is_value e.dispatch_occurred.value false && is_value e.tool_body_started.value true))
      EvidenceError.body_without_dispatch
  guard
      (not (is_value e.tool_body_started.value false && is_value e.physical_side_effect.value true))
      EvidenceError.effect_without_body
  guard
      (not (
        (same_decision e.policy_decision.value PolicyDecision.block
          || same_decision e.policy_decision.value PolicyDecision.error_deny)
        && is_value e.dispatch_occurred.value true))
      EvidenceError.dispatched_block
  validate_outcome e e.outcome

-- the evidence that the input is, if it is accepted
unfoldable pub create_agent_governance_evidence : Evidence → Result EvidenceError Evidence
create_agent_governance_evidence input = do
  validate_non_empty_fields input
  validate_evidence_consistency input
  ok input

abbrev observed_value : EvidenceFact EvidenceTruthValue → Bool → Bool
observed_value fact value = is_value fact.value value && is_observed fact.provenance

abbrev proves_common_boundary : Evidence → Bool
proves_common_boundary e =
    observed_value e.model_tool_call_observed true
    && observed_value e.pre_execute_observed true
    && is_observed e.policy_decision.provenance

-- `provesCase`, called with a block or a success
unfoldable pub proves_case : Evidence → GovernanceOutcome → PolicyDecision → Bool
proves_case e outcome decision =
    let expected_effect = same_outcome outcome GovernanceOutcome.succeeded in
    same_outcome e.outcome outcome
    && same_decision e.policy_decision.value decision
    && proves_common_boundary e
    && observed_value e.dispatch_occurred expected_effect
    && observed_value e.tool_body_started expected_effect
    && observed_value e.physical_side_effect expected_effect

-- the test of `hasFailedClosed`
unfoldable pub proves_failed_closed : Evidence → Bool
proves_failed_closed e =
    (same_decision e.policy_decision.value PolicyDecision.ask
      || same_decision e.policy_decision.value PolicyDecision.error_deny)
    && proves_common_boundary e
    && observed_value e.dispatch_occurred false
    && observed_value e.tool_body_started false
    && observed_value e.physical_side_effect false
    && same_outcome e.outcome GovernanceOutcome.failed_closed

-- `parts.join(separator)`
unfoldable pub join : String → List String → String
join separator [] = ""
join separator (s ∷ []) = s
join separator (s ∷ t ∷ rest) = s +++ (separator +++ join separator (t ∷ rest))

unfoldable pub governance_identity : Evidence → String
governance_identity e = join "\0" (
    e.task_id ∷ e.agent_id ∷ e.agent_kind ∷ e.agent_version ∷ e.tool_name
    ∷ e.provenance.runtime_source ∷ e.provenance.model_provider ∷ e.provenance.model
    ∷ e.provenance.policy_adapter ∷ [])

-- `groups.get(identity) ?? []`
abbrev pub group_at : String → Table (List Evidence) → List Evidence
group_at id groups = elim (lookup id groups) [ none ↦ [] | some group ↦ group ]

unfoldable pub group_all : List Evidence → Table (List Evidence) → Table (List Evidence)
group_all [] groups = groups
group_all (e ∷ es) groups =
    let id = governance_identity e in group_all es (insert id (group_at id groups ++ e ∷ []) groups)

-- the test of the second loop
unfoldable pub proves_governed : List Evidence → Bool
proves_governed group =
    any (λ e. proves_case e GovernanceOutcome.blocked PolicyDecision.block) group
    && any (λ e. proves_case e GovernanceOutcome.succeeded PolicyDecision.allow) group
    && any proves_failed_closed group

abbrev pub any_group : (List Evidence → Bool) → Table (List Evidence) → Bool
any_group p [] = false
any_group p ((k, group) ∷ groups) = p group || any_group p groups

unfoldable pub classify_governance_tier : List Evidence → GovernanceTier
classify_governance_tier [] = GovernanceTier.opaque
classify_governance_tier (e ∷ es) =
    if any_group proves_governed (group_all (e ∷ es) [])
    then GovernanceTier.governed
    else GovernanceTier.observable

unfoldable is_governed_tier : GovernanceTier → Bool
is_governed_tier GovernanceTier.governed = true
is_governed_tier _ = false

abbrev is_ungoverned : GovernanceMode → Bool
is_ungoverned GovernanceMode.ungoverned = true
is_ungoverned _ = false

-- `validateGovernanceCapability`
unfoldable validate_governance_capability :
    GovernanceTier → GovernanceMode → Result EvidenceError (Unit {0})
validate_governance_capability GovernanceTier.governed mode =
    guard (not (is_ungoverned mode)) EvidenceError.ungoverned_tier
validate_governance_capability GovernanceTier.opaque mode =
    guard (is_ungoverned mode) EvidenceError.opaque_mode
validate_governance_capability GovernanceTier.observable mode = ok tt
