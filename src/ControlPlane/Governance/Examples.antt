-- ===== src/ControlPlane/Governance/Examples.antt =====
-- The theorems on governance at evidence of one agent
-- (packages/multi-agent-runtime/src/control-plane/governance.ts).
use qodex.Common.{◌≡◌, refl, ◌↔◌, [], ◌∷◌, inr, ok}
use qodex.Common.Text.{is_blank}
use qodex.ControlPlane.Governance.{
  EvidenceProvenance, EvidenceTruthValue, EvidenceFact, Evidence, PolicyDecision, GovernanceOutcome,
  GovernanceTier, classify_governance_tier, create_agent_governance_evidence,
  validate_non_empty_fields, validate_evidence_consistency, validate_outcome,
}
use qodex.ControlPlane.Governance.Tiers.{ProvesGoverned}
use qodex.ControlPlane.Governance.Complete.{classify_governance_tier_iff}
use qodex.ControlPlane.Governance.Accepted.{
  IsObserved, ProvesOutcome, create_agent_governance_evidence-Proves,
}

abbrev seen : EvidenceTruthValue → EvidenceFact EvidenceTruthValue
seen v = record { value = v; provenance = EvidenceProvenance.observed }

abbrev call : PolicyDecision → GovernanceOutcome → EvidenceTruthValue → Evidence
call decision outcome ran = record {
  task_id = "t";
  worker_run_id = "w";
  agent_id = "a";
  agent_kind = "k";
  agent_version = "1";
  tool_call_id = "c";
  tool_name = "shell";
  action_summary = "run";
  model_tool_call_observed = seen EvidenceTruthValue.yes;
  policy_decision = record { value = decision; provenance = EvidenceProvenance.observed };
  policy_reason = "policy";
  pre_execute_observed = seen EvidenceTruthValue.yes;
  dispatch_occurred = seen ran;
  tool_body_started = seen ran;
  physical_side_effect = seen ran;
  outcome = outcome;
  provenance = record {
    runtime_source = "r";
    model_provider = "p";
    model = "m";
    policy_adapter = "q";
    capture_method = "hook";
  };
}

abbrev denial : Evidence
denial = call PolicyDecision.block GovernanceOutcome.blocked EvidenceTruthValue.no

abbrev success : Evidence
success = call PolicyDecision.allow GovernanceOutcome.succeeded EvidenceTruthValue.yes

abbrev closure : Evidence
closure = call PolicyDecision.ask GovernanceOutcome.failed_closed EvidenceTruthValue.no

classify_governance_tier_iff_example :
    (classify_governance_tier (denial ∷ success ∷ closure ∷ []) ≡ GovernanceTier.governed)
    ↔ ProvesGoverned (denial ∷ success ∷ closure ∷ [])
classify_governance_tier_iff_example =
    classify_governance_tier_iff (denial ∷ success ∷ closure ∷ [])

denial-accepted : create_agent_governance_evidence denial ≡ ok denial
unfolding create_agent_governance_evidence validate_non_empty_fields validate_evidence_consistency
    validate_outcome is_blank
denial-accepted = refl

denial-IsObserved : IsObserved denial
denial-IsObserved = record {
  called = refl;
  hooked = refl;
  call_seen = refl;
  hook_seen = refl;
  policy_seen = refl;
  dispatch_seen = refl;
  body_seen = refl;
  effect_seen = refl;
  body_known = inr refl;
}

create_agent_governance_evidence-Proves_example :
    (denial ≡ denial) × ProvesOutcome denial GovernanceOutcome.blocked
create_agent_governance_evidence-Proves_example =
    create_agent_governance_evidence-Proves denial denial denial-accepted denial-IsObserved
