-- ===== src/ControlPlane/Governance/Accepted.antt =====
-- What evidence says once `createAgentGovernanceEvidence` accepts it
-- (packages/multi-agent-runtime/src/control-plane/governance.ts).
use qodex.Common.{
  ◌≡◌, refl, sym, subst, ◌⊎◌, true, false, not, ◌&&◌, ◌||◌, ok, arith, >>=-eq-ok, guard-not-eq-ok,
  ok-injective, guard,
}
use qodex.ControlPlane.Governance.{
  EvidenceProvenance, EvidenceTruthValue, Evidence, EvidenceError, PolicyDecision,
  GovernanceOutcome, is_value, is_observed, same_decision, validate_non_empty_fields,
  validate_outcome, validate_evidence_consistency, create_agent_governance_evidence, proves_case,
  proves_failed_closed,
}

-- every fact is observed, the call and the hook are, and it is known whether the body started
pub record IsObserved (e : Evidence) : Type 0 where
  pub called : e.model_tool_call_observed.value ≡ EvidenceTruthValue.yes
  pub hooked : e.pre_execute_observed.value ≡ EvidenceTruthValue.yes
  pub call_seen : e.model_tool_call_observed.provenance ≡ EvidenceProvenance.observed
  pub hook_seen : e.pre_execute_observed.provenance ≡ EvidenceProvenance.observed
  pub policy_seen : e.policy_decision.provenance ≡ EvidenceProvenance.observed
  pub dispatch_seen : e.dispatch_occurred.provenance ≡ EvidenceProvenance.observed
  pub body_seen : e.tool_body_started.provenance ≡ EvidenceProvenance.observed
  pub effect_seen : e.physical_side_effect.provenance ≡ EvidenceProvenance.observed
  pub body_known :
      (e.tool_body_started.value ≡ EvidenceTruthValue.yes)
      ⊎ (e.tool_body_started.value ≡ EvidenceTruthValue.no)

-- the case of the tier's proof that an outcome stands for
abbrev pub ProvesOutcome : Evidence → GovernanceOutcome → Type 0
ProvesOutcome e GovernanceOutcome.blocked =
    proves_case e GovernanceOutcome.blocked PolicyDecision.block ≡ true
ProvesOutcome e GovernanceOutcome.succeeded =
    proves_case e GovernanceOutcome.succeeded PolicyDecision.allow ≡ true
ProvesOutcome e GovernanceOutcome.failed_closed = proves_failed_closed e ≡ true
ProvesOutcome e _ = Unit

create_inv :
    (input e : Evidence)
    → create_agent_governance_evidence input ≡ ok e
    → (e ≡ input)
      × ((is_value e.dispatch_occurred.value false && is_value e.tool_body_started.value true)
          ≡ false)
      × (validate_outcome e e.outcome ≡ ok tt)
unfolding create_agent_governance_evidence validate_evidence_consistency
create_inv input e h =
    let (_, _, h₁) = >>=-eq-ok (validate_non_empty_fields input) _ h in
    let (_, consistent, h₂) = >>=-eq-ok (validate_evidence_consistency input) _ h₁ in
    let (_, _, c₁) =
      >>=-eq-ok
        (guard
          (not (
            is_value input.tool_body_started.value false
            && not (is_observed input.tool_body_started.provenance)))
          EvidenceError.unobserved_body)
        _ consistent in
    let (_, body, c₂) =
      >>=-eq-ok
        (guard
          (not (
            is_value input.dispatch_occurred.value false
            && is_value input.tool_body_started.value true))
          EvidenceError.body_without_dispatch)
        _ c₁ in
    let (_, _, c₃) =
      >>=-eq-ok
        (guard
          (not (
            is_value input.tool_body_started.value false
            && is_value input.physical_side_effect.value true))
          EvidenceError.effect_without_body)
        _ c₂ in
    let (_, _, c₄) =
      >>=-eq-ok
        (guard
          (not (
            (same_decision input.policy_decision.value PolicyDecision.block
              || same_decision input.policy_decision.value PolicyDecision.error_deny)
            && is_value input.dispatch_occurred.value true))
          EvidenceError.dispatched_block)
        _ c₃ in
    let same : e ≡ input = sym (ok-injective h₂) in
    let facts : ((is_value input.dispatch_occurred.value false
            && is_value input.tool_body_started.value true)
          ≡ false)
        × (validate_outcome input input.outcome ≡ ok tt) =
      (guard-not-eq-ok _ EvidenceError.body_without_dispatch body, c₄) in
    let (bodied, valid) =
      subst
        (λ (x : Evidence).
          ((is_value x.dispatch_occurred.value false && is_value x.tool_body_started.value true)
            ≡ false)
          × (validate_outcome x x.outcome ≡ ok tt))
        (sym same) facts in
    (same, bodied, valid)

outcome-Proves :
    (e : Evidence) (o : GovernanceOutcome)
    → e.outcome ≡ o
    → IsObserved e
    → (is_value e.dispatch_occurred.value false && is_value e.tool_body_started.value true) ≡ false
    → validate_outcome e o ≡ ok tt
    → ProvesOutcome e o
unfolding validate_outcome proves_case proves_failed_closed
outcome-Proves e GovernanceOutcome.blocked k w body h = ground (
  arith, w.called, w.hooked, w.call_seen, w.hook_seen, w.policy_seen, w.dispatch_seen, w.body_seen,
  w.effect_seen, w.body_known,
)
outcome-Proves e GovernanceOutcome.succeeded k w body h = ground (
  arith, w.called, w.hooked, w.call_seen, w.hook_seen, w.policy_seen, w.dispatch_seen, w.body_seen,
  w.effect_seen, w.body_known,
)
outcome-Proves e GovernanceOutcome.failed_closed k w body h = ground (
  arith, w.called, w.hooked, w.call_seen, w.hook_seen, w.policy_seen, w.dispatch_seen, w.body_seen,
  w.effect_seen, w.body_known,
)
outcome-Proves e _ k w body h = tt

-- Evidence that is accepted is the input, and if all its facts are observed, with the model's call
-- and the hook among them and the start of the body known, it proves the case of its outcome.
pub create_agent_governance_evidence-Proves :
    (input e : Evidence)
    → create_agent_governance_evidence input ≡ ok e
    → IsObserved input
    → (e ≡ input) × ProvesOutcome e e.outcome
create_agent_governance_evidence-Proves input e h w =
    let (same, body, valid) = create_inv input e h in
    (same, outcome-Proves e e.outcome refl (subst IsObserved (sym same) w) body valid)
