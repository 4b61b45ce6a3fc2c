-- ===== src/Action/Validation/Proposals.antt =====
-- Proposals that `createActionProposal` makes (packages/action-runtime/src/validation.ts).
use qodex.Common.{
  ◌≡◌, sym, ap, subst, ◌∙◌, String, ok, Result, guard, ◌>>=◌, ◌==◌, eq_refl, >>=-eq-ok,
  ok-injective,
}
use qodex.Action.Types.{ActionProposalInput, ActionProposal, ErrorCode}
use qodex.Action.Canonical.{ActionHost, action_schema_version, compute_proposal_digest}
use qodex.Action.Validation.{
  validate_proposal_fields, create_action_proposal, validate_action_proposal, Check,
}

module _ (host : ActionHost) where
  accepted-digest :
      (p : ActionProposal)
      → validate_proposal_fields host p.schema_version p.content ≡ ok tt
      → compute_proposal_digest host p.schema_version p.content ≡ ok p.proposal_digest
      → validate_action_proposal host p ≡ ok tt
  unfolding validate_action_proposal
  accepted-digest p fields digest =
      let digest_check =
        λ (expected : String). guard (p.proposal_digest == expected) ErrorCode.invalid_proposal in
      ap
        (λ (c : Check).
          c >>= (λ done. compute_proposal_digest host p.schema_version p.content >>= digest_check))
        fields
      ∙ ap (λ (c : Result ErrorCode String). c >>= digest_check) digest
      ∙ ap (λ b. guard b ErrorCode.invalid_proposal) (eq_refl p.proposal_digest)

  -- A proposal that createActionProposal makes has the content of its input and is accepted by
  -- validateActionProposal.
  pub create_action_proposal-validates :
      (input : ActionProposalInput) (p : ActionProposal)
      → create_action_proposal host input ≡ ok p
      → (p.content ≡ input) × (validate_action_proposal host p ≡ ok tt)
  unfolding create_action_proposal
  create_action_proposal-validates input p h =
      let (_, fields, h₁) =
        >>=-eq-ok (validate_proposal_fields host action_schema_version input) _ h in
      let (digest, computed, h₂) =
        >>=-eq-ok (compute_proposal_digest host action_schema_version input) _ h₁ in
      let made = ok-injective h₂ in
      (
        ap (λ (q : ActionProposal). q.content) (sym made),
        subst (λ q. validate_action_proposal host q ≡ ok tt) made
            (accepted-digest _ fields computed),
      )
