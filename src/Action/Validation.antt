-- ===== src/Action/Validation.antt =====
-- The validators of packages/action-runtime/src/validation.ts. A `Json` is a finite tree, so the
-- search for circular references never finds one.
pub mod Inversion
pub mod Proposals
use qodex.Common.{
  ℕ, zero, suc, String, Bool, true, false, not, ◌&&◌, ◌||◌, Option, none, some, ◌==◌, leb, Result,
  ok, err, guard, require, ◌>>=◌, ◌>>◌,
}
use qodex.Common.Text.{is_blank, is_sha256}
use qodex.Session.Json.{Number, Json, Items, Fields, same_number}
use qodex.Session.Validation.{is_finite}
use qodex.Action.Types.{
  ActionProposalInput, ActionProposal, ActionApproval, ActionDecision, ActionStarted, ActionOutcome,
  Verdict, OutcomeStatus, OutcomeError, ErrorCode,
}
use qodex.Action.Canonical.{
  ActionHost, canonical_json, compute_proposal_digest, action_schema_version, is_rfc3339,
  is_safe_message, utf16_length,
}

abbrev pub Check : Type 0
Check = Result ErrorCode (Unit {0})

unfoldable pub require_text : String → ErrorCode → Check
require_text value code = guard (not (is_blank value)) code

-- `Number.isInteger(n) && n > 0`
unfoldable pub positive_integer : Number → Option ℕ
positive_integer (Number.natural (suc n)) = some (suc n)
positive_integer _ = none

abbrev pub is_present {ℓ} : {A : Type ℓ} → Option A → Bool
is_present none = false
is_present (some a) = true

unfoldable mutual
  assert_json_value : Json → ErrorCode → Check
  assert_json_value (Json.num n) code = guard (is_finite n) code
  assert_json_value (Json.arr xs) code = assert_json_items xs code
  assert_json_value (Json.obj fs) code = assert_json_fields fs code
  assert_json_value _ code = ok tt

  assert_json_items : Items → ErrorCode → Check
  assert_json_items Items.nil code = ok tt
  assert_json_items (Items.cons item xs) code = do
    assert_json_value item code
    assert_json_items xs code

  assert_json_fields : Fields → ErrorCode → Check
  assert_json_fields Fields.end code = ok tt
  assert_json_fields (Fields.field key item fs) code = do
    assert_json_value item code
    assert_json_fields fs code

-- `if (value !== null) check(value)`
abbrev pub when_some {ℓ} : {A : Type ℓ} → Option A → (A → Check) → Check
when_some none check = ok tt
when_some (some a) check = check a

abbrev pub same_verdict_allow : Verdict → Bool
same_verdict_allow Verdict.allow = true
same_verdict_allow _ = false

unfoldable pub binds_proposal : ActionApproval → ActionProposal → Bool
binds_proposal approval proposal =
    approval.action_id == proposal.action_id
    && approval.task_id == proposal.task_id
    && approval.proposal_digest == proposal.proposal_digest

abbrev pub both :
    Option ActionProposal
    → Option ActionApproval
    → (ActionProposal → ActionApproval → Check)
    → Check
both (some p) (some a) check = check p a
both _ _ check = ok tt

unfoldable pub validate_outcome_error : OutcomeError → Check
unfolding require_text utf16_length is_safe_message
validate_outcome_error error = do
  require_text error.code ErrorCode.invalid_outcome
  require_text error.message ErrorCode.invalid_outcome
  guard (leb (utf16_length error.message) 500 && is_safe_message error.message)
      ErrorCode.invalid_outcome

-- the last four tests, on which of `result` and `error` a status has
unfoldable pub outcome_fits : OutcomeStatus → Option Json → Option OutcomeError → Bool
outcome_fits OutcomeStatus.completed result error = not (is_present error)
outcome_fits OutcomeStatus.failed result error = not (is_present result) && is_present error
outcome_fits OutcomeStatus.cancelled result error = not (is_present result) && is_present error
outcome_fits OutcomeStatus.unknown_or_interrupted result none = false
outcome_fits OutcomeStatus.unknown_or_interrupted result (some error) =
    not (is_present result) && error.code == "settlement_persistence_failed"

module _ (host : ActionHost) where
  unfoldable pub timestamp : String → ErrorCode → Result ErrorCode ℕ
  unfolding is_rfc3339
  timestamp value code = do
    guard (not (is_blank value)) code
    guard (is_rfc3339 value) code
    require (host.parse_date value) code

  unfoldable pub validate_bounded_json_value : Json → (limit : Number) → ErrorCode → Check
  unfolding positive_integer canonical_json assert_json_value
  validate_bounded_json_value value limit code = do
    most ← require (positive_integer limit) code
    assert_json_value value code
    text ← canonical_json host value
    guard (leb (host.byte_length text) most) code

  unfoldable pub validate_action_approval :
      ActionApproval
      → Option ActionProposal
      → (expected_generation : Option Number) → (now : ℕ) → Check
  unfolding require_text positive_integer timestamp binds_proposal same_number
  validate_action_approval approval proposal expected_generation now = do
    require_text approval.approval_id ErrorCode.invalid_approval
    require_text approval.action_id ErrorCode.invalid_approval
    require_text approval.task_id ErrorCode.invalid_approval
    guard (is_sha256 approval.proposal_digest) ErrorCode.invalid_approval
    generation ← require (positive_integer approval.generation) ErrorCode.invalid_approval
    approved_at ← timestamp approval.approved_at ErrorCode.invalid_approval
    expires_at ← timestamp approval.expires_at ErrorCode.invalid_approval
    guard (not (leb expires_at now)) ErrorCode.approval_expired
    guard (not (leb expires_at approved_at)) ErrorCode.invalid_approval
    when_some proposal (λ p. guard (binds_proposal approval p) ErrorCode.approval_mismatch)
    when_some expected_generation
        (λ g. guard (same_number approval.generation g) ErrorCode.approval_generation_mismatch)

  unfoldable pub validate_action_decision :
      ActionDecision → Option ActionProposal → (evidence_size_limit : Number) → Check
  unfolding require_text timestamp validate_bounded_json_value
  validate_action_decision decision proposal evidence_size_limit = do
    require_text decision.decision_id ErrorCode.invalid_decision
    require_text decision.action_id ErrorCode.invalid_decision
    when_some proposal (λ p. guard (decision.action_id == p.action_id) ErrorCode.decision_mismatch)
    require_text decision.reason_code ErrorCode.invalid_decision
    require_text decision.summary ErrorCode.invalid_decision
    require_text decision.policy_version ErrorCode.invalid_decision
    validate_bounded_json_value decision.evidence evidence_size_limit ErrorCode.invalid_decision
    parsed ← timestamp decision.decided_at ErrorCode.invalid_decision
    ok tt

  unfoldable pub validate_action_started :
      ActionStarted
      → Option ActionProposal
      → Option ActionApproval
      → Option ActionDecision
      → (now : ℕ) → Check
  unfolding require_text timestamp validate_action_approval
  validate_action_started started proposal approval decision now = do
    require_text started.action_id ErrorCode.invalid_started
    require_text started.approval_id ErrorCode.invalid_started
    require_text started.decision_id ErrorCode.invalid_started
    require_text started.execution_receipt_id ErrorCode.invalid_started
    parsed ← timestamp started.started_at ErrorCode.invalid_started
    when_some proposal (λ p. guard (started.action_id == p.action_id) ErrorCode.invalid_started)
    when_some approval (λ a. guard (started.approval_id == a.approval_id) ErrorCode.invalid_started)
    both proposal approval (λ p a. validate_action_approval a (some p) (some a.generation) now)
    when_some decision (λ d.
        guard (same_verdict_allow d.decision && started.decision_id == d.decision_id)
          ErrorCode.invalid_started)

  unfoldable pub validate_action_outcome :
      ActionOutcome
      → Option ActionProposal
      → Option ActionStarted
      → (json_size_limit : Number) → Check
  unfolding require_text timestamp validate_bounded_json_value validate_outcome_error outcome_fits
  validate_action_outcome outcome proposal started json_size_limit = do
    require_text outcome.action_id ErrorCode.invalid_outcome
    require_text outcome.execution_receipt_id ErrorCode.invalid_outcome
    parsed ← timestamp outcome.settled_at ErrorCode.invalid_outcome
    when_some proposal (λ p. guard (outcome.action_id == p.action_id) ErrorCode.invalid_outcome)
    when_some started (λ s.
        guard (outcome.execution_receipt_id == s.execution_receipt_id) ErrorCode.invalid_outcome)
    when_some outcome.result
        (λ value. validate_bounded_json_value value json_size_limit ErrorCode.invalid_outcome)
    when_some outcome.error validate_outcome_error
    guard (outcome_fits outcome.status outcome.result outcome.error) ErrorCode.invalid_outcome

  unfoldable pub validate_proposal_fields : String → ActionProposalInput → Check
  unfolding timestamp assert_json_value canonical_json
  validate_proposal_fields version input = do
    guard (version == action_schema_version) ErrorCode.invalid_proposal
    guard
        (not (
          is_blank input.action_id
          || is_blank input.task_id
          || is_blank input.action_type
          || is_blank input.title
          || is_blank input.summary
          || is_blank input.requested_at))
        ErrorCode.invalid_proposal
    time ← require (host.parse_date input.requested_at) ErrorCode.invalid_proposal
    parsed ← timestamp input.requested_at ErrorCode.invalid_proposal
    assert_json_value input.parameters ErrorCode.invalid_proposal
    text ← canonical_json host input.parameters
    ok tt

  unfoldable pub create_action_proposal : ActionProposalInput → Result ErrorCode ActionProposal
  unfolding validate_proposal_fields compute_proposal_digest
  create_action_proposal input = do
    validate_proposal_fields action_schema_version input
    digest ← compute_proposal_digest host action_schema_version input
    ok (record {
      schema_version = action_schema_version;
      content = input;
      proposal_digest = digest;
    })

  unfoldable pub validate_action_proposal : ActionProposal → Check
  unfolding validate_proposal_fields compute_proposal_digest
  validate_action_proposal proposal = do
    validate_proposal_fields proposal.schema_version proposal.content
    expected ← compute_proposal_digest host proposal.schema_version proposal.content
    guard (proposal.proposal_digest == expected) ErrorCode.invalid_proposal
