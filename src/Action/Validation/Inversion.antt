-- ===== src/Action/Validation/Inversion.antt =====
-- What an approval, a decision, a receipt and an outcome say that a validator accepts
-- (packages/action-runtime/src/validation.ts).
use qodex.Common.{
  ◌≡◌, refl, ℕ, String, true, false, some, ok, ◌==◌, eq_iff, ◌&&◌, >>=-eq-ok, &&-eq-true,
  guard-eq-ok, guard-not-eq-ok, require-eq-ok, leb, guard, require, not,
}
use qodex.Common.Text.{is_sha256, is_blank}
use qodex.Session.Json.{Number, same_number}
use qodex.Action.Types.{
  ActionProposal, ActionApproval, ActionDecision, ActionStarted, ActionOutcome, Verdict, ErrorCode,
}
use qodex.Action.Canonical.{ActionHost, is_rfc3339}
use qodex.Action.Validation.{
  validate_action_approval, validate_action_decision, validate_action_started,
  validate_action_outcome, outcome_fits, validate_bounded_json_value, validate_outcome_error,
  same_verdict_allow, binds_proposal, require_text, positive_integer, timestamp, when_some,
}

pub binds_proposal-eqs :
    (a : ActionApproval) (p : ActionProposal)
    → binds_proposal a p ≡ true
    → (a.action_id ≡ p.action_id)
      × (a.task_id ≡ p.task_id)
      × (a.proposal_digest ≡ p.proposal_digest)
unfolding binds_proposal
binds_proposal-eqs a p h =
    let (both_ids, content) =
      &&-eq-true (a.action_id == p.action_id && a.task_id == p.task_id) _ h in
    let (action, task) = &&-eq-true (a.action_id == p.action_id) _ both_ids in
    (
      (eq_iff a.action_id p.action_id).0 action,
      (eq_iff a.task_id p.task_id).0 task,
      (eq_iff a.proposal_digest p.proposal_digest).0 content,
    )

allow-eq : (v : Verdict) → same_verdict_allow v ≡ true → v ≡ Verdict.allow
allow-eq Verdict.allow h = refl
allow-eq _ h = cc

module _ (host : ActionHost) where
  timestamp-parses :
      (text : String) (code : ErrorCode) {time : ℕ}
      → timestamp host text code ≡ ok time
      → host.parse_date text ≡ some time
  unfolding timestamp
  timestamp-parses text code h =
      let (_, _, h₁) = >>=-eq-ok (guard (not (is_blank text)) code) _ h in
      let (_, _, h₂) = >>=-eq-ok (guard (is_rfc3339 text) code) _ h₁ in
      require-eq-ok (host.parse_date text) code h₂

  pub validate_action_approval_inv :
      (a : ActionApproval) (p : ActionProposal) (g : Number) (now : ℕ)
      → validate_action_approval host a (some p) (some g) now ≡ ok tt
      → (expires : ℕ) × (host.parse_date a.expires_at ≡ some expires)
        × (leb expires now ≡ false)
        × (binds_proposal a p ≡ true)
        × (same_number a.generation g ≡ true)
  unfolding validate_action_approval
  validate_action_approval_inv a p g now h =
      let code = ErrorCode.invalid_approval in
      let (_, _, h₁) = >>=-eq-ok (require_text a.approval_id code) _ h in
      let (_, _, h₂) = >>=-eq-ok (require_text a.action_id code) _ h₁ in
      let (_, _, h₃) = >>=-eq-ok (require_text a.task_id code) _ h₂ in
      let (_, _, h₄) = >>=-eq-ok (guard (is_sha256 a.proposal_digest) code) _ h₃ in
      let (_, _, h₅) = >>=-eq-ok (require (positive_integer a.generation) code) _ h₄ in
      let (approved, _, h₆) = >>=-eq-ok (timestamp host a.approved_at code) _ h₅ in
      let (expires, parsed, h₇) = >>=-eq-ok (timestamp host a.expires_at code) _ h₆ in
      let (_, fresh, h₈) =
        >>=-eq-ok (guard (not (leb expires now)) ErrorCode.approval_expired) _ h₇ in
      let (_, _, h₉) = >>=-eq-ok (guard (not (leb expires approved)) code) _ h₈ in
      let (_, bound, same) =
        >>=-eq-ok (guard (binds_proposal a p) ErrorCode.approval_mismatch) _ h₉ in
      (
        expires,
        timestamp-parses a.expires_at code parsed,
        guard-not-eq-ok (leb expires now) ErrorCode.approval_expired fresh,
        guard-eq-ok (binds_proposal a p) ErrorCode.approval_mismatch bound,
        guard-eq-ok (same_number a.generation g) ErrorCode.approval_generation_mismatch same,
      )

  pub validate_action_decision_inv :
      (d : ActionDecision) (p : ActionProposal) (limit : Number)
      → validate_action_decision host d (some p) limit ≡ ok tt
      → d.action_id ≡ p.action_id
  unfolding validate_action_decision
  validate_action_decision_inv d p limit h =
      let (_, _, h₁) = >>=-eq-ok (require_text d.decision_id ErrorCode.invalid_decision) _ h in
      let (_, _, h₂) = >>=-eq-ok (require_text d.action_id ErrorCode.invalid_decision) _ h₁ in
      let (_, same, _) =
        >>=-eq-ok (guard (d.action_id == p.action_id) ErrorCode.decision_mismatch) _ h₂ in
      (eq_iff d.action_id p.action_id).0
        (guard-eq-ok (d.action_id == p.action_id) ErrorCode.decision_mismatch same)

  pub validate_action_started_inv :
      (receipt : ActionStarted) (p : ActionProposal) (a : ActionApproval) (d : ActionDecision)
      (now : ℕ)
      → validate_action_started host receipt (some p) (some a) (some d) now ≡ ok tt
      → (receipt.action_id ≡ p.action_id)
        × (receipt.approval_id ≡ a.approval_id)
        × (d.decision ≡ Verdict.allow)
        × (receipt.decision_id ≡ d.decision_id)
  unfolding validate_action_started
  validate_action_started_inv receipt p a d now h =
      let code = ErrorCode.invalid_started in
      let (_, _, h₁) = >>=-eq-ok (require_text receipt.action_id code) _ h in
      let (_, _, h₂) = >>=-eq-ok (require_text receipt.approval_id code) _ h₁ in
      let (_, _, h₃) = >>=-eq-ok (require_text receipt.decision_id code) _ h₂ in
      let (_, _, h₄) = >>=-eq-ok (require_text receipt.execution_receipt_id code) _ h₃ in
      let (_, _, h₅) = >>=-eq-ok (timestamp host receipt.started_at code) _ h₄ in
      let (_, action, h₆) = >>=-eq-ok (guard (receipt.action_id == p.action_id) code) _ h₅ in
      let (_, named, h₇) = >>=-eq-ok (guard (receipt.approval_id == a.approval_id) code) _ h₆ in
      let (_, _, h₈) =
        >>=-eq-ok (validate_action_approval host a (some p) (some a.generation) now) _ h₇ in
      let (allow, same) =
        &&-eq-true (same_verdict_allow d.decision) (receipt.decision_id == d.decision_id) (
          guard-eq-ok (same_verdict_allow d.decision && receipt.decision_id == d.decision_id) code
            h₈) in
      (
        (eq_iff receipt.action_id p.action_id).0
            (guard-eq-ok (receipt.action_id == p.action_id) code action),
        (eq_iff receipt.approval_id a.approval_id).0
            (guard-eq-ok (receipt.approval_id == a.approval_id) code named),
        allow-eq d.decision allow,
        (eq_iff receipt.decision_id d.decision_id).0 same,
      )

  pub validate_action_outcome_inv :
      (o : ActionOutcome) (p : ActionProposal) (receipt : ActionStarted) (limit : Number)
      → validate_action_outcome host o (some p) (some receipt) limit ≡ ok tt
      → (o.action_id ≡ p.action_id)
        × (o.execution_receipt_id ≡ receipt.execution_receipt_id)
        × (outcome_fits o.status o.result o.error ≡ true)
  unfolding validate_action_outcome
  validate_action_outcome_inv o p receipt limit h =
      let code = ErrorCode.invalid_outcome in
      let (_, _, h₁) = >>=-eq-ok (require_text o.action_id code) _ h in
      let (_, _, h₂) = >>=-eq-ok (require_text o.execution_receipt_id code) _ h₁ in
      let (_, _, h₃) = >>=-eq-ok (timestamp host o.settled_at code) _ h₂ in
      let (_, action, h₄) = >>=-eq-ok (guard (o.action_id == p.action_id) code) _ h₃ in
      let (_, same, h₅) =
        >>=-eq-ok (guard (o.execution_receipt_id == receipt.execution_receipt_id) code) _ h₄ in
      let (_, _, h₆) =
        >>=-eq-ok (when_some o.result (λ value. validate_bounded_json_value host value limit code))
          _ h₅ in
      let (_, _, h₇) = >>=-eq-ok (when_some o.error validate_outcome_error) _ h₆ in
      (
        (eq_iff o.action_id p.action_id).0 (guard-eq-ok (o.action_id == p.action_id) code action),
        (eq_iff o.execution_receipt_id receipt.execution_receipt_id).0
            (guard-eq-ok (o.execution_receipt_id == receipt.execution_receipt_id) code same),
        guard-eq-ok (outcome_fits o.status o.result o.error) code h₇,
      )
