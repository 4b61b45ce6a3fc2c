-- ===== src/Session/Projector/Inversion.antt =====
-- What a successful step says of the entry and of the pending action
-- (packages/session-runtime/src/projector.ts).
use qodex.Common.{
  ◌≡◌, refl, String, Bool, true, false, ◌⊎◌, Option, none, some, suc, has, ok, arith, >>=-eq-ok,
  require-eq-ok, guard-not-eq-ok, ok-injective, sym, guard, require, not, ◌&&◌, inl, inr,
}
use qodex.Session.Entries.{
  SessionStatus, Entry, Kind, Decision, LedgerError, action_id_of, metadata_text,
  required_metadata_text, decision_of, Reason,
}
use qodex.Session.Projector.State.{PendingAction, State, kind_eq, is_hold}
use qodex.Session.Projector.Checks.{
  require_pending, require_no_unsettled_started_action, require_started, require_recovery_kind,
}
use qodex.Session.Projector.Steps.{
  decided_action, record_decision, decide, require_decidable, decision_evidence, complete,
  complete_command, close, fail, deny, reapprovable,
}
use qodex.Session.Projector.Approving.{require_pending-eq-ok, required-eq-ok}

pub record_decision-pending :
    (s : State) (d : String) (x : Decision) (q : PendingAction)
    → ((record_decision s d x q).pending_action ≡ none)
      ⊎ ((x ≡ Decision.allow) × ((record_decision s d x q).pending_action ≡ some q))
record_decision-pending s d Decision.allow q = inr (refl, refl)
record_decision-pending s d _ q = inl refl

-- A recorded decision is an allow decision; any other settles the action.
pub decide_inv :
    (pd : String → Bool) (e : Entry) (s t : State)
    → decide pd e s ≡ ok t
    → (p : PendingAction) × (d : String) × (x : Decision) × (r a : Option String) × (v w c : String)
      × (s.pending_action ≡ some p)
      × (action_id_of e ≡ some p.action_id)
      × (require_decidable p e ≡ ok tt)
      × (metadata_text "decisionId" e ≡ some d)
      × (has d s.decision_ids ≡ false)
      × (decision_of e ≡ some x)
      × (t ≡ record_decision s d x (decided_action p d x r a v w c))
unfolding decide
decide_inv pd e s t h =
    let (p, h₀, h₁) = >>=-eq-ok (require_pending s.pending_action e) _ h in
    let (found, mine) = require_pending-eq-ok s.pending_action e h₀ in
    let (u, h₂, h₃) = >>=-eq-ok (require_decidable p e) _ h₁ in
    let (d, h₄, h₅) = >>=-eq-ok (required_metadata_text "decisionId" e) _ h₃ in
    let (_, h₆, h₇) =
      >>=-eq-ok (guard (not (has d s.decision_ids)) LedgerError.decision_reused) _ h₅ in
    let (x, h₈, h₉) = >>=-eq-ok (require (decision_of e) LedgerError.unsupported_decision) _ h₇ in
    let (_, g₀, g₁) =
      >>=-eq-ok (guard (not (kind_eq p.kind Kind.command && is_hold x)) LedgerError.hold_command) _
        h₉ in
    let (v, g₂, g₃) = >>=-eq-ok (required_metadata_text "policyVersion" e) _ g₁ in
    let (w, g₄, g₅) = >>=-eq-ok (required_metadata_text "decisionSchemaVersion" e) _ g₃ in
    let (c, g₆, g₇) = >>=-eq-ok (required_metadata_text "agentFuseCommit" e) _ g₅ in
    let ((r, a), g₈, g₉) = >>=-eq-ok (decision_evidence pd p e) _ g₇ in
    (
      p,
      d,
      x,
      r,
      a,
      v,
      w,
      c,
      found,
      mine,
      h₂,
      required-eq-ok _ e h₄,
      guard-not-eq-ok _ LedgerError.decision_reused h₆,
      require-eq-ok _ LedgerError.unsupported_decision h₈,
      sym (ok-injective g₉),
    )

-- A settlement names the action and the receipt that it was started with.
pub complete_inv :
    (e : Entry) (s t : State)
    → complete e s ≡ ok t
    → (p : PendingAction) × (s.pending_action ≡ some p)
      × (action_id_of e ≡ some p.action_id)
      × (require_started p e ≡ ok tt)
      × (t.pending_action ≡ none)
unfolding complete
complete_inv e s t h =
    let (p, found, _) = >>=-eq-ok (require_pending s.pending_action e) _ h in
    let (found, mine) = require_pending-eq-ok s.pending_action e found in ground arith

pub fail_inv :
    (e : Entry) (s t : State)
    → fail e s ≡ ok t
    → (p : PendingAction) × (s.pending_action ≡ some p)
      × (action_id_of e ≡ some p.action_id)
      × (require_started p e ≡ ok tt)
      × (t.pending_action ≡ none)
unfolding fail
fail_inv e s t h =
    let (p, found, _) = >>=-eq-ok (require_pending s.pending_action e) _ h in
    let (found, mine) = require_pending-eq-ok s.pending_action e found in ground arith

pub complete_command_inv :
    (e : Entry) (s t : State)
    → complete_command e s ≡ ok t
    → (p : PendingAction) × (s.pending_action ≡ some p)
      × (action_id_of e ≡ some p.action_id)
      × (require_started p e ≡ ok tt)
      × (t.pending_action ≡ none)
unfolding complete_command
complete_command_inv e s t h =
    let (u, done, h₁) = >>=-eq-ok (complete e s) _ h in
    let (p, found, mine, started, gone) = complete_inv e s u done in
    (p, found, mine, started, rw (← ok-injective h₁) gone)

pub deny_inv : (e : Entry) (s t : State) → deny e s ≡ ok t → t.pending_action ≡ none
unfolding deny
deny_inv e s t h =
    let (p, found, _) = >>=-eq-ok (require_pending s.pending_action e) _ h in ground arith

pub close_inv :
    (status : SessionStatus) (e : Entry) (s t : State)
    → close status e s ≡ ok t
    → (require_no_unsettled_started_action s.pending_action ≡ ok tt)
      × (t.pending_action ≡ none)
      × (t.status ≡ status)
      × (t.completed_at ≡ some e.created_at)
unfolding close
close_inv status e s t h = ground arith

-- A reapproval forgets the approval and the decision, and is refused once the action started.
pub reapprovable_inv :
    (e : Entry) (reason : Reason) (p q : PendingAction)
    → reapprovable e reason p ≡ ok q
    → (p.started ≡ false)
      × (q.started ≡ p.started)
      × (q.approved ≡ false)
      × (q.decision_recorded ≡ false)
      × (q.settled ≡ p.settled)
      × (q.recovery_required ≡ true)
      × (q.approval_generation ≡ suc p.approval_generation)
unfolding reapprovable
reapprovable_inv e reason p q h =
    let (_, h₀, h₁) = >>=-eq-ok (require_recovery_kind p reason) _ h in ground arith
