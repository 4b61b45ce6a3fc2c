-- ===== src/Session/Projector/Approving.antt =====
-- What the checks of the projector, an approval and a start say of the entry and of the pending
-- action (packages/session-runtime/src/projector.ts).
use qodex.Common.{
  ◌≡◌, String, true, false, ◌⊎◌, Option, none, some, ◌∷◌, has, ok, arith, eq_iff, >>=-eq-ok,
  require-eq-ok, guard-eq-ok, guard, require, ◌>>=◌, ◌>>◌, not, ◌&&◌, Bool-cases, inl, inr,
}
use qodex.Session.Entries.{
  SessionStatus, Entry, Kind, Decision, LedgerError, action_id_of, approval_id_of,
  approval_generation_of, execution_receipt_id_of, truthy, metadata_text, required_metadata_text,
}
use qodex.Session.Projector.State.{PendingAction, State, is_text, kind_eq, is_allow}
use qodex.Session.Projector.Checks.{
  require_pending, require_kind, require_approval_binding, require_started,
}
use qodex.Session.Projector.Steps.{approve, start, require_allow}

truthy-eq-some : (o : Option String) {s : String} → truthy o ≡ some s → o ≡ some s
truthy-eq-some none h = cc
truthy-eq-some (some a) h = ground arith

pub is_text-eq-some : (o : Option String) (s : String) → is_text o s ≡ true → o ≡ some s
is_text-eq-some none s h = cc
is_text-eq-some (some a) s h = ground (arith, eq_iff a s)

-- The entry names the action that is pending.
pub require_pending-eq-ok :
    (o : Option PendingAction) (e : Entry) {p : PendingAction}
    → require_pending o e ≡ ok p
    → (o ≡ some p) × (action_id_of e ≡ some p.action_id)
unfolding require_pending
require_pending-eq-ok none e h = cc
require_pending-eq-ok (some q) e h =
    let (a, found, h₁) =
      >>=-eq-ok (require (truthy (action_id_of e)) LedgerError.missing_action_id) _ h in
    let mine =
      truthy-eq-some (action_id_of e) (require-eq-ok _ LedgerError.missing_action_id found) in
    ground (arith, eq_iff a q.action_id)

pub required-eq-ok :
    (key : String) (e : Entry) {v : String}
    → required_metadata_text key e ≡ ok v
    → metadata_text key e ≡ some v
unfolding required_metadata_text
required-eq-ok key e h = require-eq-ok _ (LedgerError.missing_metadata key) h

-- The entry names the approval that the action holds, and its generation.
pub require_approval_binding-eq-ok :
    (p : PendingAction) (e : Entry) {u : Unit {0}}
    → require_approval_binding p e ≡ ok u
    → (a : String) × (approval_id_of e ≡ some a)
      × (p.approval_id ≡ some a)
      × (approval_generation_of e ≡ some p.approval_generation)
unfolding require_approval_binding
require_approval_binding-eq-ok p e h =
    let (a, found, h₁) =
      >>=-eq-ok (require (approval_id_of e) LedgerError.missing_approval_id) _ h in
    (
      a,
      require-eq-ok _ LedgerError.missing_approval_id found,
      ground (arith, is_text-eq-some p.approval_id a),
      ground arith,
    )

pub require_started-eq-ok :
    (p : PendingAction) (e : Entry) {u : Unit {0}}
    → require_started p e ≡ ok u
    → (r : String) × (p.started ≡ true)
      × (execution_receipt_id_of e ≡ some r)
      × (p.execution_receipt_id ≡ some r)
unfolding require_started
require_started-eq-ok p e h =
    let (_, h₀, h₁) = >>=-eq-ok (guard p.approved LedgerError.settled_unapproved) _ h in
    let (_, h₂, h₃) = >>=-eq-ok (guard p.started LedgerError.settled_unstarted) _ h₁ in
    let (_, h₄, h₅) = >>=-eq-ok (guard (not p.settled) LedgerError.settled_twice) _ h₃ in
    let (_, h₆, h₇) = >>=-eq-ok (require_approval_binding p e) _ h₅ in
    let (r, h₈, h₉) =
      >>=-eq-ok (require (execution_receipt_id_of e) LedgerError.missing_receipt) _ h₇ in
    (
      r,
      guard-eq-ok _ LedgerError.settled_unstarted h₂,
      require-eq-ok _ LedgerError.missing_receipt h₈,
      is_text-eq-some _ r (guard-eq-ok _ LedgerError.different_receipt h₉),
    )

pub approve_inv :
    (e : Entry) (s t : State)
    → approve e s ≡ ok t
    → (p : PendingAction) × (approval_id : String) × (s.pending_action ≡ some p)
      × (action_id_of e ≡ some p.action_id)
      × (approval_id_of e ≡ some approval_id)
      × (approval_generation_of e ≡ some p.approval_generation)
      × (p.started ≡ false)
      × (has approval_id s.approval_ids ≡ false)
      × (t ≡ record s {
        approval_ids = approval_id ∷ s.approval_ids;
        pending_action = some (record p {
          approved = true;
          approval_id = some approval_id;
          recovery_required = false;
        });
        recovery_requirement = none;
        status = SessionStatus.active;
      })
unfolding approve
approve_inv e s t h =
    let (p, found, _) = >>=-eq-ok (require_pending s.pending_action e) _ h in
    let (found, mine) = require_pending-eq-ok s.pending_action e found in ground arith

-- A start needs an approval that the entry names, and for an action or a command an allow
-- decision that it names too.
pub start_inv :
    (e : Entry) (s t : State)
    → start e s ≡ ok t
    → (p : PendingAction) × (receipt : String) × (s.pending_action ≡ some p)
      × (action_id_of e ≡ some p.action_id)
      × (require_kind p e ≡ ok tt)
      × (p.approved ≡ true)
      × (p.started ≡ false)
      × (require_approval_binding p e ≡ ok tt)
      × (require_allow p e ≡ ok tt)
      × (execution_receipt_id_of e ≡ some receipt)
      × (t ≡ record s {
        pending_action = some (record p { started = true; execution_receipt_id = some receipt });
      })
unfolding start
start_inv e s t h =
    let (p, found, _) = >>=-eq-ok (require_pending s.pending_action e) _ h in
    let (found, mine) = require_pending-eq-ok s.pending_action e found in ground arith

allow-eq-ok :
    (p : PendingAction) (e : Entry) {u : Unit {0}}
    → ((guard (p.decision_recorded && is_allow p.decision) LedgerError.no_prior_allow)
        >> (required_metadata_text "decisionId" e >>= λ d.
            guard (is_text p.decision_id d) LedgerError.different_decision))
      ≡ ok u
    → (p.decision_recorded ≡ true)
      × (p.decision ≡ some Decision.allow)
      × (d : String) × (metadata_text "decisionId" e ≡ some d)
      × (p.decision_id ≡ some d)
allow-eq-ok p e h =
    let (u, h₀, h₁) =
      >>=-eq-ok (guard (p.decision_recorded && is_allow p.decision) LedgerError.no_prior_allow) _
        h in
    let (d, h₂, h₃) = >>=-eq-ok (required_metadata_text "decisionId" e) _ h₁ in
    (
      ground arith,
      ground arith,
      d,
      required-eq-ok "decisionId" e h₂,
      is_text-eq-some _ d (guard-eq-ok _ LedgerError.different_decision h₃),
    )

pub require_allow-eq-ok :
    (p : PendingAction) (e : Entry) {u : Unit {0}}
    → require_allow p e ≡ ok u
    → (p.kind ≡ Kind.patch)
      ⊎ ((p.decision_recorded ≡ true)
          × (p.decision ≡ some Decision.allow)
          × (d : String) × (metadata_text "decisionId" e ≡ some d)
          × (p.decision_id ≡ some d))
unfolding require_allow
require_allow-eq-ok p e h = elim (Bool-cases (kind_eq p.kind Kind.patch)) [
  | inl free ↦ inl (ground arith)
  | inr bound ↦ inr (ground (arith, allow-eq-ok p e))
]
