-- ===== src/Session/Recovery/Tracking.antt =====
-- How recovery and projection see the started action
-- (packages/session-runtime/src/recovery.ts, src/projector.ts), and steps from an idle action.
use qodex.Common.{
  ◌≡◌, sym, subst, ◌∙◌, String, Bool, false, ◌⊎◌, inl, inr, Option, none, some, [], ◌∷◌, ok, arith,
  eq_iff, >>=-eq-ok, require-eq-ok, require, ok-injective,
}
use mathlib.Core.Option
use qodex.Common.Maps.{Table}
use qodex.Session.Entries.{
  SessionStatus, Entry, Kind, LedgerError, Reason, truthy, action_id_of, recovery_reason,
}
use qodex.Session.Projector.State.{PendingAction, State, Step}
use qodex.Session.Projector.Checks.{require_pending, require_no_pending, proposed}
use qodex.Session.Projector.Steps.{
  start, approve, decide, require_decidable, complete, complete_command, fail, reapprovable,
  recover_action, require_recovery, finish_recovery, interrupt, interrupted_action, decided_action,
}
use qodex.Session.Projector.Fold.{propose}
use qodex.Session.Projector.Inversion.{decide_inv, reapprovable_inv, record_decision-pending}
use qodex.Session.Projector.Approving.{require_pending-eq-ok, approve_inv}
use qodex.Session.Projector.Started.{IsOpen}
use qodex.Session.Recovery.Search.{Unmatched}

-- nothing is pending, or the pending action has not started
abbrev pub IsIdle : Option PendingAction → Type 0
IsIdle none = Unit
IsIdle (some p) = p.started ≡ false

-- what the loop knows of the action `a`, that no entry closed the session over
abbrev pub evidence_of : String → Bool → Unmatched
evidence_of a b = record {
  action_id = a;
  masking_terminal_parent_entry_id = none;
  already_interrupted = b;
}

-- Recovery and projection agree on the started action.
abbrev pub Tracks : Table Unmatched → Option PendingAction → SessionStatus → Type 0
Tracks m o status =
    ((m ≡ []) × IsIdle o)
    ⊎ ((a : String) × (b : Bool) × (m ≡ (a, evidence_of a b) ∷ []) × IsOpen a o status)

require_pending-named :
    (o : Option PendingAction) (e : Entry) {p : PendingAction}
    → require_pending o e ≡ ok p
    → truthy (action_id_of e) ≡ some p.action_id
unfolding require_pending
require_pending-named none e h = cc
require_pending-named (some q) e h =
    let (a, found, h₁) =
      >>=-eq-ok (require (truthy (action_id_of e)) LedgerError.missing_action_id) _ h in
    let held = require-eq-ok (truthy (action_id_of e)) LedgerError.missing_action_id found in
    ground (arith, eq_iff a q.action_id)

module _ (e : Entry) (s t : State) where
  pub start-named :
      start e s ≡ ok t
      → (p : PendingAction) × (s.pending_action ≡ some p)
        × (truthy (action_id_of e) ≡ some p.action_id)
  unfolding start
  start-named h =
      let (p, found, _) = >>=-eq-ok (require_pending s.pending_action e) _ h in
      (p, (require_pending-eq-ok _ e found).0, require_pending-named _ e found)

  pub complete-named :
      complete e s ≡ ok t
      → (p : PendingAction) × (s.pending_action ≡ some p)
        × (truthy (action_id_of e) ≡ some p.action_id)
  unfolding complete
  complete-named h =
      let (p, found, _) = >>=-eq-ok (require_pending s.pending_action e) _ h in
      (p, (require_pending-eq-ok _ e found).0, require_pending-named _ e found)

  pub fail-named :
      fail e s ≡ ok t
      → (p : PendingAction) × (s.pending_action ≡ some p)
        × (truthy (action_id_of e) ≡ some p.action_id)
  unfolding fail
  fail-named h =
      let (p, found, _) = >>=-eq-ok (require_pending s.pending_action e) _ h in
      (p, (require_pending-eq-ok _ e found).0, require_pending-named _ e found)

pub complete_command-named :
    (e : Entry) (s t : State)
    → complete_command e s ≡ ok t
    → (p : PendingAction) × (s.pending_action ≡ some p)
      × (truthy (action_id_of e) ≡ some p.action_id)
unfolding complete_command
complete_command-named e s t h =
    let (u, done, _) = >>=-eq-ok (complete e s) _ h in complete-named e s u done

-- an action that is proposed has not started
pub propose-IsIdle :
    (k : Kind) (e : Entry) (s t : State) → propose k e s ≡ ok t → IsIdle t.pending_action
unfolding propose proposed require_no_pending
propose-IsIdle k e s t h = ground arith

module _ (e : Entry) (s t : State) where
  pub approve-IsIdle : approve e s ≡ ok t → IsIdle t.pending_action
  approve-IsIdle h =
      let (p, _, _, _, _, _, idle, _, after) = approve_inv e s t h in
      subst (λ (u : State). IsIdle u.pending_action) (sym after) idle

  pub decide-IsIdle : (pd : String → Bool) → decide pd e s ≡ ok t → IsIdle t.pending_action
  unfolding require_decidable
  decide-IsIdle pd h =
      let (p, d, x, r, a, v, w, c, found, _, able, _, _, _, after) = decide_inv pd e s t h in
      let idle : p.started ≡ false = ground arith in
      subst (λ (u : State). IsIdle u.pending_action) (sym after)
        (elim (record_decision-pending s d x (decided_action p d x r a v w c)) [
          | inl gone ↦ subst IsIdle (sym gone) tt
          | inr (_, kept) ↦ subst IsIdle (sym kept) idle
        ])

  pub gone-IsIdle : t.pending_action ≡ none → IsIdle t.pending_action
  gone-IsIdle gone = subst IsIdle (sym gone) tt

  pub kept-IsIdle :
      (u : State) → IsIdle u.pending_action → ◌≡◌ {A = Step} (ok u) (ok t) → IsIdle t.pending_action
  kept-IsIdle u idle h = subst (λ (v : State). IsIdle v.pending_action) (ok-injective h) idle

interrupted-IsIdle :
    (o : Option PendingAction) → IsIdle o → IsIdle (Option.map interrupted_action o)
unfolding interrupted_action
interrupted-IsIdle none idle = tt
interrupted-IsIdle (some p) idle = idle

pub interrupt-IsIdle :
    (s t : State) → IsIdle s.pending_action → interrupt s ≡ ok t → IsIdle t.pending_action
unfolding interrupt
interrupt-IsIdle s t idle h =
    subst (λ (v : State). IsIdle v.pending_action) (ok-injective h)
      (interrupted-IsIdle s.pending_action idle)

recover_action-IsIdle :
    (e : Entry) (reason : Reason) (o q : Option PendingAction)
    → IsIdle o
    → recover_action e reason o ≡ ok q
    → IsIdle q
unfolding recover_action interrupted_action
recover_action-IsIdle e reason none q idle h = subst IsIdle (ok-injective h) tt
recover_action-IsIdle e Reason.interrupted (some p) q idle h = subst IsIdle (ok-injective h) idle
recover_action-IsIdle e reason (some p) q idle h =
    let (r, made, h₁) = >>=-eq-ok (reapprovable e reason p) _ h in
    let (_, same, _, _, _, _, _) = reapprovable_inv e reason p r made in
    subst IsIdle (ok-injective h₁) (same ∙ idle)

pub require_recovery-IsIdle :
    (e : Entry) (s t : State)
    → IsIdle s.pending_action
    → require_recovery e s ≡ ok t
    → IsIdle t.pending_action
unfolding require_recovery
require_recovery-IsIdle e s t idle h =
    let (o, made, h₁) =
      >>=-eq-ok (recover_action e (recovery_reason e.payload) s.pending_action) _ h in
    subst (λ (v : State). IsIdle v.pending_action) (ok-injective h₁)
      (recover_action-IsIdle e _ s.pending_action o idle made)

pub finish_recovery-IsIdle :
    (s t : State) → IsIdle s.pending_action → finish_recovery s ≡ ok t → IsIdle t.pending_action
unfolding finish_recovery
finish_recovery-IsIdle s t idle h = ground arith
