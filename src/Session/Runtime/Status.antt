-- ===== src/Session/Runtime/Status.antt =====
-- The status that an append stores and the status that the ledger projects to
-- (packages/session-runtime/src/runtime.ts).
use qodex.Common.{
  ◌≡◌, refl, sym, ap, subst, String, Bool, ◌⊎◌, inl, none, List, [], ◌∷◌, ◌++◌, ok, arith,
  >>=-eq-ok, ok-injective,
}
use qodex.Session.Entries.{SessionStatus, EventType, Entry, recovery_reason}
use qodex.Session.Projector.State.{State}
use qodex.Session.Projector.Steps.{interrupt, require_recovery, recover_action}
use qodex.Session.Projector.Fold.{ProjectedSessionState, dispatch, run, project, projected}
use qodex.Session.Projector.Inversion.{close_inv}
use qodex.Session.Projector.Runs.{last_or, enter, step_inv, run-split, project_inv}
use qodex.Session.Runtime.{or_else, terminal_entry_status}

-- The stored status is the projected one, or says that recovery is required where the projection
-- says that the session was interrupted.
abbrev pub Agrees : SessionStatus → SessionStatus → Type 0
Agrees stored projected =
    (stored ≡ projected)
    ⊎ ((stored ≡ SessionStatus.recovery_required) × (projected ≡ SessionStatus.interrupted))

abbrev stored_status : EventType → State → SessionStatus
stored_status k u = or_else (terminal_entry_status k) u.status

require_recovery-Agrees :
    (e : Entry) (s u : State)
    → require_recovery e s ≡ ok u
    → Agrees SessionStatus.recovery_required u.status
unfolding require_recovery
require_recovery-Agrees e s u h =
    let (o, _, h₁) =
      >>=-eq-ok (recover_action e (recovery_reason e.payload) s.pending_action) _ h in
    subst (λ (v : State). Agrees SessionStatus.recovery_required v.status) (ok-injective h₁)
      (ground arith)

dispatch-Agrees :
    (pd : String → Bool) (k : EventType) (e : Entry) (s u : State)
    → dispatch pd k e s ≡ ok u
    → Agrees (stored_status k u) u.status
unfolding dispatch terminal_entry_status
dispatch-Agrees pd EventType.session_completed e s u h =
    let (_, _, at, _) = close_inv _ e s u h in inl (sym at)
dispatch-Agrees pd EventType.delivery_completed e s u h =
    let (_, _, at, _) = close_inv _ e s u h in inl (sym at)
dispatch-Agrees pd EventType.session_failed e s u h =
    let (_, _, at, _) = close_inv _ e s u h in inl (sym at)
dispatch-Agrees pd EventType.session_cancelled e s u h =
    let (_, _, at, _) = close_inv _ e s u h in inl (sym at)
dispatch-Agrees pd EventType.session_limit_reached e s u h =
    let (_, _, at, _) = close_inv _ e s u h in inl (sym at)
dispatch-Agrees pd EventType.session_interrupted e s u h =
    inl (unfold interrupt in ap (λ (v : State). v.status) (ok-injective h))
dispatch-Agrees pd EventType.recovery_required e s u h = require_recovery-Agrees e s u h
dispatch-Agrees pd _ e s u h = inl refl

pub project-Agrees :
    (pd : String → Bool) (xs : List Entry) (e : Entry) (z : ProjectedSessionState)
    → project pd (xs ++ e ∷ []) ≡ ok z
    → Agrees (or_else (terminal_entry_status e.type) z.status) z.status
unfolding projected run
project-Agrees pd xs e z h =
    let (first, rest, t, _, _, ran, out) = project_inv pd (xs ++ e ∷ []) z h in
    let (s, u, _, taken, after) = run-split pd xs [] e t ran in
    let (_, _, _, moved) = step_inv pd (last_or none xs) e s u taken in
    let agrees = dispatch-Agrees pd e.type e (enter e s) u moved in
    let same : u ≡ t = ok-injective after in
    rw out (subst (λ (v : State). Agrees (stored_status e.type v) v.status) same agrees)
