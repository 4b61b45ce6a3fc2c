-- ===== src/Session/Projector/Started.antt =====
-- Steps of the projection while an action is started and not settled
-- (packages/session-runtime/src/projector.ts).
use mathlib.Core.Option
use qodex.Common.{
  ◌≡◌, refl, sym, subst, String, Bool, true, false, ◌⊎◌, inl, inr, Option, some, ok, >>=-eq-ok, ◌∙◌,
  ap, arith, ok-injective, if◌then◌else◌,
}
use qodex.Session.Entries.{
  EventType, Entry, Kind, SessionStatus, Reason, action_id_of, recovery_reason,
}
use qodex.Session.Projector.State.{PendingAction, State, Step, is_terminal}
use qodex.Session.Projector.Checks.{
  require_no_pending, require_no_unsettled_started_action, require_pending, require_kind,
}
use qodex.Session.Projector.Steps.{
  start, approve, decide, require_decidable, deny, close, reapprovable, recover_action,
  require_recovery, finish_recovery, interrupt, interrupted_action, is_interrupted,
}
use qodex.Session.Projector.Fold.{dispatch, propose}
use qodex.Session.Projector.Inversion.{decide_inv, reapprovable_inv}
use qodex.Session.Projector.Approving.{require_pending-eq-ok, start_inv, approve_inv}
use qodex.Session.Projector.Backed.{is_settlement}
use qodex.Session.Projector.Evidence.{dispatch-settle}

-- the action `a` has started and has not settled, in a session that is not closed
pub record IsOpen (a : String) (o : Option PendingAction) (status : SessionStatus) : Type 0 where
  pub pending : PendingAction
  pub held : o ≡ some pending
  pub started : pending.started ≡ true
  pub unsettled : pending.settled ≡ false
  pub named : pending.action_id ≡ a
  pub live : is_terminal status ≡ false

abbrev pub Settles : String → Entry → Type 0
Settles a e = (is_settlement e.type ≡ true) × (action_id_of e ≡ some a)

-- A started action is not reapprovable, so recovery only interrupts it.
recover_action-started :
    (e : Entry) (reason : Reason) (p : PendingAction) (o : Option PendingAction)
    → p.started ≡ true
    → recover_action e reason (some p) ≡ ok o
    → (reason ≡ Reason.interrupted) × (o ≡ some (interrupted_action p))
unfolding recover_action
recover_action-started e Reason.interrupted p o started h = (refl, sym (ok-injective h))
recover_action-started e reason p o started h =
    let (q, made, _) = >>=-eq-ok (reapprovable e reason p) _ h in
    let (idle, _, _, _, _, _, _) = reapprovable_inv e reason p q made in cc

module _ (a : String) (e : Entry) (s t : State) (w : IsOpen a s.pending_action s.status) where
  propose_counted-IsOpen :
      (u : State) (k : Kind) → u.pending_action ≡ s.pending_action → propose k e u ≡ ok t → ⊥
  unfolding propose require_no_pending
  propose_counted-IsOpen u k same h = ground (arith, w.held)

  propose-IsOpen : (k : Kind) → propose k e s ≡ ok t → ⊥
  propose-IsOpen k h = propose_counted-IsOpen s k refl h

  approve-IsOpen : approve e s ≡ ok t → ⊥
  approve-IsOpen h =
      let (p, _, found, _, _, _, idle, _, _) = approve_inv e s t h in cc (w.held, w.started, found)

  pub start-IsOpen : start e s ≡ ok t → ⊥
  start-IsOpen h =
      let (p, _, found, _, _, _, idle, _, _, _, _) = start_inv e s t h in
      cc (w.held, w.started, found)

  decide-IsOpen : (pd : String → Bool) → decide pd e s ≡ ok t → ⊥
  unfolding require_decidable
  decide-IsOpen pd h =
      let (p, _, _, _, _, _, _, _, found, _, able, _, _, _, _) = decide_inv pd e s t h in
      let started : p.started ≡ true = cc (w.held, w.started, found) in ground arith

  deny-IsOpen : deny e s ≡ ok t → ⊥
  unfolding deny
  deny-IsOpen h =
      let (p, found, h₁) = >>=-eq-ok (require_pending s.pending_action e) _ h in
      let (_, _, h₂) = >>=-eq-ok (require_kind p e) _ h₁ in
      let (there, _) = require_pending-eq-ok s.pending_action e found in
      let started : p.started ≡ true = cc (w.held, w.started, there) in ground arith

  pub close-IsOpen : (status : SessionStatus) → close status e s ≡ ok t → ⊥
  unfolding close require_no_unsettled_started_action
  close-IsOpen status h = ground (arith, w.held, w.started, w.unsettled)

  finish_recovery-IsOpen : finish_recovery s ≡ ok t → ⊥
  unfolding finish_recovery
  finish_recovery-IsOpen h = ground (arith, w.held)

  interrupted-IsOpen :
      (status : SessionStatus)
      → is_terminal status ≡ false
      → IsOpen a (Option.map interrupted_action s.pending_action) status
  unfolding interrupted_action
  interrupted-IsOpen status live = record {
    pending = interrupted_action w.pending;
    held = ap (Option.map interrupted_action) w.held;
    started = w.started;
    unsettled = w.unsettled;
    named = w.named;
    live = live;
  }

  interrupt-IsOpen : interrupt s ≡ ok t → IsOpen a t.pending_action t.status
  unfolding interrupt is_terminal
  interrupt-IsOpen h =
      subst (λ (u : State). IsOpen a u.pending_action u.status) (ok-injective h)
        (interrupted-IsOpen SessionStatus.interrupted refl)

  require_recovery-IsOpen : require_recovery e s ≡ ok t → IsOpen a t.pending_action t.status
  unfolding require_recovery is_terminal interrupted_action
  require_recovery-IsOpen h =
      let reason = recovery_reason e.payload in
      let (o, made, h₁) = >>=-eq-ok (recover_action e reason s.pending_action) _ h in
      let made' = subst (λ x. recover_action e reason x ≡ ok o) w.held made in
      let (why, kept) = recover_action-started e reason w.pending o w.started made' in
      let status_after = λ (r : Reason).
        if is_interrupted r then SessionStatus.interrupted else SessionStatus.recovery_required in
      subst (λ (u : State). IsOpen a u.pending_action u.status) (ok-injective h₁)
        (record {
          pending = interrupted_action w.pending;
          held = kept;
          started = w.started;
          unsettled = w.unsettled;
          named = w.named;
          live = ap (λ r. is_terminal (status_after r)) why;
        })

  settle-IsOpen :
      (p : PendingAction)
      → s.pending_action ≡ some p
      → action_id_of e ≡ some p.action_id
      → action_id_of e ≡ some a
  settle-IsOpen p found mine = cc (w.held, w.named, found)

  kept-IsOpen :
      (u : State)
      → u.pending_action ≡ s.pending_action
      → u.status ≡ s.status
      → ◌≡◌ {A = Step} (ok u) (ok t)
      → IsOpen a t.pending_action t.status
  kept-IsOpen u same still h =
      subst (λ (v : State). IsOpen a v.pending_action v.status) (ok-injective h)
        (record {
          pending = w.pending;
          held = same ∙ w.held;
          started = w.started;
          unsettled = w.unsettled;
          named = w.named;
          live = ap is_terminal still ∙ w.live;
        })

  settling-IsOpen :
      (pd : String → Bool) (k : EventType)
      → e.type ≡ k
      → is_settlement k ≡ true
      → dispatch pd k e s ≡ ok t
      → Settles a e
  settling-IsOpen pd k same settles h =
      let (p, found, mine, _, _) = dispatch-settle pd e s t k settles h in
      (ap is_settlement same ∙ settles, settle-IsOpen p found mine)

  pub dispatch-IsOpen :
      (pd : String → Bool) (k : EventType)
      → e.type ≡ k
      → dispatch pd k e s ≡ ok t
      → Settles a e ⊎ IsOpen a t.pending_action t.status
  unfolding dispatch
  dispatch-IsOpen pd EventType.session_created k h = inr (kept-IsOpen s refl refl h)
  dispatch-IsOpen pd EventType.action_proposed k h = absurd (propose-IsOpen Kind.action h)
  dispatch-IsOpen pd EventType.patch_proposed k h =
      absurd (propose_counted-IsOpen _ Kind.patch refl h)
  dispatch-IsOpen pd EventType.command_proposed k h =
      absurd (propose_counted-IsOpen _ Kind.command refl h)
  dispatch-IsOpen pd EventType.action_approved k h = absurd (approve-IsOpen h)
  dispatch-IsOpen pd EventType.patch_approved k h = absurd (approve-IsOpen h)
  dispatch-IsOpen pd EventType.command_approved k h = absurd (approve-IsOpen h)
  dispatch-IsOpen pd EventType.action_decided k h = absurd (decide-IsOpen pd h)
  dispatch-IsOpen pd EventType.action_denied k h = absurd (deny-IsOpen h)
  dispatch-IsOpen pd EventType.patch_rejected k h = absurd (deny-IsOpen h)
  dispatch-IsOpen pd EventType.command_denied k h = absurd (deny-IsOpen h)
  dispatch-IsOpen pd EventType.action_started k h = absurd (start-IsOpen h)
  dispatch-IsOpen pd EventType.patch_started k h = absurd (start-IsOpen h)
  dispatch-IsOpen pd EventType.command_started k h = absurd (start-IsOpen h)
  dispatch-IsOpen pd EventType.action_completed k h =
      inl (settling-IsOpen pd EventType.action_completed k refl h)
  dispatch-IsOpen pd EventType.patch_applied k h =
      inl (settling-IsOpen pd EventType.patch_applied k refl h)
  dispatch-IsOpen pd EventType.command_completed k h =
      inl (settling-IsOpen pd EventType.command_completed k refl h)
  dispatch-IsOpen pd EventType.action_failed k h =
      inl (settling-IsOpen pd EventType.action_failed k refl h)
  dispatch-IsOpen pd EventType.recovery_required k h = inr (require_recovery-IsOpen h)
  dispatch-IsOpen pd EventType.recovery_completed k h = absurd (finish_recovery-IsOpen h)
  dispatch-IsOpen pd EventType.session_interrupted k h = inr (interrupt-IsOpen h)
  dispatch-IsOpen pd EventType.session_completed k h =
      absurd (close-IsOpen SessionStatus.completed h)
  dispatch-IsOpen pd EventType.delivery_completed k h =
      absurd (close-IsOpen SessionStatus.completed h)
  dispatch-IsOpen pd EventType.session_failed k h = absurd (close-IsOpen SessionStatus.failed h)
  dispatch-IsOpen pd EventType.session_cancelled k h =
      absurd (close-IsOpen SessionStatus.cancelled h)
  dispatch-IsOpen pd EventType.session_limit_reached k h =
      absurd (close-IsOpen SessionStatus.limit_reached h)
  dispatch-IsOpen pd _ k h = inr (kept-IsOpen _ refl refl h)
