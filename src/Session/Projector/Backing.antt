-- ===== src/Session/Projector/Backing.antt =====
-- The cases of the projection's switch and the entries that back the pending action
-- (packages/session-runtime/src/projector.ts).
use mathlib.Core.Option
use qodex.Common.{
  ◌≡◌, refl, sym, subst, String, Bool, true, false, inl, inr, Option, none, some, List, [], ◌∷◌,
  ◌++◌, ok, arith, Any-append_left, Any-append_last, >>=-eq-ok, ok-injective, ◌∙◌, ap,
}
use qodex.Session.Entries.{EventType, Entry, Kind, Reason, recovery_reason}
use qodex.Session.Projector.State.{PendingAction, State, Step}
use qodex.Session.Projector.Checks.{proposed, require_no_pending}
use qodex.Session.Projector.Steps.{
  reapprovable, approve, decide, start, require_recovery, recover_action, finish_recovery,
  interrupt, interrupted_action, decided_action,
}
use qodex.Session.Projector.Fold.{dispatch, propose}
use qodex.Session.Projector.Inversion.{
  decide_inv, record_decision-pending, complete_inv, complete_command_inv, fail_inv, deny_inv,
  close_inv, reapprovable_inv,
}
use qodex.Session.Projector.Approving.{approve_inv, start_inv, require_allow-eq-ok}
use qodex.Session.Projector.Backed.{
  is_approval, is_decision, is_start, Approves, Allows, Starts, IsBacked, Backed,
}

module _ (past : List Entry) (e : Entry) where
  IsBacked-append : {p : PendingAction} → IsBacked past p → IsBacked (past ++ e ∷ []) p
  IsBacked-append {p} b = record {
    unsettled = b.unsettled;
    approval = λ h. Any-append_left (Approves p) past (e ∷ []) (b.approval h);
    decision = λ h. Any-append_left (Allows p) past (e ∷ []) (b.decision h);
    begun = λ h. Any-append_left (Starts p) past (e ∷ []) (b.begun h);
    permitted = b.permitted;
  }

  Backed-append : (o : Option PendingAction) → Backed past o → Backed (past ++ e ∷ []) o
  Backed-append none b = tt
  Backed-append (some p) b = IsBacked-append b

  approve-Backed :
      (s t : State)
      → is_approval e.type ≡ true
      → Backed past s.pending_action
      → approve e s ≡ ok t
      → Backed (past ++ e ∷ []) t.pending_action
  approve-Backed s t kind h eq =
      let (p, id, found, mine, named, generation, idle, _, after) = approve_inv e s t eq in
      let b : IsBacked past p = subst (Backed past) found h in
      let old = IsBacked-append b in
      let q : PendingAction = record p {
        approved = true;
        approval_id = some id;
        recovery_required = false;
      } in
      let new : IsBacked (past ++ e ∷ []) q = record {
        unsettled = b.unsettled;
        approval = λ _. Any-append_last (Approves q) past e (kind, mine, named, generation);
        decision = old.decision;
        begun = old.begun;
        permitted = b.permitted;
      } in
      subst (λ (u : State). Backed (past ++ e ∷ []) u.pending_action) (sym after) new

  start-Backed :
      (s t : State)
      → is_start e.type ≡ true
      → Backed past s.pending_action
      → start e s ≡ ok t
      → Backed (past ++ e ∷ []) t.pending_action
  start-Backed s t kind h eq =
      let (p, receipt, found, mine, _, approved, idle, _, allowed, named, after) =
        start_inv e s t eq in
      let b : IsBacked past p = subst (Backed past) found h in
      let old = IsBacked-append b in
      let q : PendingAction = record p { started = true; execution_receipt_id = some receipt } in
      let new : IsBacked (past ++ e ∷ []) q = record {
        unsettled = b.unsettled;
        approval = old.approval;
        decision = old.decision;
        begun = λ _. Any-append_last (Starts q) past e (kind, mine, named);
        permitted = λ _. ground (arith, require_allow-eq-ok p e allowed);
      } in
      subst (λ (u : State). Backed (past ++ e ∷ []) u.pending_action) (sym after) new

  decide-Backed :
      (pd : String → Bool) (s t : State)
      → is_decision e.type ≡ true
      → Backed past s.pending_action
      → decide pd e s ≡ ok t
      → Backed (past ++ e ∷ []) t.pending_action
  decide-Backed pd s t kind h eq =
      let (p, d, x, r, a, v, w, c, found, mine, _, named, _, chosen, after) =
        decide_inv pd e s t eq in
      let b : IsBacked past p = subst (Backed past) found h in
      let old = IsBacked-append b in
      let q : PendingAction = decided_action p d x r a v w c in
      subst (λ (u : State). Backed (past ++ e ∷ []) u.pending_action) (sym after)
        (elim (record_decision-pending s d x q) [
          | inl gone ↦ subst (Backed (past ++ e ∷ [])) (sym gone) tt
          | inr (allowed, kept) ↦ subst (Backed (past ++ e ∷ [])) (sym kept) (record {
            unsettled = b.unsettled;
            approval = old.approval;
            decision = λ _.
                Any-append_last (Allows q) past e (kind, mine, chosen ∙ ap some allowed, named);
            begun = old.begun;
            permitted = λ _. inr refl;
          })
        ])

  interrupted-IsBacked :
      {p : PendingAction} → IsBacked past p → IsBacked (past ++ e ∷ []) (interrupted_action p)
  unfolding interrupted_action
  interrupted-IsBacked {p} b =
      let old = IsBacked-append b in
      record {
        unsettled = b.unsettled;
        approval = λ h. cc;
        decision = old.decision;
        begun = old.begun;
        permitted = b.permitted;
      }

  gone-Backed : (o : Option PendingAction) → o ≡ none → Backed (past ++ e ∷ []) o
  gone-Backed o h = subst (Backed (past ++ e ∷ [])) (sym h) tt

  propose-Backed :
      (kind : Kind) (s t : State)
      → propose kind e s ≡ ok t
      → Backed (past ++ e ∷ []) t.pending_action
  unfolding propose proposed
  propose-Backed kind s t h =
      let (_, _, h₁) = >>=-eq-ok (require_no_pending s.pending_action) _ h in
      let (p, made, h₂) = >>=-eq-ok (proposed e kind) _ h₁ in
      let new : IsBacked (past ++ e ∷ []) p = record {
        unsettled = ground arith;
        approval = λ a. absurd (ground arith);
        decision = λ a. absurd (ground arith);
        begun = λ a. absurd (ground arith);
        permitted = λ a. absurd (ground arith);
      } in
      subst (λ (u : State). Backed (past ++ e ∷ []) u.pending_action) (ok-injective h₂) new

  reapprovable-Backed :
      (reason : Reason) (p q : PendingAction)
      → IsBacked past p
      → reapprovable e reason p ≡ ok q
      → IsBacked (past ++ e ∷ []) q
  reapprovable-Backed reason p q b h =
      let (idle, same, unapproved, undecided, unsettled, _, _) = reapprovable_inv e reason p q h in
      record {
        unsettled = unsettled ∙ b.unsettled;
        approval = λ a. cc;
        decision = λ a. cc;
        begun = λ a. cc;
        permitted = λ a. cc;
      }

  recover_action-Backed :
      (reason : Reason) (o o' : Option PendingAction)
      → Backed past o
      → recover_action e reason o ≡ ok o'
      → Backed (past ++ e ∷ []) o'
  unfolding recover_action
  recover_action-Backed reason none o' b h = subst (Backed (past ++ e ∷ [])) (ok-injective h) tt
  recover_action-Backed Reason.interrupted (some p) o' b h =
      subst (Backed (past ++ e ∷ [])) (ok-injective h) (interrupted-IsBacked b)
  recover_action-Backed reason (some p) o' b h =
      let (q, made, h₁) = >>=-eq-ok (reapprovable e reason p) _ h in
      subst (Backed (past ++ e ∷ [])) (ok-injective h₁) (reapprovable-Backed reason p q b made)

  require_recovery-Backed :
      (s t : State)
      → Backed past s.pending_action
      → require_recovery e s ≡ ok t
      → Backed (past ++ e ∷ []) t.pending_action
  unfolding require_recovery
  require_recovery-Backed s t b h =
      let (o, made, h₁) =
        >>=-eq-ok (recover_action e (recovery_reason e.payload) s.pending_action) _ h in
      subst (λ (u : State). Backed (past ++ e ∷ []) u.pending_action) (ok-injective h₁)
        (recover_action-Backed (recovery_reason e.payload) s.pending_action o b made)

  map-interrupted-Backed :
      (o : Option PendingAction)
      → Backed past o
      → Backed (past ++ e ∷ []) (Option.map interrupted_action o)
  map-interrupted-Backed none b = tt
  map-interrupted-Backed (some p) b = interrupted-IsBacked b

  interrupt-Backed :
      (s t : State)
      → Backed past s.pending_action
      → interrupt s ≡ ok t
      → Backed (past ++ e ∷ []) t.pending_action
  unfolding interrupt
  interrupt-Backed s t b h =
      subst (λ (u : State). Backed (past ++ e ∷ []) u.pending_action) (ok-injective h)
        (map-interrupted-Backed s.pending_action b)

  finish_recovery-Backed :
      (s t : State) → finish_recovery s ≡ ok t → Backed (past ++ e ∷ []) t.pending_action
  unfolding finish_recovery
  finish_recovery-Backed s t h = gone-Backed t.pending_action (ground arith)

  kept-Backed :
      (s u t : State)
      → Backed past s.pending_action
      → s.pending_action ≡ u.pending_action
      → ◌≡◌ {A = Step} (ok u) (ok t)
      → Backed (past ++ e ∷ []) t.pending_action
  kept-Backed s u t b same h =
      subst (Backed (past ++ e ∷ [])) (same ∙ ap (λ (v : State). v.pending_action) (ok-injective h))
        (Backed-append s.pending_action b)

  -- Every case of the switch keeps the pending action backed.
  pub dispatch-Backed :
      (pd : String → Bool) (k : EventType) (s t : State)
      → e.type ≡ k
      → Backed past s.pending_action
      → dispatch pd k e s ≡ ok t
      → Backed (past ++ e ∷ []) t.pending_action
  unfolding dispatch
  dispatch-Backed pd EventType.session_created s t k b h = kept-Backed s s t b refl h
  dispatch-Backed pd EventType.action_proposed s t k b h = propose-Backed Kind.action s t h
  dispatch-Backed pd EventType.patch_proposed s t k b h = propose-Backed Kind.patch _ t h
  dispatch-Backed pd EventType.command_proposed s t k b h = propose-Backed Kind.command _ t h
  dispatch-Backed pd EventType.action_approved s t k b h = approve-Backed s t (ap is_approval k) b h
  dispatch-Backed pd EventType.patch_approved s t k b h = approve-Backed s t (ap is_approval k) b h
  dispatch-Backed pd EventType.command_approved s t k b h =
      approve-Backed s t (ap is_approval k) b h
  dispatch-Backed pd EventType.action_decided s t k b h =
      decide-Backed pd s t (ap is_decision k) b h
  dispatch-Backed pd EventType.action_started s t k b h = start-Backed s t (ap is_start k) b h
  dispatch-Backed pd EventType.patch_started s t k b h = start-Backed s t (ap is_start k) b h
  dispatch-Backed pd EventType.command_started s t k b h = start-Backed s t (ap is_start k) b h
  dispatch-Backed pd EventType.action_denied s t k b h = gone-Backed _ (deny_inv e s t h)
  dispatch-Backed pd EventType.patch_rejected s t k b h = gone-Backed _ (deny_inv e s t h)
  dispatch-Backed pd EventType.command_denied s t k b h = gone-Backed _ (deny_inv e s t h)
  dispatch-Backed pd EventType.action_completed s t k b h =
      let (_, _, _, _, gone) = complete_inv e s t h in gone-Backed _ gone
  dispatch-Backed pd EventType.patch_applied s t k b h =
      let (_, _, _, _, gone) = complete_inv e s t h in gone-Backed _ gone
  dispatch-Backed pd EventType.command_completed s t k b h =
      let (_, _, _, _, gone) = complete_command_inv e s t h in gone-Backed _ gone
  dispatch-Backed pd EventType.action_failed s t k b h =
      let (_, _, _, _, gone) = fail_inv e s t h in gone-Backed _ gone
  dispatch-Backed pd EventType.session_completed s t k b h =
      let (_, gone, _, _) = close_inv _ e s t h in gone-Backed _ gone
  dispatch-Backed pd EventType.delivery_completed s t k b h =
      let (_, gone, _, _) = close_inv _ e s t h in gone-Backed _ gone
  dispatch-Backed pd EventType.session_failed s t k b h =
      let (_, gone, _, _) = close_inv _ e s t h in gone-Backed _ gone
  dispatch-Backed pd EventType.session_cancelled s t k b h =
      let (_, gone, _, _) = close_inv _ e s t h in gone-Backed _ gone
  dispatch-Backed pd EventType.session_limit_reached s t k b h =
      let (_, gone, _, _) = close_inv _ e s t h in gone-Backed _ gone
  dispatch-Backed pd EventType.recovery_required s t k b h = require_recovery-Backed s t b h
  dispatch-Backed pd EventType.recovery_completed s t k b h = finish_recovery-Backed s t h
  dispatch-Backed pd EventType.session_interrupted s t k b h = interrupt-Backed s t b h
  dispatch-Backed pd _ s t k b h = kept-Backed s _ t b refl h
