-- ===== src/Session/Projector/Frame.antt =====
-- What each case of the projection's switch leaves alone
-- (packages/session-runtime/src/projector.ts).
use qodex.Common.{◌≡◌, sym, subst, String, Bool, ok, >>=-eq-ok, ok-injective, arith}
use qodex.Session.Entries.{Entry, Kind, SessionStatus, recovery_reason}
use qodex.Session.Projector.State.{State}
use qodex.Session.Projector.Fold.{propose}
use qodex.Session.Projector.Checks.{
  require_pending, require_no_pending, proposed, require_no_unsettled_started_action, require_kind,
  require_started,
}
use qodex.Session.Projector.Inversion.{decide_inv}
use qodex.Session.Projector.Approving.{approve_inv, start_inv}
use qodex.Session.Projector.Steps.{
  approve, decide, start, complete, complete_command, fail, deny, close, require_recovery,
  finish_recovery, interrupt, recover_action,
}

-- `t` has the identifiers and the counters of `s`, and is completed if `s` is.
pub record SameCounts (s t : State) : Type 0 where
  pub seen : t.seen ≡ s.seen
  pub messages : t.message_count ≡ s.message_count
  pub tool_calls : t.tool_call_count ≡ s.tool_call_count
  pub patches : t.patch_count ≡ s.patch_count
  pub commands : t.command_count ≡ s.command_count
  pub artifacts : t.artifact_count ≡ s.artifact_count

module _ (e : Entry) (s t : State) where
  pub propose-SameCounts : (k : Kind) → propose k e s ≡ ok t → SameCounts s t
  unfolding propose
  propose-SameCounts k h =
      let (_, _, h₁) = >>=-eq-ok (require_no_pending s.pending_action) _ h in
      let (p, _, h₂) = >>=-eq-ok (proposed e k) _ h₁ in
      subst (SameCounts s) (ok-injective h₂) (ground arith)

  pub approve-SameCounts : approve e s ≡ ok t → SameCounts s t
  approve-SameCounts h =
      let (_, _, _, _, _, _, _, _, after) = approve_inv e s t h in
      subst (SameCounts s) (sym after) (ground arith)

  pub start-SameCounts : start e s ≡ ok t → SameCounts s t
  start-SameCounts h =
      let (_, _, _, _, _, _, _, _, _, _, after) = start_inv e s t h in
      subst (SameCounts s) (sym after) (ground arith)

  pub decide-SameCounts : (pd : String → Bool) → decide pd e s ≡ ok t → SameCounts s t
  decide-SameCounts pd h =
      let (_, _, _, _, _, _, _, _, _, _, _, _, _, _, after) = decide_inv pd e s t h in
      subst (SameCounts s) (sym after) (ground arith)

  pub deny-SameCounts : deny e s ≡ ok t → SameCounts s t
  unfolding deny
  deny-SameCounts h =
      let (p, _, h₁) = >>=-eq-ok (require_pending s.pending_action e) _ h in
      let (_, _, h₂) = >>=-eq-ok (require_kind p e) _ h₁ in ground arith

  pub complete-SameCounts : complete e s ≡ ok t → SameCounts s t
  unfolding complete
  complete-SameCounts h =
      let (p, _, h₁) = >>=-eq-ok (require_pending s.pending_action e) _ h in
      let (_, _, h₂) = >>=-eq-ok (require_kind p e) _ h₁ in
      let (_, _, h₃) = >>=-eq-ok (require_started p e) _ h₂ in ground arith

  pub fail-SameCounts : fail e s ≡ ok t → SameCounts s t
  unfolding fail
  fail-SameCounts h =
      let (p, _, h₁) = >>=-eq-ok (require_pending s.pending_action e) _ h in
      let (_, _, h₂) = >>=-eq-ok (require_started p e) _ h₁ in ground arith

  pub close-SameCounts : (status : SessionStatus) → close status e s ≡ ok t → SameCounts s t
  unfolding close
  close-SameCounts status h =
      let (_, _, h₁) = >>=-eq-ok (require_no_unsettled_started_action s.pending_action) _ h in
      ground arith

  pub require_recovery-SameCounts : require_recovery e s ≡ ok t → SameCounts s t
  unfolding require_recovery
  require_recovery-SameCounts h =
      let (o, _, h₁) =
        >>=-eq-ok (recover_action e (recovery_reason e.payload) s.pending_action) _ h in
      subst (SameCounts s) (ok-injective h₁) (ground arith)

  pub finish_recovery-SameCounts : finish_recovery s ≡ ok t → SameCounts s t
  unfolding finish_recovery
  finish_recovery-SameCounts h = ground arith

  pub interrupt-SameCounts : interrupt s ≡ ok t → SameCounts s t
  unfolding interrupt
  interrupt-SameCounts h = subst (SameCounts s) (ok-injective h) (ground arith)

pub complete_command-SameCounts :
    (e : Entry) (s t : State) → complete_command e s ≡ ok t → SameCounts s t
unfolding complete_command
complete_command-SameCounts e s t h =
    let (u, done, h₁) = >>=-eq-ok (complete e s) _ h in
    let same = complete-SameCounts e s u done in
    subst (SameCounts s) (ok-injective h₁) (ground arith)
