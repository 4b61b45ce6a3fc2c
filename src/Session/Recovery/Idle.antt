-- ===== src/Session/Recovery/Idle.antt =====
-- The switch of the projection (packages/session-runtime/src/projector.ts) by the classes of entries
-- that recovery tells apart (src/recovery.ts).
use qodex.Common.{◌≡◌, refl, String, Bool, true, false, some, ok}
use qodex.Session.Entries.{SessionStatus, EventType, Entry, Kind, truthy, action_id_of}
use qodex.Session.Projector.State.{PendingAction, State}
use qodex.Session.Projector.Steps.{close}
use qodex.Session.Projector.Fold.{dispatch}
use qodex.Session.Projector.Inversion.{close_inv, deny_inv}
use qodex.Session.Projector.Backed.{is_start, is_settlement}
use qodex.Session.Projector.Evidence.{dispatch-settle}
use qodex.Session.Recovery.Search.{is_masking_terminal}
use qodex.Session.Recovery.Tracking.{
  IsIdle, complete-named, fail-named, complete_command-named, propose-IsIdle, approve-IsIdle,
  decide-IsIdle, gone-IsIdle, kept-IsIdle, interrupt-IsIdle, require_recovery-IsIdle,
  finish_recovery-IsIdle,
}

module _ (pd : String → Bool) (e : Entry) (s t : State) where
  pub dispatch-named :
      (k : EventType)
      → is_settlement k ≡ true
      → dispatch pd k e s ≡ ok t
      → (p : PendingAction) × (s.pending_action ≡ some p)
        × (truthy (action_id_of e) ≡ some p.action_id)
  unfolding dispatch
  dispatch-named EventType.action_completed k h = complete-named e s t h
  dispatch-named EventType.patch_applied k h = complete-named e s t h
  dispatch-named EventType.command_completed k h = complete_command-named e s t h
  dispatch-named EventType.action_failed k h = fail-named e s t h
  dispatch-named _ k h = cc

  pub dispatch-masking :
      (k : EventType)
      → is_masking_terminal k ≡ true
      → dispatch pd k e s ≡ ok t
      → (status : SessionStatus) × (close status e s ≡ ok t)
  unfolding dispatch is_masking_terminal
  dispatch-masking EventType.session_completed k h = (SessionStatus.completed, h)
  dispatch-masking EventType.delivery_completed k h = (SessionStatus.completed, h)
  dispatch-masking EventType.session_failed k h = (SessionStatus.failed, h)
  dispatch-masking EventType.session_cancelled k h = (SessionStatus.cancelled, h)
  dispatch-masking EventType.session_limit_reached k h = (SessionStatus.limit_reached, h)
  dispatch-masking _ k h = cc

  dispatch-closed : (status : SessionStatus) → close status e s ≡ ok t → IsIdle t.pending_action
  dispatch-closed status h =
      let (_, gone, _, _) = close_inv status e s t h in gone-IsIdle e s t gone

  pub dispatch-settled :
      (k : EventType) → is_settlement k ≡ true → dispatch pd k e s ≡ ok t → IsIdle t.pending_action
  dispatch-settled k settles h =
      let (_, _, _, _, gone) = dispatch-settle pd e s t k settles h in gone-IsIdle e s t gone

  -- Only a start makes a started action of an idle one.
  pub dispatch-IsIdle :
      (k : EventType)
      → is_start k ≡ false
      → IsIdle s.pending_action
      → dispatch pd k e s ≡ ok t
      → IsIdle t.pending_action
  unfolding dispatch
  dispatch-IsIdle EventType.action_proposed k i h = propose-IsIdle Kind.action e s t h
  dispatch-IsIdle EventType.patch_proposed k i h = propose-IsIdle Kind.patch e _ t h
  dispatch-IsIdle EventType.command_proposed k i h = propose-IsIdle Kind.command e _ t h
  dispatch-IsIdle EventType.action_approved k i h = approve-IsIdle e s t h
  dispatch-IsIdle EventType.patch_approved k i h = approve-IsIdle e s t h
  dispatch-IsIdle EventType.command_approved k i h = approve-IsIdle e s t h
  dispatch-IsIdle EventType.action_decided k i h = decide-IsIdle e s t pd h
  dispatch-IsIdle EventType.action_denied k i h = gone-IsIdle e s t (deny_inv e s t h)
  dispatch-IsIdle EventType.patch_rejected k i h = gone-IsIdle e s t (deny_inv e s t h)
  dispatch-IsIdle EventType.command_denied k i h = gone-IsIdle e s t (deny_inv e s t h)
  dispatch-IsIdle EventType.action_started k i h = cc
  dispatch-IsIdle EventType.patch_started k i h = cc
  dispatch-IsIdle EventType.command_started k i h = cc
  dispatch-IsIdle EventType.action_completed k i h =
      dispatch-settled EventType.action_completed refl h
  dispatch-IsIdle EventType.patch_applied k i h = dispatch-settled EventType.patch_applied refl h
  dispatch-IsIdle EventType.command_completed k i h =
      dispatch-settled EventType.command_completed refl h
  dispatch-IsIdle EventType.action_failed k i h = dispatch-settled EventType.action_failed refl h
  dispatch-IsIdle EventType.recovery_required k i h = require_recovery-IsIdle e s t i h
  dispatch-IsIdle EventType.recovery_completed k i h = finish_recovery-IsIdle s t i h
  dispatch-IsIdle EventType.session_interrupted k i h = interrupt-IsIdle s t i h
  dispatch-IsIdle EventType.session_completed k i h = dispatch-closed _ h
  dispatch-IsIdle EventType.delivery_completed k i h = dispatch-closed _ h
  dispatch-IsIdle EventType.session_failed k i h = dispatch-closed _ h
  dispatch-IsIdle EventType.session_cancelled k i h = dispatch-closed _ h
  dispatch-IsIdle EventType.session_limit_reached k i h = dispatch-closed _ h
  dispatch-IsIdle _ k i h = kept-IsIdle e s t _ i h
