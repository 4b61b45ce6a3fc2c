-- ===== src/Session/Projector/Closing.antt =====
-- What closes a session, and what may not be left open before it closes
-- (packages/session-runtime/src/projector.ts).
use qodex.Common.{
  ◌≡◌, refl, String, Bool, true, false, Option, none, some, List, [], ◌∷◌, ◌++◌, ok, >>=-eq-ok,
  arith,
}
use qodex.Session.Entries.{EventType, Entry}
use qodex.Session.Projector.State.{State, is_terminal}
use qodex.Session.Projector.Checks.{require_no_unsettled_started_action}
use qodex.Session.Projector.Fold.{ProjectedSessionState, dispatch, step, run, project}
use qodex.Session.Projector.Inversion.{close_inv}
use qodex.Session.Projector.Runs.{last_or, enter, step_inv, run-split, project_inv}

abbrev is_close : EventType → Bool
is_close EventType.session_completed = true
is_close EventType.delivery_completed = true
is_close EventType.session_failed = true
is_close EventType.session_cancelled = true
is_close EventType.session_limit_reached = true
is_close _ = false

module _ (pd : String → Bool) where
  dispatch-close :
      (k : EventType) (e : Entry) (s t : State)
      → is_close k ≡ true
      → dispatch pd k e s ≡ ok t
      → (is_terminal t.status ≡ true)
        × (require_no_unsettled_started_action s.pending_action ≡ ok tt)
  unfolding dispatch is_terminal
  dispatch-close EventType.session_completed e s t k h = ground (arith, close_inv _ e s t h)
  dispatch-close EventType.delivery_completed e s t k h = ground (arith, close_inv _ e s t h)
  dispatch-close EventType.session_failed e s t k h = ground (arith, close_inv _ e s t h)
  dispatch-close EventType.session_cancelled e s t k h = ground (arith, close_inv _ e s t h)
  dispatch-close EventType.session_limit_reached e s t k h = ground (arith, close_inv _ e s t h)
  dispatch-close _ e s t k h = cc

  run-terminal :
      (previous : Option Entry) (es : List Entry) (s t : State)
      → is_terminal s.status ≡ true
      → run pd previous es s ≡ ok t
      → es ≡ []
  unfolding run
  run-terminal previous [] s t k h = refl
  run-terminal previous (e ∷ es) s t k h =
      let (u, taken, _) = >>=-eq-ok (step pd previous e s) _ h in
      let (_, _, live, _) = step_inv pd previous e s u taken in cc

  -- In a ledger that projects, nothing follows an entry that closes the session.
  pub project-close_last :
      (xs ys : List Entry) (e : Entry) (z : ProjectedSessionState)
      → project pd (xs ++ e ∷ ys) ≡ ok z
      → is_close e.type ≡ true
      → ys ≡ []
  project-close_last xs ys e z h k =
      let (_, _, t, _, _, ran, _) = project_inv pd (xs ++ e ∷ ys) z h in
      let (s, u, _, taken, after) = run-split pd xs ys e t ran in
      let (_, _, _, moved) = step_inv pd (last_or none xs) e s u taken in
      run-terminal (some e) ys u t (dispatch-close e.type e (enter e s) u k moved).0 after
