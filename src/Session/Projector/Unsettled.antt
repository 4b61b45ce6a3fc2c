-- ===== src/Session/Projector/Unsettled.antt =====
-- Started actions along a run of the projection (packages/session-runtime/src/projector.ts).
use qodex.Common.{
  ◌≡◌, refl, sym, subst, String, Bool, true, false, ◌⊎◌, inl, inr, Option, none, some, List, [],
  ◌∷◌, ◌++◌, ok, Any, >>=-eq-ok, ok-injective,
}
use qodex.Session.Entries.{Entry, action_id_of}
use qodex.Session.Projector.State.{PendingAction, State, initial, is_terminal}
use qodex.Session.Projector.Steps.{start}
use qodex.Session.Projector.Fold.{ProjectedSessionState, step, run, project, projected}
use qodex.Session.Projector.Approving.{start_inv}
use qodex.Session.Projector.Backed.{is_start, Backed, IsBacked}
use qodex.Session.Projector.Evidence.{dispatch-start, run-Backed}
use qodex.Session.Projector.Runs.{last_or, enter, step_inv, run-split, project_inv}
use qodex.Session.Projector.Started.{IsOpen, Settles, dispatch-IsOpen}

module _ (pd : String → Bool) where
  run-IsOpen :
      (a : String) (previous : Option Entry) (es : List Entry) (s t : State)
      → IsOpen a s.pending_action s.status
      → run pd previous es s ≡ ok t
      → Any (Settles a) es ⊎ IsOpen a t.pending_action t.status
  unfolding run
  run-IsOpen a previous [] s t w h =
      inr (subst (λ (u : State). IsOpen a u.pending_action u.status) (ok-injective h) w)
  run-IsOpen a previous (e ∷ es) s t w h =
      let (u, taken, rest) = >>=-eq-ok (step pd previous e s) _ h in
      let (_, _, _, moved) = step_inv pd previous e s u taken in
      elim (dispatch-IsOpen a e (enter e s) u w pd e.type refl moved) [
        | inl done ↦ inl (inl done)
        | inr still ↦ elim (run-IsOpen a (some e) es u t still rest) [
          | inl later ↦ inl (inr later)
          | inr end ↦ inr end
        ]
      ]

  pub start-IsOpen_after :
      (past : List Entry) (e : Entry) (s u : State)
      → Backed past s.pending_action
      → is_terminal s.status ≡ false
      → start e s ≡ ok u
      → (a : String) × (action_id_of e ≡ some a) × IsOpen a u.pending_action u.status
  start-IsOpen_after past e s u b live h =
      let (p, r, found, mine, _, _, _, _, _, _, after) = start_inv e s u h in
      let backed : IsBacked past p = subst (Backed past) found b in
      (
        p.action_id,
        mine,
        subst (λ (v : State). IsOpen p.action_id v.pending_action v.status) (sym after)
            (record {
              pending = record p { started = true; execution_receipt_id = some r };
              held = refl;
              started = refl;
              unsettled = backed.unsettled;
              named = refl;
              live = live;
            }),
      )

  -- In a ledger that projects, an entry that starts an action is followed by one that settles
  -- that action, or the action is still pending, as started, and the session is not closed.
  pub project-Settles :
      (xs ys : List Entry) (e : Entry) (z : ProjectedSessionState)
      → project pd (xs ++ e ∷ ys) ≡ ok z
      → is_start e.type ≡ true
      → (a : String) × (action_id_of e ≡ some a)
        × (Any (Settles a) ys
            ⊎ ((p : PendingAction) × (z.pending_action ≡ some p)
                × (p.action_id ≡ a)
                × (p.started ≡ true)
                × (is_terminal z.status ≡ false)))
  unfolding projected
  project-Settles xs ys e z h k =
      let (first, rest, t, _, _, ran, out) = project_inv pd (xs ++ e ∷ ys) z h in
      let (s, u, before, taken, after) = run-split pd xs ys e t ran in
      let (_, _, live, moved) = step_inv pd (last_or none xs) e s u taken in
      let begun = dispatch-start pd e (enter e s) u e.type k moved in
      let backed = run-Backed pd [] none xs initial s tt before in
      let (a, named, opened) = start-IsOpen_after xs e (enter e s) u backed live begun in
      (
        a,
        named,
        elim (run-IsOpen a (some e) ys u t opened after) [
          | inl done ↦ inl done
          | inr w ↦ inr (w.pending, rw out w.held, w.named, w.started, rw out w.live)
        ],
      )
