-- ===== src/Session/Recovery/Matching.antt =====
-- `findUnmatchedStartedAction` (packages/session-runtime/src/recovery.ts) along a projection.
use qodex.Common.{
  ◌≡◌, refl, sym, subst, ap, ◌∙◌, String, Bool, true, false, ◌⊎◌, inl, inr, Option, none, some,
  List, [], ◌∷◌, ◌++◌, ok, arith, eq_refl, >>=-eq-ok, ok-injective, Bool-cases,
}
use qodex.Common.Maps.{Table, insert, remove}
use qodex.Session.Entries.{Entry, truthy, action_id_of}
use qodex.Session.Projector.State.{PendingAction, State, initial, is_terminal}
use qodex.Session.Projector.Fold.{ProjectedSessionState, dispatch, step, run, project, projected}
use qodex.Session.Projector.Backing.{dispatch-Backed}
use qodex.Session.Projector.Backed.{is_start, is_settlement, Backed}
use qodex.Session.Projector.Evidence.{dispatch-start}
use qodex.Session.Projector.Runs.{enter, step_inv, project_inv}
use qodex.Session.Projector.Unsettled.{start-IsOpen_after}
use qodex.Session.Projector.Started.{IsOpen, start-IsOpen, close-IsOpen, dispatch-IsOpen}
use qodex.Session.Recovery.Search.{
  Unmatched, is_interruption, is_masking_terminal, observe, observe_all,
  find_unmatched_started_action, first_value,
}
use qodex.Session.Recovery.Tracking.{IsIdle, evidence_of, Tracks, start-named}
use qodex.Session.Recovery.Observing.{
  observe-started, observe-settled, observe-session, observe_session-interruption,
  observe_session-other, observe-empty, is_started_event-eq, is_settled_event-eq,
}
use qodex.Session.Recovery.Idle.{
  dispatch-named, dispatch-masking, dispatch-settled, dispatch-IsIdle,
}

module _ (pd : String → Bool) (e : Entry) (s t : State) where
  -- a round from an idle action
  idle-Tracks :
      (past : List Entry) (previous : Option Entry)
      → Backed past s.pending_action
      → is_terminal s.status ≡ false
      → IsIdle s.pending_action
      → dispatch pd e.type e s ≡ ok t
      → Tracks (observe previous e []) t.pending_action t.status
  unfolding insert
  idle-Tracks past previous b live idle h = elim (Bool-cases (is_start e.type)) [
    | inl begins ↦
        let begun = dispatch-start pd e s t e.type begins h in
        let (a, mine, opened) = start-IsOpen_after pd past e s t b live begun in
        let (p, _, named) = start-named e s t begun in
        let named' : truthy (action_id_of e) ≡ some a = ground arith in
        inr (
          a,
          false,
          observe-started previous e [] a (is_started_event-eq e.type ∙ begins) named',
          opened,
        )
    | inr other ↦ inl (
      observe-empty previous e (is_started_event-eq e.type ∙ other),
      dispatch-IsIdle pd e s t e.type other idle h,
    )
  ]

  -- a round from an action that has started, by a settlement
  settled-Tracks :
      (a : String) (b : Bool) (previous : Option Entry)
      → IsOpen a s.pending_action s.status
      → is_settlement e.type ≡ true
      → is_start e.type ≡ false
      → dispatch pd e.type e s ≡ ok t
      → Tracks (observe previous e ((a, evidence_of a b) ∷ [])) t.pending_action t.status
  unfolding remove
  settled-Tracks a b previous w settles other h =
      let (p, found, named) = dispatch-named pd e s t e.type settles h in
      let mine : truthy (action_id_of e) ≡ some a = cc (w.held, w.named, found, named) in
      let seen =
        observe-settled previous e ((a, evidence_of a b) ∷ []) a
          (is_started_event-eq e.type ∙ other) (is_settled_event-eq e.type ∙ settles) mine in
      inl (seen ∙ ground (arith, eq_refl a), dispatch-settled pd e s t e.type settles h)

  -- a round that neither starts nor settles an action, from one that has started
  passing-Tracks :
      (a : String) (b : Bool) (previous : Option Entry)
      → IsOpen a s.pending_action s.status
      → is_settlement e.type ≡ false
      → is_start e.type ≡ false
      → dispatch pd e.type e s ≡ ok t
      → Tracks (observe previous e ((a, evidence_of a b) ∷ [])) t.pending_action t.status
  passing-Tracks a b previous w unsettled other h =
      let m : Table Unmatched = (a, evidence_of a b) ∷ [] in
      let session =
        observe-session previous e m (is_started_event-eq e.type ∙ other)
          (is_settled_event-eq e.type ∙ unsettled) in
      let still : IsOpen a t.pending_action t.status =
        elim (dispatch-IsOpen a e s t w pd e.type refl h) [
          | inl (settles, _) ↦ absurd (cc (settles, unsettled))
          | inr opened ↦ opened
        ] in
      elim (Bool-cases (is_interruption e.type)) [
        | inl stops ↦
            inr (a, true, session ∙ observe_session-interruption previous e m stops, still)
        | inr runs ↦ elim (Bool-cases (is_masking_terminal e.type)) [
          | inl closes ↦
              let (status, closed) = dispatch-masking pd e s t e.type closes h in
              absurd (close-IsOpen a e s t w status closed)
          | inr stays ↦ inr (a, b, session ∙ observe_session-other previous e m runs stays, still)
        ]
      ]

  open-Tracks :
      (a : String) (b : Bool) (previous : Option Entry)
      → IsOpen a s.pending_action s.status
      → dispatch pd e.type e s ≡ ok t
      → Tracks (observe previous e ((a, evidence_of a b) ∷ [])) t.pending_action t.status
  open-Tracks a b previous w h = elim (Bool-cases (is_start e.type)) [
    | inl begins ↦ absurd (start-IsOpen a e s t w (dispatch-start pd e s t e.type begins h))
    | inr other ↦ elim (Bool-cases (is_settlement e.type)) [
      | inl settles ↦ settled-Tracks a b previous w settles other h
      | inr unsettled ↦ passing-Tracks a b previous w unsettled other h
    ]
  ]

module _ (pd : String → Bool) where
  step-Tracks :
      (past : List Entry) (previous : Option Entry) (e : Entry) (s t : State) (m : Table Unmatched)
      → Backed past s.pending_action
      → Tracks m s.pending_action s.status
      → step pd previous e s ≡ ok t
      → Tracks (observe previous e m) t.pending_action t.status
  step-Tracks past previous e s t m backed w h =
      let (_, _, live, moved) = step_inv pd previous e s t h in
      elim w [
        | inl (empty, idle) ↦
            subst (λ l. Tracks (observe previous e l) t.pending_action t.status) (sym empty)
              (idle-Tracks pd e (enter e s) t past previous backed live idle moved)
        | inr (a, b, one, opened) ↦
            subst (λ l. Tracks (observe previous e l) t.pending_action t.status) (sym one)
              (open-Tracks pd e (enter e s) t a b previous opened moved)
      ]

  run-Tracks :
      (past : List Entry) (previous : Option Entry) (es : List Entry) (s t : State)
      (m : Table Unmatched)
      → Backed past s.pending_action
      → Tracks m s.pending_action s.status
      → run pd previous es s ≡ ok t
      → Tracks (observe_all previous es m) t.pending_action t.status
  unfolding run observe_all
  run-Tracks past previous [] s t m backed w h =
      subst (λ (u : State). Tracks m u.pending_action u.status) (ok-injective h) w
  run-Tracks past previous (e ∷ es) s t m backed w h =
      let (u, taken, rest) = >>=-eq-ok (step pd previous e s) _ h in
      let (_, _, _, moved) = step_inv pd previous e s u taken in
      run-Tracks (past ++ e ∷ []) (some e) es u t (observe previous e m)
        (dispatch-Backed past e pd e.type (enter e s) u refl backed moved)
        (step-Tracks past previous e s u m backed w taken) rest

  -- On a path that projects, recovery finds a started action without a settlement exactly when the
  -- projection holds a started pending action, it is that action, and no entry that closes the
  -- session hides it.
  pub find_unmatched_started_action-project :
      (es : List Entry) (z : ProjectedSessionState)
      → project pd es ≡ ok z
      → ((find_unmatched_started_action es ≡ none) × IsIdle z.pending_action)
        ⊎ ((p : PendingAction) × (b : Bool) × (z.pending_action ≡ some p)
            × (p.started ≡ true)
            × (p.settled ≡ false)
            × (is_terminal z.status ≡ false)
            × (find_unmatched_started_action es ≡ some (evidence_of p.action_id b)))
  unfolding find_unmatched_started_action projected
  find_unmatched_started_action-project es z h =
      let (first, rest, t, _, _, ran, out) = project_inv pd es z h in
      elim (run-Tracks [] none es initial t [] tt (inl (refl, tt)) ran) [
        | inl (empty, idle) ↦ inl (
          ap first_value empty,
          subst (λ (v : ProjectedSessionState). IsIdle v.pending_action) (sym out) idle,
        )
        | inr (a, b, one, w) ↦
            let seen : some (evidence_of a b) ≡ some (evidence_of w.pending.action_id b) =
              ap (λ i. some (evidence_of i b)) (sym w.named) in
            inr (
              w.pending,
              b,
              rw out w.held,
              w.started,
              w.unsettled,
              rw out w.live,
              ap first_value one ∙ seen,
            )
      ]
