-- ===== src/Session/Recovery/Recovered.antt =====
-- What `recoverSession` leaves and answers (packages/session-runtime/src/recovery.ts, src/runtime.ts).
use qodex.Common.{
  ◌≡◌, sym, subst, ap, ◌∙◌, String, not, ◌⊎◌, inl, inr, Option, none, some, List, ok, arith,
  >>=-eq-ok, ok-injective, Bool-cases, Option-cases, guard, if◌then◌else◌, Result, ◌>>=◌,
}
use qodex.Session.Json.{text_at}
use qodex.Session.Entries.{Entry, truthy}
use qodex.Session.Projector.Fold.{ProjectedSessionState, project}
use qodex.Session.Validation.{SessionError}
use qodex.Session.Store.{Store}
use qodex.Session.Runtime.{
  Host, AppendEntryInput, lift_ledger, require_session, append_entry, load_active_path,
  project_current_state,
}
use qodex.Session.Runtime.Soundness.{append_entry-IsSound}
use qodex.Session.Runtime.Sound.{IsSound}
use qodex.Session.Runtime.Appending.{require_session-eq-ok}
use qodex.Session.Recovery.{
  is_recovered_status, recovery_entry, inherited, unmatched_input, append_then_project, follow_up,
  is_settled_uncertain, recover_settled, recover, recover_session,
}
use qodex.Session.Recovery.Search.{Unmatched, find_unmatched_started_action}

module _ (host : Host) (id random_id now : String) (st st' : Store)
    (z : ProjectedSessionState) where
  -- the store is as it was, or has one entry more
  abbrev pub Changed : Type 0
  Changed =
      (st' ≡ st)
      ⊎ ((input : AppendEntryInput) × (e : Entry) × (append_entry host id input random_id now st
            ≡ ok (st', e)))

  -- recovery answers the projection of what it leaves
  abbrev pub Recovered : Type 0
  Recovered = Changed × (project_current_state host id st' ≡ ok z)

  kept :
      (w : ProjectedSessionState)
      → project_current_state host id st ≡ ok w
      → ◌≡◌ {A = Result SessionError (Store × ProjectedSessionState)} (ok (st, w)) (ok (st', z))
      → Recovered
  kept w now_is h =
      let same = ok-injective h in
      let store : st ≡ st' = ap (λ (r : Store × ProjectedSessionState). r.0) same in
      let state : w ≡ z = ap (λ (r : Store × ProjectedSessionState). r.1) same in
      (
        inl (sym store),
        subst (λ u. project_current_state host id u ≡ ok z) store (now_is ∙ ap ok state),
      )

  appended :
      (input : AppendEntryInput)
      → append_then_project host id input random_id now st ≡ ok (st', z)
      → Recovered
  appended input h =
      let ((u, e), made, h₁) = >>=-eq-ok (append_entry host id input random_id now st) _ h in
      let (w, after, h₂) = >>=-eq-ok (project_current_state host id u) _ h₁ in
      let same = ok-injective h₂ in
      let store : u ≡ st' = ap (λ (r : Store × ProjectedSessionState). r.0) same in
      let state : w ≡ z = ap (λ (r : Store × ProjectedSessionState). r.1) same in
      (
        inr (input, e, made ∙ ap (λ v. ok (v, e)) store),
        subst (λ v. project_current_state host id v ≡ ok z) store (after ∙ ap ok state),
      )

  follow_up-Recovered :
      (w : ProjectedSessionState)
      → project_current_state host id st ≡ ok w
      → (o : Option AppendEntryInput) → follow_up host id o random_id now st ≡ ok (st', z)
      → Recovered
  follow_up-Recovered w now_is none h = kept w now_is (rw now_is at h)
  follow_up-Recovered w now_is (some input) h = appended input h

  recover_settled-Recovered :
      (w : ProjectedSessionState)
      → project_current_state host id st ≡ ok w
      → recover_settled host id w random_id now st ≡ ok (st', z)
      → Recovered
  unfolding recover_settled
  recover_settled-Recovered w now_is h = elim (Bool-cases (is_recovered_status w.status)) [
    | inl done ↦ kept w now_is (rw done at h)
    | inr active ↦
        let o = truthy (text_at "runtimeStatus" w.last_entry.safe_metadata) in
        let (_, _, h₁) =
          >>=-eq-ok (guard (not (inherited host o)) SessionError.invalid_entry_type) _
            (rw active at h) in
        follow_up-Recovered w now_is (recovery_entry o w.pending_action) h₁
  ]

  projects-now :
      (active : List Entry) (w : ProjectedSessionState)
      → load_active_path host id st ≡ ok active
      → lift_ledger (project host.parses_date active) ≡ ok w
      → project_current_state host id st ≡ ok w
  unfolding project_current_state
  projects-now active w loaded h = ground (arith, loaded, h)

  unmatched-Recovered :
      (active : List Entry) (u : Unmatched)
      → load_active_path host id st ≡ ok active
      → (if is_settled_uncertain host u
          then (lift_ledger (project host.parses_date active) >>= λ w. ok (st, w))
          else append_then_project host id (unmatched_input u) random_id now st)
        ≡ ok (st', z)
      → Recovered
  unmatched-Recovered active u loaded h = elim (Bool-cases (is_settled_uncertain host u)) [
    | inl uncertain ↦
        let (w, made, h₁) =
          >>=-eq-ok (lift_ledger (project host.parses_date active)) _ (rw uncertain at h) in
        kept w (projects-now active w loaded made) h₁
    | inr new ↦ appended (unmatched_input u) (rw new at h)
  ]

  recover-Recovered :
      (active : List Entry)
      → load_active_path host id st ≡ ok active
      → recover host id active random_id now st ≡ ok (st', z)
      → Recovered
  unfolding recover
  recover-Recovered active loaded h = elim (Option-cases (find_unmatched_started_action active)) [
    | inl nothing ↦
        let (w, made, h₁) =
          >>=-eq-ok (lift_ledger (project host.parses_date active)) _
            (rw (recover, nothing) at h) in
        recover_settled-Recovered w (projects-now active w loaded made) h₁
    | inr (u, found) ↦ unmatched-Recovered active u loaded (rw (recover, found) at h)
  ]

-- Recovery of a session of a sound store appends at most one entry, leaves the store sound, and
-- answers the projection of the path that it leaves.
pub recover_session-Recovered :
    (host : Host) (id random_id now : String) (st st' : Store) (z : ProjectedSessionState)
    → IsSound host.parses_date st
    → recover_session host id random_id now st ≡ ok (st', z)
    → IsSound host.parses_date st'
      × Changed host id random_id now st st' z
      × (project_current_state host id st' ≡ ok z)
unfolding recover_session
recover_session-Recovered host id random_id now st st' z w h =
    let (session, there, h₁) = >>=-eq-ok (require_session id st) _ h in
    let (active, loaded, h₂) = >>=-eq-ok (load_active_path host id st) _ h₁ in
    let key = w.keyed id session (require_session-eq-ok id st there) in
    let (changed, answer) =
      recover-Recovered host id random_id now st st' z active loaded
        (subst (λ i. recover host i active random_id now st ≡ ok (st', z)) key h₂) in
    let sound : IsSound host.parses_date st' = elim changed [
      | inl same ↦ subst (IsSound host.parses_date) (sym same) w
      | inr (input, e, made) ↦ append_entry-IsSound host id input random_id now st st' e w made
    ] in
    (sound, changed, answer)
