-- ===== src/Session/Projector/Order.antt =====
-- The shape of the ledgers that project: their identifiers and their sequence numbers
-- (packages/session-runtime/src/projector.ts).
use qodex.Common.{
  ◌≡◌, refl, String, Bool, true, false, ◌<◌, ℕ, Option, none, some, List, [], ◌∷◌, ok, has, All,
  Distinct, map, >>=-eq-ok, arith, ◌==◌, eq_iff, subst,
}
use qodex.Session.Entries.{Entry}
use qodex.Session.Projector.State.{State, initial}
use qodex.Session.Projector.Fold.{ProjectedSessionState, step, run, project, follows, is_created}
use qodex.Session.Projector.Runs.{enter, step_inv, project_inv}
use qodex.Session.Projector.Counts.{dispatch-seen}

-- Each entry comes after the one before it, and only the first one creates the session.
abbrev pub Ordered : ℕ → List Entry → Type 0
Ordered n [] = Unit
Ordered n (e ∷ es) = (n < e.sequence) × (is_created e.type ≡ false) × Ordered e.sequence es

abbrev pub ids : List Entry → List String
ids = map (λ e. e.id)

follows-eq-ok :
    (previous e : Entry)
    → follows (some previous) e ≡ ok tt
    → (previous.sequence < e.sequence) × (is_created e.type ≡ false)
unfolding follows
follows-eq-ok previous e h = ground arith

-- `===` of texts is symmetric, so an identifier that was not seen is none of the later ones.
fresh-cons :
    (x y : String) (seen : List String)
    → has x (y ∷ seen) ≡ false
    → (has x seen ≡ false) × ((x == y) ≡ false)
fresh-cons x y seen h = ground (arith, eq_iff x y, eq_iff y x)

AllFresh : List String → List Entry → Type 0
AllFresh seen = All (λ e. has e.id seen ≡ false)

AllFresh-cons :
    (x : String) (seen : List String) (es : List Entry)
    → AllFresh (x ∷ seen) es
    → AllFresh seen es × (has x (ids es) ≡ false)
unfolding AllFresh
AllFresh-cons x seen [] h = (tt, refl)
AllFresh-cons x seen (e ∷ es) (h, hs) =
    let (old, new) = fresh-cons e.id x seen h in
    let (olds, news) = AllFresh-cons x seen es hs in ((old, olds), ground arith)

module _ (pd : String → Bool) where
  run-fresh :
      (previous : Option Entry) (es : List Entry) (s t : State)
      → run pd previous es s ≡ ok t
      → Distinct (ids es) × AllFresh s.seen es
  unfolding run AllFresh
  run-fresh previous [] s t h = (tt, tt)
  run-fresh previous (e ∷ es) s t h =
      let (u, taken, rest) = >>=-eq-ok (step pd previous e s) _ h in
      let (fresh, _, _, moved) = step_inv pd previous e s u taken in
      let (distinct, new) = run-fresh (some e) es u t rest in
      let later : AllFresh (e.id ∷ s.seen) es =
        subst (λ l. AllFresh l es) (dispatch-seen pd e.type e (enter e s) u moved) new in
      let (old, apart) = AllFresh-cons e.id s.seen es later in ((apart, distinct), (fresh, old))

  run-Ordered :
      (previous : Entry) (es : List Entry) (s t : State)
      → run pd (some previous) es s ≡ ok t
      → Ordered previous.sequence es
  unfolding run
  run-Ordered previous [] s t h = tt
  run-Ordered previous (e ∷ es) s t h =
      let (u, taken, rest) = >>=-eq-ok (step pd (some previous) e s) _ h in
      let (_, next, _, _) = step_inv pd (some previous) e s u taken in
      let (above, not_first) = follows-eq-ok previous e next in
      (above, not_first, run-Ordered e es u t rest)

  run-Ordered_first :
      (first : Entry) (rest : List Entry) (s t : State)
      → run pd none (first ∷ rest) s ≡ ok t
      → Ordered first.sequence rest
  unfolding run
  run-Ordered_first first rest s t h =
      let (u, _, later) = >>=-eq-ok (step pd none first s) _ h in run-Ordered first rest u t later

  -- A ledger that projects begins with the entry that creates the session and has no other such
  -- entry; its entries have distinct identifiers, and their sequence numbers increase.
  pub project-Ordered :
      (es : List Entry) (z : ProjectedSessionState)
      → project pd es ≡ ok z
      → (first : Entry) × (rest : List Entry) × (es ≡ first ∷ rest)
        × (is_created first.type ≡ true)
        × Ordered first.sequence rest
        × Distinct (ids es)
  project-Ordered es z h =
      let (first, rest, s, shape, created, ran, _) = project_inv pd es z h in
      let ran' = subst (λ l. run pd none l initial ≡ ok s) shape ran in
      let (distinct, _) = run-fresh none es initial s ran in
      (first, rest, shape, created, run-Ordered_first first rest initial s ran', distinct)
