-- ===== src/Session/Projector/Runs.antt =====
-- Runs of the projection's loop (packages/session-runtime/src/projector.ts): one round, and two
-- runs one after the other.
use qodex.Common.{
  ◌≡◌, refl, sym, ◌∙◌, String, Bool, true, false, not, Option, none, some, List, [], ◌∷◌, ◌++◌, has,
  ok, guard, ◌>>=◌, >>=-eq-ok, >>=-regroup, ok-injective, guard-not-eq-ok, guard-eq-ok,
}
use qodex.Session.Entries.{Entry, LedgerError}
use qodex.Session.Projector.State.{State, initial, is_terminal}
use qodex.Session.Projector.Fold.{
  ProjectedSessionState, is_created, last_of, projected, follows, dispatch, step, run, project,
}

-- the entry before the next one
abbrev pub last_or : Option Entry → List Entry → Option Entry
last_or previous [] = previous
last_or previous (e ∷ es) = last_or (some e) es

-- the state as the switch of the loop finds it
abbrev pub enter : Entry → State → State
enter e s = record s { seen = e.id ∷ s.seen }

module _ (pd : String → Bool) where
  pub step_inv :
      (previous : Option Entry) (e : Entry) (s t : State)
      → step pd previous e s ≡ ok t
      → (has e.id s.seen ≡ false)
        × (follows previous e ≡ ok tt)
        × (is_terminal s.status ≡ false)
        × (dispatch pd e.type e (enter e s) ≡ ok t)
  unfolding step
  step_inv previous e s t h =
      let (_, h₀, h₁) = >>=-eq-ok (guard (not (has e.id s.seen)) LedgerError.duplicate_entry) _ h in
      let (_, h₂, h₃) = >>=-eq-ok (follows previous e) _ h₁ in
      let (_, h₄, h₅) =
        >>=-eq-ok (guard (not (is_terminal s.status)) LedgerError.terminal_session) _ h₃ in
      (
        guard-not-eq-ok _ LedgerError.duplicate_entry h₀,
        h₂,
        guard-not-eq-ok _ LedgerError.terminal_session h₄,
        h₅,
      )

  run-append :
      (previous : Option Entry) (xs ys : List Entry) (s : State)
      → run pd previous (xs ++ ys) s ≡ (run pd previous xs s >>= run pd (last_or previous xs) ys)
  unfolding run
  run-append previous [] ys s = refl
  run-append previous (x ∷ xs) ys s =
      >>=-regroup (step pd previous x s) (run pd (some x) (xs ++ ys)) (run pd (some x) xs)
        (run pd (last_or (some x) xs) ys) (run-append (some x) xs ys)

  -- A run over `xs ++ e ∷ ys` passes through a state in which `e` is taken.
  pub run-split :
      (xs ys : List Entry) (e : Entry) (t : State)
      → run pd none (xs ++ e ∷ ys) initial ≡ ok t
      → (s u : State) × (run pd none xs initial ≡ ok s)
        × (step pd (last_or none xs) e s ≡ ok u)
        × (run pd (some e) ys u ≡ ok t)
  unfolding run
  run-split xs ys e t h =
      let (s, h₀, h₁) =
        >>=-eq-ok (run pd none xs initial) _ (sym (run-append none xs (e ∷ ys) initial) ∙ h) in
      let (u, h₂, h₃) = >>=-eq-ok (step pd (last_or none xs) e s) _ h₁ in (s, u, h₀, h₂, h₃)

  -- What `project` answers is the end of a run over all entries.
  pub project_inv :
      (es : List Entry) (z : ProjectedSessionState)
      → project pd es ≡ ok z
      → (first : Entry) × (rest : List Entry) × (s : State) × (es ≡ first ∷ rest)
        × (is_created first.type ≡ true)
        × (run pd none es initial ≡ ok s)
        × (z ≡ projected s first (last_of first rest))
  unfolding project
  project_inv [] z h = cc
  project_inv (first ∷ rest) z h =
      let (_, h₀, h₁) = >>=-eq-ok (guard (is_created first.type) LedgerError.not_begun) _ h in
      let (s, h₂, h₃) = >>=-eq-ok (run pd none (first ∷ rest) initial) _ h₁ in
      (first, rest, s, refl, guard-eq-ok _ LedgerError.not_begun h₀, h₂, sym (ok-injective h₃))
