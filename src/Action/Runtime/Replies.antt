-- ===== src/Action/Runtime/Replies.antt =====
-- An execution that is answered whenever it awaits comes to its end
-- (packages/action-runtime/src/runtime.ts).
use qodex.Common.{◌≡◌, refl, ap, ℕ, suc, ◌≤◌, List, [], ◌∷◌, arith, length, ◌+◌, ◌⊎◌, inl, inr, ◌≢◌}
use qodex.Action.Canonical.{ActionHost}
use qodex.Action.Runtime.World.{Failure, Execution, World}
use qodex.Action.Runtime.Evaluating.{resume_requesting, resume_deciding}
use qodex.Action.Runtime.Dispatching.{resume_reporting, resume_handling}
use qodex.Action.Runtime.Calls.{Reply, resume_at, resume}
use qodex.Action.Runtime.Awaits.{
  awaits, Within, recording-Within, dispatching-Within, settling-Within, refusing-Within,
  requesting-Within, deciding-Within, handling-Within,
}

module _ (host : ActionHost) where
  -- every answer leaves fewer awaits
  resume_at-Within :
      (n : ℕ) (e : Execution) (r : Reply) (w : World)
      → w.action.execution ≡ e
      → awaits e ≤ 7
      → awaits e ≤ suc n
      → Within n (resume_at host e r w)
  unfolding resume_at awaits resume_requesting resume_deciding resume_handling resume_reporting
  resume_at-Within n Execution.unstarted r w here begun low = omega (arith, begun)
  resume_at-Within n Execution.ended r w here begun low = omega (arith, ap awaits here)
  resume_at-Within n (Execution.rejected failure) r w here begun low = omega (arith, ap awaits here)
  resume_at-Within n Execution.reporting r w here begun low = omega arith
  resume_at-Within n Execution.refusing r w here begun low =
      omega (arith, refusing-Within host r.hook_fails r.clock w)
  resume_at-Within n (Execution.requesting a) r w here begun low =
      omega (arith, requesting-Within host a r.hook_fails w)
  resume_at-Within n (Execution.deciding a) r w here begun low =
      omega (arith, deciding-Within host a r.decision r.clock w)
  resume_at-Within n (Execution.recording a d) r w here begun low =
      omega (arith, recording-Within host a d r.hook_fails r.receipt_id r.clock w)
  resume_at-Within n (Execution.dispatching a d receipt) r w here begun low =
      omega (arith, dispatching-Within host a d receipt r.hook_fails r.clock w)
  resume_at-Within n (Execution.handling a d receipt) r w here begun low =
      omega (arith, handling-Within host receipt r.handler r.clock w)
  resume_at-Within n (Execution.settling receipt o) r w here begun low =
      omega (arith, settling-Within host receipt o r.hook_fails r.clock w)

  -- the answers to one execution, one after the other
  unfoldable pub answer_all : List Reply → World → World
  unfolding resume
  answer_all [] w = w
  answer_all (r ∷ replies) w = answer_all replies (resume host r w)

  answer_all-Within :
      (replies : List Reply) (n : ℕ) (w : World)
      → Within 7 w
      → Within (length replies + n) w
      → Within n (answer_all replies w)
  unfolding answer_all resume
  answer_all-Within [] n w begun low = omega (arith, low)
  answer_all-Within (r ∷ replies) n w begun low =
      let step = λ (k : ℕ). resume_at-Within k w.action.execution r w refl begun in
      answer_all-Within replies n (resume host r w) (step 7 (omega (arith, begun)))
        (step (length replies + n) (omega (arith, low)))

  begun-awaits : (e : Execution) → e ≢ Execution.unstarted → awaits e ≤ 7
  unfolding awaits
  begun-awaits Execution.unstarted begun = absurd (begun refl)
  begun-awaits Execution.ended begun = omega arith
  begun-awaits (Execution.rejected failure) begun = omega arith
  begun-awaits Execution.reporting begun = omega arith
  begun-awaits Execution.refusing begun = omega arith
  begun-awaits (Execution.settling receipt outcome) begun = omega arith
  begun-awaits (Execution.handling a d receipt) begun = omega arith
  begun-awaits (Execution.dispatching a d receipt) begun = omega arith
  begun-awaits (Execution.recording a d) begun = omega arith
  begun-awaits (Execution.deciding a) begun = omega arith
  begun-awaits (Execution.requesting a) begun = omega arith

  over :
      (e : Execution)
      → awaits e ≤ 0
      → (e ≡ Execution.ended) ⊎ ((failure : Failure) × (e ≡ Execution.rejected failure))
  unfolding awaits
  over Execution.ended low = inl refl
  over (Execution.rejected failure) low = inr (failure, refl)
  over Execution.unstarted low = let clash : ⊥ = omega (arith, low) in absurd clash
  over Execution.reporting low = let clash : ⊥ = omega (arith, low) in absurd clash
  over Execution.refusing low = let clash : ⊥ = omega (arith, low) in absurd clash
  over (Execution.settling receipt outcome) low = let clash : ⊥ = omega (arith, low) in absurd clash
  over (Execution.handling a d receipt) low = let clash : ⊥ = omega (arith, low) in absurd clash
  over (Execution.dispatching a d receipt) low = let clash : ⊥ = omega (arith, low) in absurd clash
  over (Execution.recording a d) low = let clash : ⊥ = omega (arith, low) in absurd clash
  over (Execution.deciding a) low = let clash : ⊥ = omega (arith, low) in absurd clash
  over (Execution.requesting a) low = let clash : ⊥ = omega (arith, low) in absurd clash

  -- An execution that has begun and is answered seven times, whatever the answers are, has ended
  -- or its promise is rejected.
  pub answer_all-settles :
      (replies : List Reply) (w : World)
      → w.action.execution ≢ Execution.unstarted
      → 7 ≤ length replies
      → ((answer_all replies w).action.execution ≡ Execution.ended)
        ⊎ ((failure : Failure) × ((answer_all replies w).action.execution
              ≡ Execution.rejected failure))
  answer_all-settles replies w begun enough =
      let most = begun-awaits w.action.execution begun in
      over (answer_all replies w).action.execution
        (answer_all-Within replies 0 w most (omega (arith, most, enough)))
