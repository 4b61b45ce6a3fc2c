-- ===== src/Action/Runtime/Licences/Resuming.antt =====
-- Only the answer of `beforeDispatch` gives a receipt (packages/action-runtime/src/runtime.ts).
use qodex.Common.{◌≡◌, refl, ◌∙◌, ap, ◌⊎◌, inl, inr, Bool, true, false, some}
use qodex.Action.Types.{ActionApproval, ActionDecision, ActionStarted, ActionState, ErrorCode}
use qodex.Action.Canonical.{ActionHost}
use qodex.Action.Runtime.World.{Failure, Execution, World}
use qodex.Action.Runtime.Evaluating.{assert_approval_valid}
use qodex.Action.Runtime.Dispatching.{resume_dispatching, with_receipt}
use qodex.Action.Runtime.Calls.{Reply, resume_at, resume}
use qodex.Action.Runtime.Invariant.Combinators.{checked-holds, advance-holds, if-holds}
use qodex.Action.Runtime.Licences.Quiet.{
  held_approval, is_over, HasApproval, holds_same, Quiet, Quiet-refl, rejects, finishes,
}
use qodex.Action.Runtime.Licences.Segments.{
  resume_refusing-Quiet, resume_requesting-Quiet, resume_deciding-Quiet, resume_recording-Quiet,
  resume_handling-Quiet, resume_settling-Quiet, resume_reporting-Quiet,
}
use qodex.Action.Runtime.Licences.Steps.{
  Granted, Origin, Origin-refl, Quiet-Origin, resume_refusing-is_over, working,
}

module _ (A : ActionApproval → Type 0) (host : ActionHost) (b : World) (r : Reply) where
  abbrev Resumed : World → Type 0
  Resumed w = Origin (Granted host b.action r) A b.action w.action

  quiet :
      (e : Execution) (w : World)
      → b.action.execution ≡ e
      → is_over e ≡ false
      → Quiet b w
      → Resumed w
  quiet e w here runs calm = Quiet-Origin b w calm (working b e w.action.execution here runs)

  dispatched-Origin :
      (a : ActionApproval) (d : ActionDecision) (receipt : ActionStarted) (fails : Bool)
      → b.action.execution ≡ Execution.dispatching a d receipt
      → r.hook_fails ≡ fails
      → Resumed (resume_dispatching host a d receipt fails r.clock b)
  unfolding resume_dispatching held_approval is_over
  dispatched-Origin a d receipt true waited answer =
      quiet (Execution.dispatching a d receipt) _ waited refl
        (rejects b b (Quiet-refl b) (Failure.coded ErrorCode.dispatch_barrier_failed))
  dispatched-Origin a d receipt false waited answer =
      let still = Quiet-refl b in
      let stops = λ (failure : Failure).
        quiet (Execution.dispatching a d receipt) _ waited refl (rejects b b still failure) in
      let has_it : HasApproval a b.action = inr (ap held_approval waited) in
      checked-holds Resumed (assert_approval_valid host b.action a (r.clock 0)) b _ stops (λ valid.
        if-holds Resumed b.action.aborted _ _
          (λ aborted.
            quiet (Execution.dispatching a d receipt) _ waited refl
              (finishes b b still ActionState.cancelled))
          (λ going.
            let given : (other : ActionStarted)
                → some receipt ≡ some other
                → Granted host b.action r other =
              λ other h.
                let same : receipt ≡ other = cc in
                record {
                  approval = a;
                  decision = d;
                  waited = waited ∙ ap (Execution.dispatching a d) same;
                  recorded = answer;
                  not_cancelled = going;
                  approved = valid;
                } in
            let held : (x : ActionApproval)
                → (b.action.snapshot.approval ≡ some x) ⊎ (some a ≡ some x)
                → HasApproval x b.action ⊎ A x =
              λ x h. elim h [
                | inl kept ↦ inl (inl kept)
                | inr here ↦ inl (holds_same a b.action has_it x here)
              ] in
            advance-holds Resumed ActionState.running (with_receipt receipt b) _
              (λ stuck. record {
                receipts = λ other h. inr (given other h);
                approvals = λ x h. elim h [ inl kept ↦ inl (inl kept) | inr here ↦ absurd cc here ];
                still_over = λ h. refl;
              })
              (λ moves. record {
                receipts = λ other h. inr (given other h);
                approvals = held;
                still_over =
                    working b (Execution.dispatching a d receipt) (Execution.handling a d receipt)
                      waited refl;
              })))

  resume_at-Origin : (e : Execution) → b.action.execution ≡ e → Resumed (resume_at host e r b)
  unfolding resume_at held_approval is_over
  resume_at-Origin Execution.unstarted here = Origin-refl b
  resume_at-Origin Execution.ended here = Origin-refl b
  resume_at-Origin (Execution.rejected failure) here = Origin-refl b
  resume_at-Origin Execution.reporting here =
      quiet Execution.reporting _ here refl (resume_reporting-Quiet host b)
  resume_at-Origin Execution.refusing here =
      Quiet-Origin b _ (resume_refusing-Quiet host b r.hook_fails r.clock)
        (λ h. resume_refusing-is_over host b r.hook_fails r.clock)
  resume_at-Origin (Execution.requesting a) here =
      quiet (Execution.requesting a) _ here refl
        (resume_requesting-Quiet host b a (inr (ap held_approval here)) r.hook_fails)
  resume_at-Origin (Execution.deciding a) here =
      quiet (Execution.deciding a) _ here refl
        (resume_deciding-Quiet host b a (inr (ap held_approval here)) r.decision r.clock)
  resume_at-Origin (Execution.recording a d) here = quiet (Execution.recording a d) _ here refl (
      resume_recording-Quiet host b a (inr (ap held_approval here)) d r.hook_fails r.receipt_id
        r.clock)
  resume_at-Origin (Execution.dispatching a d receipt) here =
      dispatched-Origin a d receipt r.hook_fails here refl
  resume_at-Origin (Execution.handling a d receipt) here =
      quiet (Execution.handling a d receipt) _ here refl
        (resume_handling-Quiet host b receipt r.handler r.clock)
  resume_at-Origin (Execution.settling receipt outcome) here =
      quiet (Execution.settling receipt outcome) _ here refl
        (resume_settling-Quiet host b receipt outcome r.hook_fails r.clock)

  pub resume-Origin : Resumed (resume host r b)
  unfolding resume
  resume-Origin = resume_at-Origin b.action.execution refl
