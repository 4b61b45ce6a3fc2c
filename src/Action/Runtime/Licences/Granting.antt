-- ===== src/Action/Runtime/Licences/Granting.antt =====
-- On what a receipt was given, in the past of a runtime
-- (packages/action-runtime/src/runtime.ts).
use qodex.Common.{
  ◌≡◌, refl, sym, ◌∙◌, subst, ap, inl, inr, String, Bool, true, false, some, List, [], ◌∷◌, leb, ℕ,
}
use qodex.Common.Maps.{lookup}
use qodex.Session.Json.{same_number}
use qodex.Action.Types.{ActionProposal, ActionApproval, ActionDecision, ActionStarted, Verdict}
use qodex.Action.Canonical.{ActionHost}
use qodex.Action.Validation.Inversion.{
  binds_proposal-eqs, validate_action_approval_inv, validate_action_decision_inv,
  validate_action_started_inv,
}
use qodex.Action.Runtime.World.{Execution, ActionRecord}
use qodex.Action.Runtime.Evaluating.{assert_approval_valid}
use qodex.Action.Runtime.Calls.{Reply, System, Event, on_event}
use qodex.Action.Runtime.Invariant.{Phase}
use qodex.Action.Runtime.Systems.{
  Reachable, Reachable-AllSound, fresh_system, run_events, run_events-Follows,
}
use qodex.Action.Runtime.Licences.Quiet.{HasApproval, held_approval}
use qodex.Action.Runtime.Licences.Steps.{Accepted}
use qodex.Action.Runtime.Licences.Past.{Gives, on_event-Back, same_record}

-- Something was so at an event of the past; the past has its last event first.
pub data Once (P : Event → List Event → Type 0) : List Event → Type 0 where
  here : {event : Event} {past : List Event} → P event past → Once P (event ∷ past)
  earlier : {event : Event} {past : List Event} → Once P past → Once P (event ∷ past)

module _ (host : ActionHost) where
  -- the runtime after all events of the past
  unfoldable pub system_after : List Event → System
  unfolding on_event
  system_after [] = fresh_system
  system_after (event ∷ past) = on_event host event (system_after past)

  system_after-Reachable : (past : List Event) → Reachable host (system_after past)
  unfolding system_after
  system_after-Reachable [] = Reachable.fresh
  system_after-Reachable (event ∷ past) = Reachable.later event (system_after-Reachable past)

  -- The event is the answer of `beforeApprovalAccepted` for an approval of the action that was
  -- awaiting it, and the hook did not fail.
  pub record AcceptedBy (id : String) (approval : ActionApproval) (event : Event)
      (past : List Event) : Type 0 where
    pub place : ℕ
    pub hook_fails : Bool
    pub before : ActionRecord
    pub answered : event ≡ Event.accept id place hook_fails
    pub found : lookup id (system_after past).records ≡ some before
    pub accepted : Accepted before place hook_fails approval

  -- The event is the answer of `beforeDispatch` for the action, with what the execution waited with
  -- and what its clock read.
  pub record GivenBy (id : String) (proposal : ActionProposal) (receipt : ActionStarted)
      (event : Event) (past : List Event) : Type 0 where
    pub answer : Reply
    pub before : ActionRecord
    pub approval : ActionApproval
    pub decision : ActionDecision
    pub expires_at : ℕ
    pub answered : event ≡ Event.reply id answer
    pub found : lookup id (system_after past).records ≡ some before
    pub same_proposal : before.snapshot.proposal ≡ proposal
    pub waited : before.execution ≡ Execution.dispatching approval decision receipt
    pub recorded : answer.hook_fails ≡ false
    pub not_cancelled : before.aborted ≡ false
    pub accepted : Once (AcceptedBy id approval) past
    pub approved_action : approval.action_id ≡ proposal.action_id
    pub approved_task : approval.task_id ≡ proposal.task_id
    pub approved_content : approval.proposal_digest ≡ proposal.proposal_digest
    pub approved_generation : same_number approval.generation before.expected_generation ≡ true
    pub approved_until : host.parse_date approval.expires_at ≡ some expires_at
    pub in_time : leb expires_at (answer.clock 0) ≡ false
    pub kept : before.snapshot.decision ≡ some decision
    pub allowed : decision.decision ≡ Verdict.allow
    pub decided_action : decision.action_id ≡ proposal.action_id
    pub started_action : receipt.action_id ≡ proposal.action_id
    pub names_approval : receipt.approval_id ≡ approval.approval_id
    pub names_decision : receipt.decision_id ≡ decision.decision_id

  approval-Once :
      (past : List Event) (id : String) (r : ActionRecord) (a : ActionApproval)
      → lookup id (system_after past).records ≡ some r
      → HasApproval a r
      → Once (AcceptedBy id a) past
  unfolding system_after lookup
  approval-Once [] id r a found has_it = absurd cc found
  approval-Once (event ∷ past) id r a found has_it =
      elim (on_event-Back host event id (system_after past) r found) [
        | inl (_, (_, untouched)) ↦ absurd (untouched a has_it)
        | inr (q, before, origin) ↦ elim (origin.approvals a has_it) [
          | inl had ↦ Once.earlier (approval-Once past id q a before had)
          | inr (place, fails, answered, accepted) ↦ Once.here (record {
            place = place;
            hook_fails = fails;
            before = q;
            answered = answered;
            found = before;
            accepted = accepted;
          })
        ]
      ]

  Granted-GivenBy :
      (past : List Event) (id : String) (q : ActionRecord) (event : Event) (receipt : ActionStarted)
      → lookup id (system_after past).records ≡ some q
      → Gives host event id q receipt
      → GivenBy id q.snapshot.proposal receipt event past
  unfolding assert_approval_valid held_approval
  Granted-GivenBy past id q event receipt found (answer, answered, granted) =
      let sound = Reachable-AllSound host (system_after-Reachable past) id q found in
      let (_, _, (kept, decided), later, bound) =
        subst (Phase host q.snapshot q.expected_generation q.aborted) granted.waited sound.phase in
      let (expires, parsed, fresh, binds, generation) =
        validate_action_approval_inv host granted.approval q.snapshot.proposal q.expected_generation
          (answer.clock 0) granted.approved in
      let (action, task, content) = binds_proposal-eqs granted.approval q.snapshot.proposal binds in
      let (started, named, allowed, by_decision) =
        validate_action_started_inv host receipt q.snapshot.proposal granted.approval
          granted.decision later bound in
      record {
        answer = answer;
        before = q;
        approval = granted.approval;
        decision = granted.decision;
        expires_at = expires;
        answered = answered;
        found = found;
        same_proposal = refl;
        waited = granted.waited;
        recorded = granted.recorded;
        not_cancelled = granted.not_cancelled;
        accepted =
            approval-Once past id q granted.approval found (inr (ap held_approval granted.waited));
        approved_action = action;
        approved_task = task;
        approved_content = content;
        approved_generation = generation;
        approved_until = parsed;
        in_time = fresh;
        kept = kept;
        allowed = allowed;
        decided_action =
            validate_action_decision_inv host granted.decision q.snapshot.proposal
              host.evidence_size_limit decided;
        started_action = started;
        names_approval = named;
        names_decision = by_decision;
      }

  still_proposed :
      (past : List Event) (event : Event) (id : String) (q r : ActionRecord)
      → lookup id (system_after past).records ≡ some q
      → lookup id (system_after (event ∷ past)).records ≡ some r
      → q.snapshot.proposal ≡ r.snapshot.proposal
  unfolding system_after run_events
  still_proposed past event id q r before found =
      let (p, there, evolved) =
        run_events-Follows host (event ∷ []) (system_after past) (system_after-Reachable past) id q
          before in
      let same : p ≡ r = same_record (sym there ∙ found) in
      sym evolved.same_proposal ∙ ap (λ (x : ActionRecord). x.snapshot.proposal) same

  -- An action that has a receipt got it at an answer of `beforeDispatch` for it, that did not fail:
  -- its execution waited there with the receipt, an approval and the kept decision, and was not
  -- cancelled. The approval is on exactly this action, task and content and of the expected
  -- generation, it had not expired at what the clock read behind that answer, and it was accepted
  -- earlier, at an answer of `beforeApprovalAccepted` that did not fail. The decision allows this
  -- action, and the receipt names both.
  pub receipt-Once :
      (past : List Event) (id : String) (r : ActionRecord) (receipt : ActionStarted)
      → lookup id (system_after past).records ≡ some r
      → r.snapshot.started ≡ some receipt
      → Once (GivenBy id r.snapshot.proposal receipt) past
  unfolding system_after lookup
  receipt-Once [] id r receipt found started = absurd cc found
  receipt-Once (event ∷ past) id r receipt found started =
      elim (on_event-Back host event id (system_after past) r found) [
        | inl (_, (bare, _)) ↦ absurd cc (bare, started)
        | inr (q, before, origin) ↦
            subst (λ p. Once (GivenBy id p receipt) (event ∷ past))
              (still_proposed past event id q r before found)
              (elim (origin.receipts receipt started) [
                | inl had ↦ Once.earlier (receipt-Once past id q receipt before had)
                | inr given ↦ Once.here (Granted-GivenBy past id q event receipt before given)
              ])
      ]
