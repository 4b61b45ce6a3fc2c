-- ===== src/Action/Examples.antt =====
-- The theorems on actions at a concrete host and a concrete run
-- (packages/action-runtime/src/runtime.ts, src/validation.ts).
mod Runs
use qodex.Common.{
  ◌≡◌, refl, ap, ◌∙◌, ℕ, String, Bool, true, false, Option, none, some, ok, err, List, [], ◌∷◌, ◌⊎◌,
  inl, inr, ◌==◌, if◌then◌else◌, length, arith,
}
use qodex.Common.Maps.{lookup}
use qodex.Session.Json.{Number, Json, Items, Fields}
use qodex.Action.Types.{
  ActionRisk, ActionProposalInput, ActionProposal, ActionApproval, Verdict, ActionDecision,
  ActionStarted, OutcomeStatus, ActionOutcome, ActionState, ErrorCode, code_text,
}
use qodex.Action.Canonical.{ActionHost, utf16_length, digestable}
use qodex.Action.Validation.{create_action_proposal, validate_action_proposal, is_present}
use qodex.Action.Validation.Proposals.{create_action_proposal-validates}
use qodex.Action.Runtime.World.{
  Execution, ActionRecord, World, HandlerAnswer, Failure, local_decision, reject,
}
use qodex.Action.Runtime.Calls.{Reply, System, Event, proposed_record, called, on_event}
use qodex.Action.Runtime.Systems.{
  fresh_system, Reachable, run_events, Reachable-run_events, run_events-Follows,
}
use qodex.Common.Text.{is_blank, is_sha256}
use qodex.Action.Runtime.Promises.{
  Concluded, Reachable-Concluded, run_events-ended, cancel-never_starts,
}
use qodex.Action.Runtime.Failing.{resume_recording-cancelled}
use qodex.Action.Runtime.Licences.Granting.{Once, GivenBy, receipt-Once}
use qodex.Action.Runtime.Licences.Refusals.{NeverStarts, wrong_decision-NeverStarts}
use qodex.Action.Runtime.Replies.{answer_all, answer_all-settles}
use qodex.Action.Runtime.Invariant.{Evolves}
use qodex.Action.Transitions.{is_terminal_action_state}
use qodex.Action.Runtime.Evaluating.{
  accept_decision, resume_deciding, execute_approved, start_evaluation, decided,
}
use qodex.Action.Runtime.Dispatching.{
  resume_recording, start_dispatch, await_dispatch, await_settlement, valid_outcome, conclude,
  with_outcome,
}
use qodex.Action.Examples.Runs.{
  example_time, example_host, example_input, example_proposal, proposal_made, example_approval,
  example_decision, example_reply, approving_events, running_events, blank_record, record_or_blank,
  record_in, is_present-record, running_system, running_known, running_found, running_reached,
  example_receipt, running_started, ended_system, ended_known, ended_found, ended_reached,
  example_outcome, ended_outcome, ended_execution, approved_system, approved_known, approved_found,
  approved_idle, waiting_world, seven_replies, cancelled_world, foreign_decision, foreign_reply,
  deciding_system, deciding_found, deciding_waits, deciding_reached, foreign-Unfit, running_past,
  running_past-same,
}

create_action_proposal-validates_example :
    (example_proposal.content ≡ example_input)
    × (validate_action_proposal example_host example_proposal ≡ ok tt)
create_action_proposal-validates_example =
    create_action_proposal-validates example_host example_input example_proposal proposal_made

receipt-Once_example :
    Once
      (GivenBy example_host "action-1" (record_in running_system).snapshot.proposal example_receipt)
      running_past
receipt-Once_example =
    receipt-Once example_host running_past "action-1" (record_in running_system) example_receipt
      (ap (λ (s : System). lookup "action-1" s.records) running_past-same ∙ running_found)
      running_started

run_events-Follows_example :
    (q : ActionRecord) × (lookup "action-1"
        (run_events example_host
          (Event.cancel "action-1" ∷ Event.reply "action-1" example_reply ∷ [])
          running_system).records
      ≡ some q)
    × Evolves (record_in running_system) q
run_events-Follows_example =
    run_events-Follows example_host
      (Event.cancel "action-1" ∷ Event.reply "action-1" example_reply ∷ []) running_system
      running_reached "action-1" (record_in running_system) running_found

Reachable-Concluded_example : Concluded (record_in ended_system).snapshot example_outcome
Reachable-Concluded_example =
    Reachable-Concluded example_host ended_system "action-1" (record_in ended_system)
      example_outcome ended_reached ended_found ended_outcome

run_events-ended_example :
    (q : ActionRecord) × (lookup "action-1"
        (run_events example_host (Event.cancel "action-1" ∷ []) ended_system).records
      ≡ some q)
    × (q.snapshot.state ≡ (record_in ended_system).snapshot.state)
    × (is_terminal_action_state q.snapshot.state ≡ true)
run_events-ended_example =
    run_events-ended example_host ended_system "action-1" (record_in ended_system)
      (Event.cancel "action-1" ∷ []) ended_reached ended_found ended_execution

cancel-never_starts_example :
    (q : ActionRecord) × (lookup "action-1"
        (run_events example_host
          (Event.execute "action-1" (λ place. 20) ∷ [])
          (on_event example_host (Event.cancel "action-1") approved_system)).records
      ≡ some q)
    × (q.snapshot.started ≡ none)
    × ((a : ActionApproval) (d : ActionDecision) (receipt : ActionStarted)
        → ¬ (q.execution ≡ Execution.handling a d receipt))
cancel-never_starts_example =
    cancel-never_starts example_host approved_system "action-1" (record_in approved_system)
      (Event.execute "action-1" (λ place. 20) ∷ [])
      (Reachable-run_events example_host approving_events Reachable.fresh) approved_found
      approved_idle

answer_all-settles_example :
    ((answer_all example_host seven_replies waiting_world).action.execution ≡ Execution.ended)
    ⊎ ((failure : Failure) × ((answer_all example_host seven_replies waiting_world).action.execution
          ≡ Execution.rejected failure))
answer_all-settles_example =
    answer_all-settles example_host seven_replies waiting_world (λ same. cc) (omega arith)

resume_recording-cancelled_example :
    (resume_recording example_host example_approval example_decision false "receipt-1"
      (λ place. 20)
      cancelled_world).action.execution
    ≡ Execution.rejected (Failure.coded ErrorCode.invalid_transition)
resume_recording-cancelled_example =
    resume_recording-cancelled example_host example_approval example_decision false "receipt-1"
      (λ place. 20) cancelled_world refl refl

wrong_decision-NeverStarts_example :
    (q : ActionRecord) × (lookup "action-1"
        (run_events example_host
          (Event.reply "action-1" example_reply ∷ Event.reply "action-1" example_reply ∷ [])
          (on_event example_host (Event.reply "action-1" foreign_reply) deciding_system)).records
      ≡ some q)
    × NeverStarts q
wrong_decision-NeverStarts_example =
    wrong_decision-NeverStarts example_host deciding_system "action-1" (record_in deciding_system)
      example_approval foreign_decision foreign_reply
      (Event.reply "action-1" example_reply ∷ Event.reply "action-1" example_reply ∷ [])
      deciding_reached deciding_found deciding_waits refl foreign-Unfit
