-- ===== src/Action/Examples/Runs.antt =====
-- A host, a proposal and runs on it, for the examples (packages/action-runtime/src/runtime.ts).
use qodex.Common.{
  ◌≡◌, refl, ℕ, String, true, false, Option, none, some, ok, List, [], ◌∷◌, ◌==◌, if◌then◌else◌,
  inl, eq_iff,
}
use qodex.Common.Maps.{lookup}
use qodex.Session.Json.{Number, Json, Fields}
use qodex.Action.Types.{
  ActionRisk, ActionProposalInput, ActionProposal, ActionApproval, Verdict, ActionDecision,
  ActionStarted, OutcomeStatus, ActionOutcome, ActionState,
}
use qodex.Action.Canonical.{ActionHost, utf16_length, digestable}
use qodex.Action.Validation.{create_action_proposal, is_present}
use qodex.Action.Runtime.World.{Execution, ActionRecord, World, HandlerAnswer}
use qodex.Action.Runtime.Calls.{Reply, System, Event, proposed_record, called}
use qodex.Action.Runtime.Systems.{fresh_system, Reachable, run_events, Reachable-run_events}
use qodex.Action.Runtime.Licences.Granting.{system_after}
use qodex.Action.Runtime.Licences.Refusals.{Unfit}
use qodex.Common.Text.{is_blank, is_sha256}
use qodex.Action.Runtime.Evaluating.{execute_approved, start_evaluation, decided}
use qodex.Action.Runtime.Dispatching.{
  start_dispatch, await_dispatch, await_settlement, valid_outcome, conclude, with_outcome,
}

-- two minutes that the example host tells apart
pub example_time : String → Option ℕ
example_time text =
    if text == "2026-01-01T10:00:00Z"
    then some 10
    else if text == "2026-01-01T11:00:00Z"
    then some 20
    else if text == "2026-01-01T12:00:00Z"
    then some 30
    else none

abbrev pub example_host : ActionHost
example_host = record {
  parse_date = example_time;
  iso_text = λ time. "2026-01-01T11:00:00Z";
  quote = λ text. text;
  number_text = λ n. "0";
  precedes = λ a b. false;
  byte_length = utf16_length;
  sha256_hex = λ text. "0123456789abcdef0123456789abcdef0123456789abcdef0123456789abcdef";
  evidence_size_limit = Number.natural 65536;
}

abbrev pub example_input : ActionProposalInput
example_input = record {
  action_id = "action-1";
  task_id = "task-1";
  session_id = none;
  action_type = "files.write";
  title = "Write";
  summary = "Writes a file";
  risk = ActionRisk.write;
  parameters = Json.obj (Fields.field "path" (Json.str "a.txt") Fields.end);
  requested_at = "2026-01-01T10:00:00Z";
}

abbrev pub example_proposal : ActionProposal
example_proposal = record {
  schema_version = "kerniq.action.v1";
  content = example_input;
  proposal_digest = "sha256:0123456789abcdef0123456789abcdef0123456789abcdef0123456789abcdef";
}

pub proposal_made : create_action_proposal example_host example_input ≡ ok example_proposal
unfolding create_action_proposal example_time is_blank digestable
proposal_made = refl

abbrev pub example_approval : ActionApproval
example_approval = record {
  approval_id = "approval-1";
  action_id = "action-1";
  task_id = "task-1";
  proposal_digest = "sha256:0123456789abcdef0123456789abcdef0123456789abcdef0123456789abcdef";
  generation = Number.natural 1;
  approved_at = "2026-01-01T10:00:00Z";
  expires_at = "2026-01-01T12:00:00Z";
}

abbrev pub example_decision : ActionDecision
example_decision = record {
  decision_id = "decision-1";
  action_id = "action-1";
  decision = Verdict.allow;
  reason_code = "allowed";
  summary = "Allowed";
  policy_version = "1";
  evidence = Json.null;
  decided_at = "2026-01-01T11:00:00Z";
}

abbrev pub example_reply : Reply
example_reply = record {
  hook_fails = false;
  decision = some example_decision;
  handler = HandlerAnswer.returned none;
  receipt_id = "receipt-1";
  clock = λ place. 20;
}

-- an action that is proposed, approved and evaluated until its handler runs
abbrev pub approving_events : List Event
approving_events =
    Event.register "files.write"
    ∷ Event.call_propose example_proposal
    ∷ Event.call_approve example_approval 20
    ∷ Event.accept "action-1" 0 false
    ∷ []

abbrev pub running_events : List Event
running_events =
    Event.register "files.write"
    ∷ Event.call_propose example_proposal
    ∷ Event.call_approve example_approval 20
    ∷ Event.accept "action-1" 0 false
    ∷ Event.execute "action-1" (λ place. 20)
    ∷ Event.reply "action-1" example_reply
    ∷ Event.reply "action-1" example_reply
    ∷ Event.reply "action-1" example_reply
    ∷ Event.reply "action-1" example_reply
    ∷ []

pub blank_record : ActionRecord
blank_record = proposed_record example_proposal ActionState.proposed

pub record_or_blank : Option ActionRecord → ActionRecord
record_or_blank none = blank_record
record_or_blank (some r) = r

pub record_in : System → ActionRecord
record_in s = record_or_blank (lookup "action-1" s.records)

pub is_present-record :
    (o : Option ActionRecord) → is_present o ≡ true → o ≡ some (record_or_blank o)
unfolding record_or_blank
is_present-record none h = cc
is_present-record (some r) h = refl

abbrev pub running_system : System
running_system = run_events example_host running_events fresh_system

pub running_known : is_present (lookup "action-1" running_system.records) ≡ true
unfolding run_events called is_blank is_sha256 example_time digestable execute_approved
    start_evaluation decided start_dispatch await_dispatch await_settlement valid_outcome conclude
    with_outcome
running_known = refl

pub running_found : lookup "action-1" running_system.records ≡ some (record_in running_system)
unfolding record_in
running_found = is_present-record (lookup "action-1" running_system.records) running_known

pub running_reached : Reachable example_host running_system
running_reached = Reachable-run_events example_host running_events Reachable.fresh

abbrev pub example_receipt : ActionStarted
example_receipt = record {
  action_id = "action-1";
  approval_id = "approval-1";
  decision_id = "decision-1";
  execution_receipt_id = "receipt-1";
  started_at = "2026-01-01T11:00:00Z";
}

pub running_started : (record_in running_system).snapshot.started ≡ some example_receipt
unfolding run_events record_in record_or_blank called is_blank is_sha256 example_time digestable
    execute_approved start_evaluation decided start_dispatch await_dispatch await_settlement
    valid_outcome conclude with_outcome
running_started = refl

abbrev pub ended_system : System
ended_system =
    run_events example_host
      (Event.reply "action-1" example_reply ∷ Event.reply "action-1" example_reply ∷ [])
      running_system

pub ended_known : is_present (lookup "action-1" ended_system.records) ≡ true
unfolding run_events called is_blank is_sha256 example_time digestable execute_approved
    start_evaluation decided start_dispatch await_dispatch await_settlement valid_outcome conclude
    with_outcome
ended_known = refl

pub ended_found : lookup "action-1" ended_system.records ≡ some (record_in ended_system)
unfolding record_in
ended_found = is_present-record (lookup "action-1" ended_system.records) ended_known

pub ended_reached : Reachable example_host ended_system
ended_reached =
    Reachable-run_events example_host
      (Event.reply "action-1" example_reply ∷ Event.reply "action-1" example_reply ∷ [])
      running_reached

abbrev pub example_outcome : ActionOutcome
example_outcome = record {
  action_id = "action-1";
  execution_receipt_id = "receipt-1";
  status = OutcomeStatus.completed;
  result = none;
  error = none;
  settled_at = "2026-01-01T11:00:00Z";
}

pub ended_outcome : (record_in ended_system).snapshot.outcome ≡ some example_outcome
unfolding run_events record_in record_or_blank called is_blank is_sha256 example_time digestable
    execute_approved start_evaluation decided start_dispatch await_dispatch await_settlement
    valid_outcome conclude with_outcome
ended_outcome = refl

pub ended_execution : (record_in ended_system).execution ≡ Execution.ended
unfolding run_events record_in record_or_blank called is_blank is_sha256 example_time digestable
    execute_approved start_evaluation decided start_dispatch await_dispatch await_settlement
    valid_outcome conclude with_outcome
ended_execution = refl

abbrev pub approved_system : System
approved_system = run_events example_host approving_events fresh_system

pub approved_known : is_present (lookup "action-1" approved_system.records) ≡ true
unfolding run_events called is_blank is_sha256 example_time digestable execute_approved
    start_evaluation decided start_dispatch await_dispatch await_settlement valid_outcome conclude
    with_outcome
approved_known = refl

pub approved_found : lookup "action-1" approved_system.records ≡ some (record_in approved_system)
unfolding record_in
approved_found = is_present-record (lookup "action-1" approved_system.records) approved_known

pub approved_idle : (record_in approved_system).snapshot.started ≡ none
unfolding run_events record_in record_or_blank called is_blank is_sha256 example_time digestable
    execute_approved start_evaluation decided start_dispatch await_dispatch await_settlement
    valid_outcome conclude with_outcome
approved_idle = refl

abbrev pub waiting_world : World
waiting_world = record {
  action = record (record_in approved_system) { execution = Execution.requesting example_approval };
  shared = approved_system.shared;
}

abbrev pub seven_replies : List Reply
seven_replies =
    example_reply ∷ example_reply ∷ example_reply ∷ example_reply ∷ example_reply ∷ example_reply
    ∷ example_reply ∷ []

abbrev pub cancelled_world : World
cancelled_world = record waiting_world {
  action = record waiting_world.action {
    aborted = true;
    snapshot = record waiting_world.action.snapshot { state = ActionState.cancelled };
  };
}

abbrev pub foreign_decision : ActionDecision
foreign_decision = record example_decision { action_id = "action-2" }

abbrev pub foreign_reply : Reply
foreign_reply = record example_reply { decision = some foreign_decision }

-- an action that is evaluated until the decision provider is called
abbrev deciding_events : List Event
deciding_events =
    Event.register "files.write"
    ∷ Event.call_propose example_proposal
    ∷ Event.call_approve example_approval 20
    ∷ Event.accept "action-1" 0 false
    ∷ Event.execute "action-1" (λ place. 20)
    ∷ Event.reply "action-1" example_reply
    ∷ []

abbrev pub deciding_system : System
deciding_system = run_events example_host deciding_events fresh_system

deciding_known : is_present (lookup "action-1" deciding_system.records) ≡ true
unfolding run_events called is_blank is_sha256 example_time digestable execute_approved
    start_evaluation
deciding_known = refl

pub deciding_found : lookup "action-1" deciding_system.records ≡ some (record_in deciding_system)
unfolding record_in
deciding_found = is_present-record (lookup "action-1" deciding_system.records) deciding_known

pub deciding_waits : (record_in deciding_system).execution ≡ Execution.deciding example_approval
unfolding run_events record_in record_or_blank called is_blank is_sha256 example_time digestable
    execute_approved start_evaluation
deciding_waits = refl

pub deciding_reached : Reachable example_host deciding_system
deciding_reached = Reachable-run_events example_host deciding_events Reachable.fresh

pub foreign-Unfit : Unfit deciding_system (record_in deciding_system) foreign_decision
unfolding run_events record_in record_or_blank called is_blank is_sha256 example_time digestable
    execute_approved start_evaluation
foreign-Unfit = inl (λ h. let clash = (eq_iff "action-2" "action-1").1 h in cc)

-- the events of `running_events`, the last one first
abbrev pub running_past : List Event
running_past =
    Event.reply "action-1" example_reply
    ∷ Event.reply "action-1" example_reply
    ∷ Event.reply "action-1" example_reply
    ∷ Event.reply "action-1" example_reply
    ∷ Event.execute "action-1" (λ place. 20)
    ∷ Event.accept "action-1" 0 false
    ∷ Event.call_approve example_approval 20
    ∷ Event.call_propose example_proposal
    ∷ Event.register "files.write"
    ∷ []

pub running_past-same : system_after example_host running_past ≡ running_system
unfolding system_after run_events
running_past-same = refl
