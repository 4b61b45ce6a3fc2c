-- ===== src/Action/Runtime/World.antt =====
-- `ActionRecord`, what the actions share, and the place where an execution waits
-- (packages/action-runtime/src/runtime.ts).
use Prim.Native.String.{◌++◌ as ◌+++◌}
use qodex.Common.{ℕ, String, Bool, Option, some, List, ◌∷◌, Result, ok, err}
use qodex.Common.Maps.{Table}
use qodex.Session.Json.{Number, Json, Fields}
use qodex.Action.Types.{
  ActionProposal, ActionApproval, ActionDecision, ActionStarted, ActionOutcome, ActionState,
  ActionSnapshot, Verdict, ErrorCode,
}
use qodex.Action.Transitions.{transition_action_state}
use qodex.Action.Canonical.{ActionHost}
use qodex.Action.Validation.{Check}

-- what an execution's promise is rejected with
pub data Failure : Type 0 where
  coded : ErrorCode → Failure
  hook_failed : Failure

-- where `executeOnce` waits, with the local variables that it has there
pub data Execution : Type 0 where
  unstarted ended reporting refusing : Execution
  rejected : Failure → Execution
  requesting deciding : ActionApproval → Execution
  recording : ActionApproval → ActionDecision → Execution
  dispatching handling : ActionApproval → ActionDecision → ActionStarted → Execution
  settling : ActionStarted → ActionOutcome → Execution

-- `approving` has the approvals whose `beforeApprovalAccepted` is awaited
pub record ActionRecord : Type 0 where
  pub snapshot : ActionSnapshot
  pub expected_generation : Number
  pub aborted : Bool
  pub execution : Execution
  pub approving : List ActionApproval

-- what the actions of a runtime share; `handlers` has the registered action types
pub record Shared : Type 0 where
  pub terminal_outcomes : Table ActionOutcome
  pub decision_ids : List String
  pub execution_receipts : List String
  pub handlers : List String

pub record World : Type 0 where
  pub action : ActionRecord
  pub shared : Shared

-- the result of the `i`-th place of a segment that reads the clock
abbrev pub Clock : Type 0
Clock = ℕ → ℕ

pub data HandlerAnswer : Type 0 where
  returned : Option Json → HandlerAnswer
  threw : (is_abort_error : Bool) → HandlerAnswer

abbrev pub waiting : Execution → World → World
waiting e w = record w { action = record w.action { execution = e } }

abbrev pub reject : Failure → World → World
reject failure = waiting (Execution.rejected failure)

abbrev pub with_snapshot : (ActionSnapshot → ActionSnapshot) → World → World
with_snapshot change w = record w {
  action = record w.action { snapshot = change w.action.snapshot };
}

abbrev pub with_decision : ActionDecision → World → World
with_decision d = with_snapshot (λ s. record s { decision = some d })

abbrev pub with_decision_id : String → World → World
with_decision_id id w = record w {
  shared = record w.shared { decision_ids = id ∷ w.shared.decision_ids };
}

abbrev pub moved_to : ActionState → World → World
moved_to next = with_snapshot (λ s. record s { state = next })

-- `if` the check throws, so does the execution
abbrev pub checked : Check → World → World → World
checked (err code) w next = reject (Failure.coded code) w
checked (ok done) w next = next

abbrev pub advanced : Result ErrorCode ActionState → World → Execution → World
advanced (err code) w e = reject (Failure.coded code) w
advanced (ok next) w e = waiting e (moved_to next w)

-- `snapshot.state = transitionActionState(snapshot.state, next)`, and the execution waits in `e`
unfoldable pub advance : World → ActionState → Execution → World
unfolding transition_action_state
advance w next e = advanced (transition_action_state w.action.snapshot.state next) w e

unfoldable pub finish : World → ActionState → World
unfolding advance
finish w next = advance w next Execution.ended

unfoldable pub local_decision :
    ActionHost → ActionProposal → (reason_code : String) → (now : ℕ) → ActionDecision
local_decision host proposal reason_code now = record {
  decision_id = "local-" +++ (reason_code +++ ("-" +++ proposal.action_id));
  action_id = proposal.action_id;
  decision = Verdict.error;
  reason_code = reason_code;
  summary = "Action evaluation failed closed before dispatch.";
  policy_version = "kerniq.action-runtime.v1";
  evidence = Json.obj (
      Fields.field "source" (Json.str "action-runtime")
        (Fields.field "reasonCode" (Json.str reason_code) Fields.end));
  decided_at = host.iso_text now;
}

abbrev pub moving : Result ErrorCode ActionState → World → (World → World) → World
moving (err code) w next = reject (Failure.coded code) w
moving (ok state) w next = next (moved_to state w)
