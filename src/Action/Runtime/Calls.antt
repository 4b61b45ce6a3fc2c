-- ===== src/Action/Runtime/Calls.antt =====
-- The methods of `ActionRuntime` and of `ActionHandlerRegistry` over all actions
-- (packages/action-runtime/src/runtime.ts, src/registry.ts), and the events of a run: calls, and
-- answers to what an execution awaits, in any order.
use qodex.Common.{
  ℕ, zero, suc, String, Bool, true, false, not, ◌||◌, Option, none, some, List, [], ◌∷◌, ◌++◌, any,
  has, Result, ok, err, guard, ◌>>=◌, ◌>>◌, ◌==◌, if◌then◌else◌,
}
use qodex.Common.Maps.{Table, lookup, insert}
use qodex.Session.Json.{Number}
use qodex.Action.Types.{ActionProposal, ActionApproval, ActionDecision, ActionState, ErrorCode}
use qodex.Action.Transitions.{transition_action_state, same_state}
use qodex.Action.Canonical.{ActionHost}
use qodex.Action.Validation.{validate_action_proposal, is_present}
use qodex.Action.Runtime.World.{
  Failure, Execution, ActionRecord, Shared, World, Clock, HandlerAnswer, moved_to, with_snapshot,
}
use qodex.Action.Runtime.Evaluating.{
  assert_approval_valid, resume_refusing, execute_once, resume_requesting, resume_deciding,
}
use qodex.Action.Runtime.Dispatching.{
  resume_recording, resume_dispatching, resume_handling, resume_settling, resume_reporting,
}

-- What an await is answered, with what the host gives to the code behind it. An execution reads
-- the fields of the answer it waits for.
pub record Reply : Type 0 where
  pub hook_fails : Bool
  pub decision : Option ActionDecision
  pub handler : HandlerAnswer
  pub receipt_id : String
  pub clock : Clock

pub record System : Type 0 where
  pub records : Table ActionRecord
  pub shared : Shared

pub data Event : Type 0 where
  register : (action_type : String) → Event
  call_propose : ActionProposal → Event
  call_approve : ActionApproval → (now : ℕ) → Event
  -- the hook answers for the approval at a place of `approving`
  accept : (action_id : String) (place : ℕ) (hook_fails : Bool) → Event
  execute : (action_id : String) → Clock → Event
  reply : (action_id : String) → Reply → Event
  cancel : (action_id : String) → Event

-- a call that throws leaves its caller with an error; what it changed before stays changed
pub record Call : Type 0 where
  pub thrown : Option Failure
  pub left : World

abbrev pub returns : World → Call
returns w = record { thrown = none; left = w }

abbrev pub throws : Failure → World → Call
throws failure w = record { thrown = some failure; left = w }

abbrev pub after_check : Result ErrorCode (Unit {0}) → World → Call → Call
after_check (err code) w next = throws (Failure.coded code) w
after_check (ok done) w next = next

abbrev pub after_move : Result ErrorCode ActionState → World → Call
after_move (err code) w = throws (Failure.coded code) w
after_move (ok next) w = returns (moved_to next w)

-- the states that `cancel` leaves
unfoldable pub is_cancellable : ActionState → Bool
unfolding same_state
is_cancellable state = any (same_state state) (
    ActionState.proposed ∷ ActionState.awaiting_approval ∷ ActionState.approved
    ∷ ActionState.evaluating ∷ ActionState.allowed ∷ ActionState.starting ∷ [])

unfoldable pub cancel_action : World → Call
unfolding is_cancellable transition_action_state
cancel_action w =
    let aborted = record w { action = record w.action { aborted = true } } in
    if is_cancellable w.action.snapshot.state
    then after_move (transition_action_state w.action.snapshot.state ActionState.cancelled) aborted
    else returns aborted

abbrev pub taken_at : ℕ → List ActionApproval → Option (ActionApproval × List ActionApproval)
taken_at place [] = none
taken_at zero (a ∷ rest) = some (a, rest)
taken_at (suc place) (a ∷ rest) = elim (taken_at place rest) [
  | none ↦ none
  | some (b, others) ↦ some (b, a ∷ others)
]

unfoldable pub accepted : ActionApproval → World → Call
unfolding transition_action_state
accepted approval w =
    let held = with_snapshot (λ s. record s { approval = some approval }) w in
    after_move (transition_action_state w.action.snapshot.state ActionState.approved) held

-- `approve` behind the hook
unfoldable pub answered :
    Option (ActionApproval × List ActionApproval) → (hook_fails : Bool) → World → Call
unfolding accepted
answered none hook_fails w = returns w
answered (some (approval, others)) true w =
    throws Failure.hook_failed (record w { action = record w.action { approving = others } })
answered (some (approval, others)) false w =
    accepted approval (record w { action = record w.action { approving = others } })

-- `approve` behind the hook
unfoldable pub accept_approval : (place : ℕ) → (hook_fails : Bool) → World → Call
unfolding answered
accept_approval place hook_fails w = answered (taken_at place w.action.approving) hook_fails w

abbrev pub proposed_record : ActionProposal → ActionState → ActionRecord
proposed_record proposal state = record {
  snapshot = record {
    proposal = proposal;
    state = state;
    approval = none;
    decision = none;
    started = none;
    outcome = none;
  };
  expected_generation = Number.natural 1;
  aborted = false;
  execution = Execution.unstarted;
  approving = [];
}

-- `ActionHandlerRegistry.register`
unfoldable pub register_handler : String → System → Result ErrorCode System
register_handler action_type s = do
  guard (not (action_type == "" || has action_type s.shared.handlers)) ErrorCode.unknown_action
  ok (record s { shared = record s.shared { handlers = action_type ∷ s.shared.handlers } })

unfoldable pub called :
    String → Option ActionRecord → (World → Call) → System → Option Failure × System
unfolding insert
called action_id none call s = (some (Failure.coded ErrorCode.action_not_found), s)
called action_id (some found) call s =
    let after = call (record { action = found; shared = s.shared }) in
    (
      after.thrown,
      record { records = insert action_id after.left.action s.records; shared = after.left.shared },
    )

-- `requireRecord`, and the call on what it finds
unfoldable pub on_record : String → (World → Call) → System → Option Failure × System
unfolding lookup insert
on_record action_id call s = called action_id (lookup action_id s.records) call s

abbrev pub left_by : System → Result ErrorCode System → Option Failure × System
left_by s (err code) = (some (Failure.coded code), s)
left_by s (ok t) = (none, t)

module _ (host : ActionHost) where
  -- `approve` up to the hook
  unfoldable pub approve_action : ActionApproval → (now : ℕ) → World → Call
  unfolding assert_approval_valid same_state
  approve_action approval now w =
      if not (same_state w.action.snapshot.state ActionState.awaiting_approval)
      then throws (Failure.coded ErrorCode.invalid_transition) w
      else after_check (assert_approval_valid host w.action approval now) w (
          returns (record w {
            action = record w.action { approving = w.action.approving ++ approval ∷ [] };
          }))

  unfoldable pub execute_at : Execution → Clock → World → World
  unfolding execute_once
  execute_at Execution.unstarted clock w = execute_once host clock w
  execute_at _ clock w = w

  -- `execute`: a second call waits for the first one's promise
  unfoldable pub execute_action : Clock → World → Call
  unfolding execute_at
  execute_action clock w = returns (execute_at w.action.execution clock w)

  unfoldable pub resume_at : Execution → Reply → World → World
  unfolding resume_refusing resume_requesting resume_deciding resume_recording resume_dispatching
      resume_handling resume_settling resume_reporting
  resume_at Execution.unstarted r w = w
  resume_at Execution.ended r w = w
  resume_at (Execution.rejected failure) r w = w
  resume_at Execution.reporting r w = resume_reporting w
  resume_at Execution.refusing r w = resume_refusing host r.hook_fails r.clock w
  resume_at (Execution.requesting a) r w = resume_requesting a r.hook_fails w
  resume_at (Execution.deciding a) r w = resume_deciding host a r.decision r.clock w
  resume_at (Execution.recording a d) r w =
      resume_recording host a d r.hook_fails r.receipt_id r.clock w
  resume_at (Execution.dispatching a d receipt) r w =
      resume_dispatching host a d receipt r.hook_fails r.clock w
  resume_at (Execution.handling a d receipt) r w = resume_handling host receipt r.handler r.clock w
  resume_at (Execution.settling receipt outcome) r w =
      resume_settling host receipt outcome r.hook_fails r.clock w

  -- the execution runs on to its next await
  unfoldable pub resume : Reply → World → World
  unfolding resume_at
  resume r w = resume_at w.action.execution r w

  unfoldable pub propose_action : ActionProposal → System → Result ErrorCode System
  unfolding validate_action_proposal transition_action_state lookup insert
  propose_action proposal s = do
    validate_action_proposal host proposal
    guard (not (is_present (lookup proposal.action_id s.records))) ErrorCode.duplicate_action
    state ← transition_action_state ActionState.proposed ActionState.awaiting_approval
    ok (record s { records = insert proposal.action_id (proposed_record proposal state) s.records })

  unfoldable pub attempt : Event → System → Option Failure × System
  unfolding register_handler propose_action on_record approve_action accept_approval execute_action
      resume cancel_action
  attempt (Event.register action_type) s = left_by s (register_handler action_type s)
  attempt (Event.call_propose proposal) s = left_by s (propose_action proposal s)
  attempt (Event.call_approve approval now) s =
      on_record approval.action_id (approve_action approval now) s
  attempt (Event.accept id place hook_fails) s = on_record id (accept_approval place hook_fails) s
  attempt (Event.execute id clock) s = on_record id (execute_action clock) s
  attempt (Event.reply id r) s = on_record id (λ w. returns (resume r w)) s
  attempt (Event.cancel id) s = on_record id cancel_action s

  unfoldable pub on_event : Event → System → System
  unfolding attempt
  on_event event s = (attempt event s).1
