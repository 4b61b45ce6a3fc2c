-- ===== src/Action/Runtime/Invariant/Called.antt =====
-- The calls of `ActionRuntime` keep the invariant of the record they are about
-- (packages/action-runtime/src/runtime.ts).
use qodex.Common.{
  ◌≡◌, refl, inl, inr, ℕ, Bool, true, false, Option, none, some, ok, err, List, not, if◌then◌else◌,
  ◌++◌, ◌∷◌, [],
}
use qodex.Action.Types.{ActionApproval, ActionState, ErrorCode, ActionStarted}
use qodex.Action.Transitions.{can_transition, transition_action_state}
use qodex.Action.Canonical.{ActionHost}
use qodex.Action.Validation.{Check}
use qodex.Action.Runtime.World.{Failure, Execution, World, Clock}
use qodex.Action.Runtime.Dispatching.{valid_outcome}
use qodex.Action.Runtime.Calls.{
  Reply, returns, throws, after_check, after_move, is_cancellable, cancel_action, accepted,
  answered, accept_approval, taken_at, approve_action, execute_at, execute_action, resume_at,
  resume,
}
use qodex.Action.Runtime.Invariant.{Reaches, Authorised, Phase, Sound, Evolves}
use qodex.Action.Runtime.Invariant.Idling.{
  Next, one_move, resume_refusing-Next, execute_once-Next, resume_requesting-Next,
  resume_deciding-Next,
}
use qodex.Action.Runtime.Invariant.Dispatched.{resume_recording-Next, resume_dispatching-Next}
use qodex.Action.Runtime.Invariant.Running.{
  resume_handling-Next, resume_settling-Next, resume_reporting-Next,
}
use qodex.Action.Runtime.Invariant.Leaving.{
  Leaves, approved-awaits, changed, Phase-stays, Phase-leaves, Settled-not_leaves,
}

module _ (host : ActionHost) (w : World) (sound : Sound host w.action) where
  module _ (approval : Option ActionApproval) (aborted : Bool) (approving : List ActionApproval)
      (marked : w.action.aborted ≡ true → aborted ≡ true) where
    abbrev after_call : ActionState → World
    after_call next = record w { action = changed w.action approval next aborted approving }

    still-Authorised :
        (next : ActionState) (receipt : ActionStarted)
        → w.action.snapshot.started ≡ some receipt
        → Authorised host (after_call next).action.snapshot w.action.expected_generation receipt
    still-Authorised next receipt same =
        let held = sound.authorised receipt same in
        record {
          approval = held.approval;
          decision = held.decision;
          now = held.now;
          later = held.later;
          kept = held.kept;
          approved = held.approved;
          decided = held.decided;
          bound = held.bound;
        }

    called-Evolves :
        (next : ActionState)
        → Reaches w.action.snapshot.state next
        → Evolves w.action (after_call next).action
    called-Evolves next walked = record {
      walked = walked;
      same_proposal = refl;
      still_started = λ receipt h. h;
      still_settled = λ outcome h. h;
      still_aborted = marked;
      barred = λ h idle. idle;
    }

    stays-Next : Next host w (after_call w.action.snapshot.state)
    stays-Next = record {
      sound = record {
        authorised = still-Authorised w.action.snapshot.state;
        settled = λ outcome same.
            let held = sound.settled outcome same in
            record {
              receipt = held.receipt;
              reached = held.reached;
              started = held.started;
              valid = held.valid;
            };
        phase =
            Phase-stays host w.action.snapshot w.action.expected_generation approval
              w.action.aborted aborted w.action.execution marked sound.phase;
      };
      evolved = called-Evolves w.action.snapshot.state Reaches.stay;
    }

    Leaves-Next :
        (next : ActionState)
        → Leaves w.action.snapshot.state next
        → (next ≡ ActionState.cancelled → aborted ≡ true)
        → can_transition w.action.snapshot.state next ≡ true
        → Next host w (after_call next)
    Leaves-Next next leaves cancels moves = record {
      sound = record {
        authorised = still-Authorised next;
        settled = λ outcome same. absurd (
            Settled-not_leaves host w.action.snapshot w.action.expected_generation approval
              w.action.aborted aborted next leaves cancels outcome (sound.settled outcome same));
        phase =
            Phase-leaves host w.action.snapshot w.action.expected_generation approval
              w.action.aborted aborted next leaves cancels w.action.execution sound.phase;
      };
      evolved = called-Evolves next (one_move moves);
    }

  -- a transition of a call, from what `changed` has left
  moved_call-Next :
      (approval : Option ActionApproval) (aborted : Bool) (approving : List ActionApproval)
      (next : ActionState) (allowed : Bool)
      → (w.action.aborted ≡ true → aborted ≡ true)
      → (allowed ≡ true
          → Next host w (record w { action = changed w.action approval next aborted approving }))
      → Next host w
          (after_move (if allowed then ok next else err ErrorCode.invalid_transition) (record w {
            action = changed w.action approval w.action.snapshot.state aborted approving;
          })).left
  moved_call-Next approval aborted approving next true marked moves = moves refl
  moved_call-Next approval aborted approving next false marked moves =
      stays-Next approval aborted approving marked

  cancelled-Next :
      (leaves : Bool)
      → is_cancellable w.action.snapshot.state ≡ leaves
      → Next host w
          (if leaves
            then after_move
                (transition_action_state w.action.snapshot.state ActionState.cancelled)
                (record w { action = record w.action { aborted = true } })
            else returns (record w { action = record w.action { aborted = true } })).left
  unfolding transition_action_state
  cancelled-Next true leaves =
      moved_call-Next w.action.snapshot.approval true w.action.approving ActionState.cancelled
        (can_transition w.action.snapshot.state ActionState.cancelled) (λ h. refl)
        (λ moves.
          Leaves-Next w.action.snapshot.approval true w.action.approving (λ h. refl)
            ActionState.cancelled (inl (refl, leaves)) (λ h. refl) moves)
  cancelled-Next false leaves =
      stays-Next w.action.snapshot.approval true w.action.approving (λ h. refl)

  pub cancel_action-Next : Next host w (cancel_action w).left
  unfolding cancel_action
  cancel_action-Next = cancelled-Next (is_cancellable w.action.snapshot.state) refl

  answered-Next :
      (o : Option (ActionApproval × List ActionApproval)) (hook_fails : Bool)
      → Next host w (answered o hook_fails w).left
  unfolding answered accepted transition_action_state
  answered-Next none hook_fails =
      stays-Next w.action.snapshot.approval w.action.aborted w.action.approving (λ h. h)
  answered-Next (some (approval, others)) true =
      stays-Next w.action.snapshot.approval w.action.aborted others (λ h. h)
  answered-Next (some (approval, others)) false =
      moved_call-Next (some approval) w.action.aborted others ActionState.approved
        (can_transition w.action.snapshot.state ActionState.approved) (λ h. h)
        (λ moves.
          Leaves-Next (some approval) w.action.aborted others (λ h. h) ActionState.approved
            (inr (refl, approved-awaits w.action.snapshot.state moves)) (λ h. absurd cc) moves)

  pub accept_approval-Next :
      (place : ℕ) (hook_fails : Bool) → Next host w (accept_approval place hook_fails w).left
  unfolding accept_approval
  accept_approval-Next place hook_fails =
      answered-Next (taken_at place w.action.approving) hook_fails

  checked_approval-Next :
      (approval : ActionApproval) (awaits : Bool) (check : Check)
      → Next host w
          (if not awaits
            then throws (Failure.coded ErrorCode.invalid_transition) w
            else after_check check w (
                returns (record w {
                  action = record w.action { approving = w.action.approving ++ approval ∷ [] };
                }))).left
  checked_approval-Next approval false check =
      stays-Next w.action.snapshot.approval w.action.aborted w.action.approving (λ h. h)
  checked_approval-Next approval true (err code) =
      stays-Next w.action.snapshot.approval w.action.aborted w.action.approving (λ h. h)
  checked_approval-Next approval true (ok done) =
      stays-Next w.action.snapshot.approval w.action.aborted (w.action.approving ++ approval ∷ [])
        (λ h. h)

  pub approve_action-Next :
      (approval : ActionApproval) (now : ℕ) → Next host w (approve_action host approval now w).left
  unfolding approve_action
  approve_action-Next approval now = checked_approval-Next approval _ _

  unchanged-Next : Next host w w
  unchanged-Next =
      stays-Next w.action.snapshot.approval w.action.aborted w.action.approving (λ h. h)

  execute_at-Next :
      (e : Execution) (clock : Clock)
      → Phase host w.action.snapshot w.action.expected_generation w.action.aborted e
      → Next host w (execute_at host e clock w)
  unfolding execute_at
  execute_at-Next Execution.unstarted clock idle = execute_once-Next host clock w idle
  execute_at-Next _ clock phase = unchanged-Next

  pub execute_action-Next : (clock : Clock) → Next host w (execute_action host clock w).left
  unfolding execute_action
  execute_action-Next clock = execute_at-Next w.action.execution clock sound.phase

  resume_at-Next :
      (e : Execution) (r : Reply)
      → Phase host w.action.snapshot w.action.expected_generation w.action.aborted e
      → Next host w (resume_at host e r w)
  unfolding resume_at valid_outcome
  resume_at-Next Execution.unstarted r phase = unchanged-Next
  resume_at-Next Execution.ended r phase = unchanged-Next
  resume_at-Next (Execution.rejected failure) r phase = unchanged-Next
  resume_at-Next Execution.reporting r phase = resume_reporting-Next host w sound phase
  resume_at-Next Execution.refusing r (holds, idle) =
      resume_refusing-Next host r.hook_fails r.clock w idle
  resume_at-Next (Execution.requesting a) r (holds, idle) =
      resume_requesting-Next host a r.hook_fails w holds idle
  resume_at-Next (Execution.deciding a) r (holds, idle) =
      resume_deciding-Next host a r.decision r.clock w holds idle
  resume_at-Next (Execution.recording a d) r (holds, idle, decided) =
      resume_recording-Next host a d r.hook_fails r.receipt_id r.clock w idle decided
  resume_at-Next (Execution.dispatching a d receipt) r (holds, idle, decided, later, bound) =
      resume_dispatching-Next host a d receipt r.hook_fails r.clock w later holds idle decided bound
  resume_at-Next (Execution.handling a d receipt) r (running, started, unsettled) =
      resume_handling-Next host w sound receipt running started unsettled r.handler r.clock
  resume_at-Next (Execution.settling receipt outcome) r (running, started, unsettled, valid) =
      resume_settling-Next host w sound receipt running started unsettled outcome r.hook_fails
        r.clock valid

  pub resume-Next : (r : Reply) → Next host w (resume host r w)
  unfolding resume
  resume-Next r = resume_at-Next w.action.execution r sound.phase
