-- ===== src/Action/Transitions.antt =====
-- packages/action-runtime/src/state-machine.ts: the states of an action and their transitions.
use qodex.Common.{Bool, true, false, List, [], ◌∷◌, any, Result, ok, err, if◌then◌else◌, ℕ, eqb}
use qodex.Action.Types.{ActionState, ErrorCode}

-- the place of a state in the union type, by which two states are compared
unfoldable state_index : ActionState → ℕ
state_index ActionState.proposed = 0
state_index ActionState.awaiting_approval = 1
state_index ActionState.approved = 2
state_index ActionState.evaluating = 3
state_index ActionState.allowed = 4
state_index ActionState.denied = 5
state_index ActionState.held = 6
state_index ActionState.decision_error = 7
state_index ActionState.starting = 8
state_index ActionState.running = 9
state_index ActionState.completed = 10
state_index ActionState.failed = 11
state_index ActionState.cancelled = 12
state_index ActionState.interrupted = 13

unfoldable pub same_state : ActionState → ActionState → Bool
unfolding state_index
same_state a b = eqb (state_index a) (state_index b)

-- `TRANSITIONS`
unfoldable pub transitions : ActionState → List ActionState
transitions ActionState.proposed = ActionState.awaiting_approval ∷ ActionState.cancelled ∷ []
transitions ActionState.awaiting_approval = ActionState.approved ∷ ActionState.cancelled ∷ []
transitions ActionState.approved = ActionState.evaluating ∷ ActionState.cancelled ∷ []
transitions ActionState.evaluating =
    ActionState.allowed ∷ ActionState.denied ∷ ActionState.held ∷ ActionState.decision_error
    ∷ ActionState.cancelled ∷ []
transitions ActionState.allowed = ActionState.starting ∷ ActionState.cancelled ∷ []
transitions ActionState.starting =
    ActionState.running ∷ ActionState.decision_error ∷ ActionState.cancelled ∷ []
transitions ActionState.running =
    ActionState.completed ∷ ActionState.failed ∷ ActionState.cancelled ∷ ActionState.interrupted
    ∷ []
transitions _ = []

unfoldable pub can_transition : ActionState → ActionState → Bool
unfolding transitions same_state
can_transition current next = any (same_state next) (transitions current)

unfoldable pub transition_action_state : ActionState → ActionState → Result ErrorCode ActionState
unfolding can_transition
transition_action_state current next =
    if can_transition current next then ok next else err ErrorCode.invalid_transition

unfoldable pub is_terminal_action_state : ActionState → Bool
unfolding transitions
is_terminal_action_state current = elim (transitions current) [ [] ↦ true | _ ↦ false ]
