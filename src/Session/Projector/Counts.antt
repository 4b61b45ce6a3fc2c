-- ===== src/Session/Projector/Counts.antt =====
-- The counters of a projection (packages/session-runtime/src/projector.ts).
use qodex.Common.{
  ◌≡◌, String, ℕ, ◌+◌, Bool, true, false, Option, none, List, [], ◌∷◌, ok, >>=-eq-ok, arith,
  count_if, some,
}
use qodex.Session.Entries.{EventType, Entry, Kind, SessionStatus}
use qodex.Session.Projector.State.{State, initial}
use qodex.Session.Projector.Fold.{ProjectedSessionState, dispatch, step, run, project, projected}
use qodex.Session.Projector.Runs.{enter, step_inv, project_inv}
use qodex.Session.Projector.Frame.{
  propose-SameCounts, approve-SameCounts, start-SameCounts, decide-SameCounts, deny-SameCounts,
  complete-SameCounts, complete_command-SameCounts, fail-SameCounts, close-SameCounts,
  require_recovery-SameCounts, finish_recovery-SameCounts, interrupt-SameCounts,
}

abbrev pub is_message : EventType → Bool
is_message EventType.user_message = true
is_message EventType.model_message = true
is_message _ = false

abbrev pub is_tool_request : EventType → Bool
is_tool_request EventType.tool_requested = true
is_tool_request _ = false

abbrev pub is_patch : EventType → Bool
is_patch EventType.patch_proposed = true
is_patch _ = false

abbrev pub is_command : EventType → Bool
is_command EventType.command_proposed = true
is_command _ = false

abbrev pub is_artifact : EventType → Bool
is_artifact EventType.artifact_created = true
is_artifact _ = false

abbrev one : Bool → ℕ
one true = 1
one false = 0

record IsCounted (k : EventType) (s t : State) : Type 0 where
  seen : t.seen ≡ s.seen
  messages : t.message_count ≡ s.message_count + one (is_message k)
  tool_calls : t.tool_call_count ≡ s.tool_call_count + one (is_tool_request k)
  patches : t.patch_count ≡ s.patch_count + one (is_patch k)
  commands : t.command_count ≡ s.command_count + one (is_command k)
  artifacts : t.artifact_count ≡ s.artifact_count + one (is_artifact k)

-- One entry counts under its type, and under no other.
dispatch-IsCounted :
    (pd : String → Bool) (k : EventType) (e : Entry) (s t : State)
    → dispatch pd k e s ≡ ok t
    → IsCounted k s t
unfolding dispatch
dispatch-IsCounted pd EventType.action_proposed e s t h =
    ground (arith, propose-SameCounts e _ t Kind.action h)
dispatch-IsCounted pd EventType.patch_proposed e s t h =
    ground (arith, propose-SameCounts e _ t Kind.patch h)
dispatch-IsCounted pd EventType.command_proposed e s t h =
    ground (arith, propose-SameCounts e _ t Kind.command h)
dispatch-IsCounted pd EventType.action_approved e s t h = ground (arith, approve-SameCounts e s t h)
dispatch-IsCounted pd EventType.patch_approved e s t h = ground (arith, approve-SameCounts e s t h)
dispatch-IsCounted pd EventType.command_approved e s t h =
    ground (arith, approve-SameCounts e s t h)
dispatch-IsCounted pd EventType.action_decided e s t h =
    ground (arith, decide-SameCounts e s t pd h)
dispatch-IsCounted pd EventType.action_denied e s t h = ground (arith, deny-SameCounts e s t h)
dispatch-IsCounted pd EventType.patch_rejected e s t h = ground (arith, deny-SameCounts e s t h)
dispatch-IsCounted pd EventType.command_denied e s t h = ground (arith, deny-SameCounts e s t h)
dispatch-IsCounted pd EventType.action_started e s t h = ground (arith, start-SameCounts e s t h)
dispatch-IsCounted pd EventType.patch_started e s t h = ground (arith, start-SameCounts e s t h)
dispatch-IsCounted pd EventType.command_started e s t h = ground (arith, start-SameCounts e s t h)
dispatch-IsCounted pd EventType.action_completed e s t h =
    ground (arith, complete-SameCounts e s t h)
dispatch-IsCounted pd EventType.patch_applied e s t h = ground (arith, complete-SameCounts e s t h)
dispatch-IsCounted pd EventType.command_completed e s t h =
    ground (arith, complete_command-SameCounts e s t h)
dispatch-IsCounted pd EventType.action_failed e s t h = ground (arith, fail-SameCounts e s t h)
dispatch-IsCounted pd EventType.recovery_required e s t h =
    ground (arith, require_recovery-SameCounts e s t h)
dispatch-IsCounted pd EventType.recovery_completed e s t h =
    ground (arith, finish_recovery-SameCounts e s t h)
dispatch-IsCounted pd EventType.session_interrupted e s t h =
    ground (arith, interrupt-SameCounts e s t h)
dispatch-IsCounted pd EventType.session_completed e s t h =
    ground (arith, close-SameCounts e s t SessionStatus.completed h)
dispatch-IsCounted pd EventType.delivery_completed e s t h =
    ground (arith, close-SameCounts e s t SessionStatus.completed h)
dispatch-IsCounted pd EventType.session_failed e s t h =
    ground (arith, close-SameCounts e s t SessionStatus.failed h)
dispatch-IsCounted pd EventType.session_cancelled e s t h =
    ground (arith, close-SameCounts e s t SessionStatus.cancelled h)
dispatch-IsCounted pd EventType.session_limit_reached e s t h =
    ground (arith, close-SameCounts e s t SessionStatus.limit_reached h)
dispatch-IsCounted pd _ e s t h = ground arith

-- The identifiers that were seen are those that the loop adds, whatever the case.
pub dispatch-seen :
    (pd : String → Bool) (k : EventType) (e : Entry) (s t : State)
    → dispatch pd k e s ≡ ok t
    → t.seen ≡ s.seen
dispatch-seen pd k e s t h = (dispatch-IsCounted pd k e s t h).seen

abbrev pub count_of : (EventType → Bool) → List Entry → ℕ
count_of test = count_if (λ e. test e.type)

count_of-cons :
    (test : EventType → Bool) (e : Entry) (es : List Entry)
    → count_of test (e ∷ es) ≡ one (test e.type) + count_of test es
count_of-cons test e es = ground arith

record IsCountedRun (es : List Entry) (s t : State) : Type 0 where
  messages : t.message_count ≡ s.message_count + count_of is_message es
  tool_calls : t.tool_call_count ≡ s.tool_call_count + count_of is_tool_request es
  patches : t.patch_count ≡ s.patch_count + count_of is_patch es
  commands : t.command_count ≡ s.command_count + count_of is_command es
  artifacts : t.artifact_count ≡ s.artifact_count + count_of is_artifact es

run-IsCounted :
    (pd : String → Bool) (previous : Option Entry) (es : List Entry) (s t : State)
    → run pd previous es s ≡ ok t
    → IsCountedRun es s t
unfolding run
run-IsCounted pd previous [] s t h = ground arith
run-IsCounted pd previous (e ∷ es) s t h =
    let (u, taken, rest) = >>=-eq-ok (step pd previous e s) _ h in
    let (_, _, _, moved) = step_inv pd previous e s u taken in
    let c = dispatch-IsCounted pd e.type e (enter e s) u moved in
    let r = run-IsCounted pd (some e) es u t rest in
    omega (
      arith,
      c,
      r,
      count_of-cons is_message e es,
      count_of-cons is_tool_request e es,
      count_of-cons is_patch e es,
      count_of-cons is_command e es,
      count_of-cons is_artifact e es,
    )

-- The counters of a projected ledger are the numbers of its messages, tool requests, proposed
-- patches, proposed commands and artifacts.
pub project-counts :
    (pd : String → Bool) (es : List Entry) (z : ProjectedSessionState)
    → project pd es ≡ ok z
    → (z.message_count ≡ count_of is_message es)
      × (z.tool_call_count ≡ count_of is_tool_request es)
      × (z.patch_count ≡ count_of is_patch es)
      × (z.command_count ≡ count_of is_command es)
      × (z.artifact_count ≡ count_of is_artifact es)
unfolding projected
project-counts pd es z h =
    let (first, rest, s, _, _, ran, out) = project_inv pd es z h in
    let c = run-IsCounted pd none es initial s ran in rw out (ground (arith, c))
