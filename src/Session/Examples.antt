-- ===== src/Session/Examples.antt =====
-- Example data for packages/session-runtime: a ledger in which one action is carried out.
mod Ledgers
mod Stores
use qodex.Common.{
  ◌≡◌, refl, sym, String, Bool, true, false, Option, none, some, List, [], ◌∷◌, ◌++◌, ◌==◌, ◌≢◌, ℕ,
  Result, ok, err, inl, inr, Any, leb, arith,
}
use qodex.Common.Maps.{lookup, insert}
use qodex.Session.Json.{
  Number, Json, Fields, get, text_at, natural_at, fields_of, payload_at, payload_text,
}
use qodex.Session.Entries.{
  EventType, Entry, SessionStatus, action_id_of, metadata_text, required_metadata_text,
  approval_id_of, approval_generation_of, execution_receipt_id_of, decision_of, entry_kind,
  recovery_reason, proposal_digest_of,
}
use qodex.Common.Text.{is_blank}
use qodex.Session.Sensitive.{Rule, Patterns}
use qodex.Session.Validation.{Checks, SessionRecord}
use qodex.Session.Projector.State.{initial, is_terminal}
use qodex.Session.Projector.Checks.{
  proposed, require_no_pending, require_no_unsettled_started_action, require_pending, require_kind,
  require_approval_binding, require_started,
}
use qodex.Session.Projector.Steps.{
  approve, decide, require_decidable, decision_evidence, start, require_allow, complete, close,
}
use qodex.Session.Projector.Fold.{
  ProjectedSessionState, propose, dispatch, step, follows, run, project, projected,
}

-- metadata with all that the entries of one action say
abbrev meta : Fields
meta = Fields.field "actionId" (Json.str "a1") (
    Fields.field "taskId" (Json.str "t1") (
      Fields.field "approvalId" (Json.str "p1") (
        Fields.field "approvalGeneration" (Json.num (Number.natural 0)) (
          Fields.field "decisionId" (Json.str "d1") (
            Fields.field "decision" (Json.str "allow") (
              Fields.field "policyVersion" (Json.str "v1") (
                Fields.field "decisionSchemaVersion" (Json.str "s1") (
                  Fields.field "agentFuseCommit" (Json.str "c1")
                    (Fields.field "executionReceiptId" (Json.str "r1") Fields.end)))))))))

abbrev pub entry : String → Option String → ℕ → EventType → Entry
entry id parent sequence type = record {
  id = id;
  session_id = "s";
  parent_entry_id = parent;
  sequence = sequence;
  type = type;
  payload_version = 1;
  payload = Json.null;
  safe_metadata = meta;
  created_at = "2026-01-01";
}

abbrev pub created : Entry
created = entry "e1" none 1 EventType.session_created

abbrev proposal : Entry
proposal = entry "e2" (some "e1") 2 EventType.action_proposed

abbrev pub approval : Entry
approval = entry "e3" (some "e2") 3 EventType.action_approved

abbrev pub decision : Entry
decision = entry "e4" (some "e3") 4 EventType.action_decided

abbrev pub started : Entry
started = entry "e5" (some "e4") 5 EventType.action_started

abbrev pub completed : Entry
completed = entry "e6" (some "e5") 6 EventType.action_completed

abbrev pub message : Entry
message = entry "e7" (some "e6") 7 EventType.user_message

abbrev pub closed : Entry
closed = entry "e8" (some "e7") 8 EventType.session_completed

abbrev pub before_start : List Entry
before_start = created ∷ proposal ∷ approval ∷ decision ∷ []

abbrev pub ledger : List Entry
ledger = before_start ++ started ∷ completed ∷ message ∷ closed ∷ []

abbrev pub parses : String → Bool
parses date = true

-- the value of a run that succeeds
abbrev pub value_or {ℓ κ} : {E : Type ℓ} {A : Type κ} → A → Result E A → A
value_or d (ok a) = a
value_or d (err e) = d

abbrev pub projection : List Entry → ProjectedSessionState
projection es = value_or (projected initial created created) (project parses es)

pub ledger-projects : project parses ledger ≡ ok (projection ledger)
unfolding project run step follows dispatch propose approve decide start complete close proposed
    require_no_pending require_pending require_kind require_approval_binding require_started
    require_decidable decision_evidence require_allow require_no_unsettled_started_action
    is_terminal action_id_of metadata_text required_metadata_text approval_id_of
    approval_generation_of execution_receipt_id_of decision_of entry_kind proposal_digest_of text_at
    natural_at payload_text payload_at fields_of get is_blank projected
ledger-projects = refl
