-- ===== src/Session/Projector/Backed.antt =====
-- Ledger entries that back what a pending action records
-- (packages/session-runtime/src/projector.ts).
use qodex.Common.{◌≡◌, Bool, true, false, ◌⊎◌, Option, none, some, List, Any}
use qodex.Session.Entries.{
  EventType, Entry, Kind, Decision, action_id_of, approval_id_of, approval_generation_of,
  execution_receipt_id_of, metadata_text, decision_of,
}
use qodex.Session.Projector.State.{PendingAction}

abbrev pub is_approval : EventType → Bool
is_approval EventType.action_approved = true
is_approval EventType.patch_approved = true
is_approval EventType.command_approved = true
is_approval _ = false

abbrev pub is_decision : EventType → Bool
is_decision EventType.action_decided = true
is_decision _ = false

abbrev pub is_start : EventType → Bool
is_start EventType.action_started = true
is_start EventType.patch_started = true
is_start EventType.command_started = true
is_start _ = false

abbrev pub is_settlement : EventType → Bool
is_settlement EventType.action_completed = true
is_settlement EventType.patch_applied = true
is_settlement EventType.command_completed = true
is_settlement EventType.action_failed = true
is_settlement _ = false

-- an entry that approves the action `p`, under the approval and the generation that it holds
abbrev pub Approves : PendingAction → Entry → Type 0
Approves p e =
    (is_approval e.type ≡ true)
    × (action_id_of e ≡ some p.action_id)
    × (approval_id_of e ≡ p.approval_id)
    × (approval_generation_of e ≡ some p.approval_generation)

-- an entry that allows the action `p`, by the decision that it holds
abbrev pub Allows : PendingAction → Entry → Type 0
Allows p e =
    (is_decision e.type ≡ true)
    × (action_id_of e ≡ some p.action_id)
    × (decision_of e ≡ some Decision.allow)
    × (metadata_text "decisionId" e ≡ p.decision_id)

-- an entry that starts the action `p`, under the receipt that it holds
abbrev pub Starts : PendingAction → Entry → Type 0
Starts p e =
    (is_start e.type ≡ true)
    × (action_id_of e ≡ some p.action_id)
    × (execution_receipt_id_of e ≡ p.execution_receipt_id)

pub record IsBacked (past : List Entry) (p : PendingAction) : Type 0 where
  pub unsettled : p.settled ≡ false
  pub approval : p.approved ≡ true → Any (Approves p) past
  pub decision : p.decision_recorded ≡ true → Any (Allows p) past
  pub begun : p.started ≡ true → Any (Starts p) past
  pub permitted : p.started ≡ true → (p.kind ≡ Kind.patch) ⊎ (p.decision_recorded ≡ true)

abbrev pub Backed : List Entry → Option PendingAction → Type 0
Backed past none = Unit
Backed past (some p) = IsBacked past p
