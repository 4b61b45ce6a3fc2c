-- ===== src/Session/Projector/Evidence.antt =====
-- What stands in the ledger before an action starts and before it settles
-- (packages/session-runtime/src/projector.ts).
use mathlib.Core.List.{append-nil, append_assoc}
use qodex.Common.{
  Any-map, ok-injective, ◌≡◌, refl, sym, subst, String, Bool, true, ◌⊎◌, inl, inr, Option, none,
  some, List, [], ◌∷◌, ◌++◌, ok, Any, >>=-eq-ok, ◌∙◌, arith,
}
use qodex.Session.Entries.{
  EventType, Entry, Kind, Decision, action_id_of, approval_id_of, approval_generation_of,
  execution_receipt_id_of, metadata_text, decision_of, entry_kind,
}
use qodex.Session.Projector.State.{PendingAction, State, initial}
use qodex.Session.Projector.Checks.{require_kind, require_started}
use qodex.Session.Projector.Steps.{start}
use qodex.Session.Projector.Fold.{ProjectedSessionState, dispatch, step, run, project}
use qodex.Session.Projector.Inversion.{complete_inv, complete_command_inv, fail_inv}
use qodex.Session.Projector.Approving.{
  start_inv, require_allow-eq-ok, require_started-eq-ok, require_approval_binding-eq-ok,
}
use qodex.Session.Projector.Backing.{dispatch-Backed}
use qodex.Session.Projector.Backed.{
  is_approval, is_decision, is_start, is_settlement, Approves, Allows, Starts, IsBacked, Backed,
}
use qodex.Session.Projector.Runs.{last_or, enter, step_inv, run-split, project_inv}

-- the ledger before a start entry
pub record StartEvidence (past : List Entry) (e : Entry) : Type 0 where
  pub action : String
  pub approval : String
  pub names_action : action_id_of e ≡ some action
  pub names_approval : approval_id_of e ≡ some approval
  -- an approval of this action, under this approval id and this generation
  pub approved :
      Any
        (λ a.
          (is_approval a.type ≡ true)
          × (action_id_of a ≡ some action)
          × (approval_id_of a ≡ some approval)
          × (approval_generation_of a ≡ approval_generation_of e))
        past
  -- a patch, or an allow decision on this action that the entry names
  pub allowed :
      (e.type ≡ EventType.patch_started)
      ⊎ Any
          (λ d.
            (is_decision d.type ≡ true)
            × (action_id_of d ≡ some action)
            × (decision_of d ≡ some Decision.allow)
            × (metadata_text "decisionId" d ≡ metadata_text "decisionId" e))
          past

-- the ledger before an entry that settles a started action
pub record SettlementEvidence (past : List Entry) (e : Entry) : Type 0 where
  pub action : String
  pub receipt : String
  pub names_action : action_id_of e ≡ some action
  pub names_receipt : execution_receipt_id_of e ≡ some receipt
  pub started :
      Any
        (λ b.
          (is_start b.type ≡ true)
          × (action_id_of b ≡ some action)
          × (execution_receipt_id_of b ≡ some receipt))
        past

module _ (pd : String → Bool) where
  pub run-Backed :
      (past : List Entry) (previous : Option Entry) (es : List Entry) (s t : State)
      → Backed past s.pending_action
      → run pd previous es s ≡ ok t
      → Backed (past ++ es) t.pending_action
  unfolding run
  run-Backed past previous [] s t b h =
      rw append-nil (subst (λ (v : State). Backed past v.pending_action) (ok-injective h) b)
  run-Backed past previous (e ∷ es) s t b h =
      let (u, taken, rest) = >>=-eq-ok (step pd previous e s) _ h in
      let (_, _, _, moved) = step_inv pd previous e s u taken in
      let b' = dispatch-Backed past e pd e.type (enter e s) u refl b moved in
      let all = run-Backed (past ++ e ∷ []) (some e) es u t b' rest in
      subst (λ l. Backed l t.pending_action) (append_assoc past (e ∷ []) es) all

starts_patch :
    (p : PendingAction) (e : Entry)
    → is_start e.type ≡ true
    → require_kind p e ≡ ok tt
    → p.kind ≡ Kind.patch
    → e.type ≡ EventType.patch_started
unfolding require_kind entry_kind
starts_patch p e k h same = ground arith

-- `start` is refused unless the ledger before it holds the evidence.
start-StartEvidence :
    (past : List Entry) (e : Entry) (s u : State)
    → is_start e.type ≡ true
    → Backed past s.pending_action
    → start e s ≡ ok u
    → StartEvidence past e
start-StartEvidence past e s u k b h =
    let (p, receipt, found, mine, same_kind, approved, idle, bound, allowed, named, after) =
      start_inv e s u h in
    let (a, at, held, generation) = require_approval_binding-eq-ok p e bound in
    let backed : IsBacked past p = subst (Backed past) found b in
    record {
      action = p.action_id;
      approval = a;
      names_action = mine;
      names_approval = at;
      approved =
          Any-map (Approves p) _
            (λ x (kind, action, id, g). (kind, action, id ∙ held, g ∙ sym generation)) past
            (backed.approval approved);
      allowed = elim (require_allow-eq-ok p e allowed) [
        | inl free ↦ inl (starts_patch p e k same_kind free)
        | inr (recorded, _, d, by, held) ↦ inr (
            Any-map (Allows p) _
              (λ x (kind, action, chosen, id). (kind, action, chosen, id ∙ held ∙ sym by)) past
              (backed.decision recorded))
      ];
    }

settle-SettlementEvidence :
    (past : List Entry) (e : Entry) (p : PendingAction)
    → IsBacked past p
    → action_id_of e ≡ some p.action_id
    → require_started p e ≡ ok tt
    → SettlementEvidence past e
settle-SettlementEvidence past e p b mine h =
    let (r, started, named, held) = require_started-eq-ok p e h in
    record {
      action = p.action_id;
      receipt = r;
      names_action = mine;
      names_receipt = named;
      started =
          Any-map (Starts p) _ (λ x (kind, action, id). (kind, action, id ∙ held)) past
            (b.begun started);
    }

module _ (pd : String → Bool) (e : Entry) (s t : State) where
  pub dispatch-start :
      (k : EventType) → is_start k ≡ true → dispatch pd k e s ≡ ok t → start e s ≡ ok t
  unfolding dispatch
  dispatch-start EventType.action_started k h = h
  dispatch-start EventType.patch_started k h = h
  dispatch-start EventType.command_started k h = h
  dispatch-start _ k h = cc

  pub dispatch-settle :
      (k : EventType)
      → is_settlement k ≡ true
      → dispatch pd k e s ≡ ok t
      → (p : PendingAction) × (s.pending_action ≡ some p)
        × (action_id_of e ≡ some p.action_id)
        × (require_started p e ≡ ok tt)
        × (t.pending_action ≡ none)
  unfolding dispatch
  dispatch-settle EventType.action_completed k h = complete_inv e s t h
  dispatch-settle EventType.patch_applied k h = complete_inv e s t h
  dispatch-settle EventType.command_completed k h = complete_command_inv e s t h
  dispatch-settle EventType.action_failed k h = fail_inv e s t h
  dispatch-settle _ k h = cc

module _ (pd : String → Bool) (xs ys : List Entry) (e : Entry) (z : ProjectedSessionState) where
  -- the state in which a projected ledger takes one of its entries
  project-split :
      project pd (xs ++ e ∷ ys) ≡ ok z
      → (s u : State) × Backed xs s.pending_action × (dispatch pd e.type e (enter e s) ≡ ok u)
  project-split h =
      let (_, _, t, _, _, ran, _) = project_inv pd (xs ++ e ∷ ys) z h in
      let (s, u, before, taken, _) = run-split pd xs ys e t ran in
      let (_, _, _, moved) = step_inv pd (last_or none xs) e s u taken in
      (s, u, run-Backed pd [] none xs initial s tt before, moved)

  -- In every ledger that projects, before an entry that starts an action stands an approval of
  -- that action with the entry's approval id and generation and, unless the entry starts a patch,
  -- an allow decision on that action with the entry's decision id.
  pub project-StartEvidence :
      project pd (xs ++ e ∷ ys) ≡ ok z → is_start e.type ≡ true → StartEvidence xs e
  project-StartEvidence h k =
      let (s, u, backed, moved) = project-split h in
      start-StartEvidence xs e (enter e s) u k backed
        (dispatch-start pd e (enter e s) u e.type k moved)

  -- In every ledger that projects, before an entry that completes, applies or fails an action
  -- stands an entry that starts that action under the same execution receipt.
  pub project-SettlementEvidence :
      project pd (xs ++ e ∷ ys) ≡ ok z → is_settlement e.type ≡ true → SettlementEvidence xs e
  project-SettlementEvidence h k =
      let (s, u, backed, moved) = project-split h in
      let (p, found, mine, started, _) = dispatch-settle pd e (enter e s) u e.type k moved in
      settle-SettlementEvidence xs e p (subst (Backed xs) found backed) mine started
