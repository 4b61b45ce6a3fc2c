-- ===== src/Session/Recovery/Observing.antt =====
-- One round of the loop of `findUnmatchedStartedAction`
-- (packages/session-runtime/src/recovery.ts), by the type of its entry.
use qodex.Common.{◌≡◌, refl, String, true, false, Option, some, [], arith}
use qodex.Common.Maps.{Table, insert, remove}
use qodex.Session.Entries.{EventType, Entry, truthy, action_id_of}
use qodex.Session.Projector.Backed.{is_start, is_settlement}
use qodex.Session.Recovery.Search.{
  Unmatched, is_started_event, is_settled_event, is_interruption, is_masking_terminal,
  observe_session, observe, map_values, interrupt_evidence,
}
use qodex.Session.Recovery.Tracking.{evidence_of}

module _ (previous : Option Entry) (e : Entry) (m : Table Unmatched) where
  pub observe-started :
      (a : String)
      → is_started_event e.type ≡ true
      → truthy (action_id_of e) ≡ some a
      → observe previous e m ≡ insert a (evidence_of a false) m
  unfolding observe
  observe-started a k named = ground (arith, k, named)

  pub observe-settled :
      (a : String)
      → is_started_event e.type ≡ false
      → is_settled_event e.type ≡ true
      → truthy (action_id_of e) ≡ some a
      → observe previous e m ≡ remove a m
  unfolding observe
  observe-settled a i k named = ground (arith, i, k, named)

  pub observe-session :
      is_started_event e.type ≡ false
      → is_settled_event e.type ≡ false
      → observe previous e m ≡ observe_session previous e m
  unfolding observe
  observe-session i k = ground (arith, i, k)

  pub observe_session-interruption :
      is_interruption e.type ≡ true → observe_session previous e m ≡ map_values interrupt_evidence m
  unfolding observe_session
  observe_session-interruption k = ground (arith, k)

  pub observe_session-other :
      is_interruption e.type ≡ false
      → is_masking_terminal e.type ≡ false
      → observe_session previous e m ≡ m
  unfolding observe_session
  observe_session-other i k = ground (arith, i, k)

pub observe-empty :
    (previous : Option Entry) (e : Entry)
    → is_started_event e.type ≡ false
    → observe previous e [] ≡ []
unfolding observe observe_session remove
observe-empty previous e k = ground (arith, k)

pub is_started_event-eq : (k : EventType) → is_started_event k ≡ is_start k
unfolding is_started_event
is_started_event-eq EventType.patch_started = refl
is_started_event-eq EventType.command_started = refl
is_started_event-eq EventType.action_started = refl
is_started_event-eq _ = refl

pub is_settled_event-eq : (k : EventType) → is_settled_event k ≡ is_settlement k
unfolding is_settled_event
is_settled_event-eq EventType.patch_applied = refl
is_settled_event-eq EventType.command_completed = refl
is_settled_event-eq EventType.action_completed = refl
is_settled_event-eq EventType.action_failed = refl
is_settled_event-eq _ = refl
