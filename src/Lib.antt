-- ===== src/Lib.antt =====
-- KerniQ (Qodex): verification of the session ledger, the action runtime and the control plane.
--
-- The program is a TypeScript monorepo. Its packages append every event of an agent's work to a
-- session ledger, and rebuild the state of a session from the ledger alone. This library models
-- packages/session-runtime, packages/action-runtime and the control plane's evidence and
-- supervisor in packages/multi-agent-runtime.
--
-- How the parts interact: `SessionRuntime` (Session/Runtime.antt) makes sessions and appends
-- entries. For an append it walks the active path (Session/Path.antt), sanitises the input
-- (Session/Sanitize.antt, Session/Sensitive.antt), validates the entry (Session/Validation.antt),
-- projects the path that the append would make (Session/Projector.antt) and hands the entry and
-- the new status to the store (Session/Store.antt). Recovery (Session/Recovery.antt) looks for
-- work that a crash cut off and appends what settles it; Session/Export.antt makes the redacted
-- export, Session/Sessions.antt the operations on all sessions.
--
-- `ActionRuntime` (Action/Runtime.antt) takes a proposed action through approval, evaluation and
-- dispatch to its settlement; its validators are Action/Validation.antt. Its hooks are where a
-- caller records evidence. The supervisor (ControlPlane/Supervisor.antt) admits two backends, runs
-- a worker on each and compares what they found.
--
-- Files and code:
--   Common.antt and Common/: Booleans, lists, results, tables and tests on text.
--   Session/Json.antt, Session/Entries.antt: SafeJson, SafeMetadata, SessionEntry
--     (packages/session-runtime/src/types.ts) and the readers at the end of src/projector.ts.
--   Session/Projector/State, Checks, Steps, Fold: SessionProjector.project (src/projector.ts); one
--     function for each group of cases of its switch, `step` for a round of its loop.
--   Session/Projector/: the other files hold the proofs on projections.
--   Session/Validation.antt, Session/Sanitize.antt: src/validation.ts.
--   Session/Sensitive.antt: src/sensitive-text.ts.
--   Session/Store.antt: InMemorySessionStore (src/in-memory-store.ts), a record of three tables.
--   Session/Path.antt: buildActivePath (src/runtime.ts).
--   Session/Runtime.antt, Session/Sessions.antt: SessionRuntime (src/runtime.ts).
--   Session/Recovery.antt, Session/Recovery/Search.antt: SessionRecoveryService (src/recovery.ts).
--   Session/Export.antt: SessionExportService (src/export.ts).
--   ControlPlane/Governance.antt: packages/multi-agent-runtime/src/control-plane/governance.ts.
--   Action/Types, Transitions, Canonical, Validation: packages/action-runtime/src/types.ts,
--     src/errors.ts, src/state-machine.ts and src/validation.ts.
--   Action/Runtime/World, Evaluating, Dispatching: executeOnce (src/runtime.ts), cut at its awaits;
--     Action/Runtime/Calls: the public methods, ActionHandlerRegistry and the events of a run.
--   Action/Runtime/Invariant, Systems, Promises, Awaits, Replies, Failing, Licences: the proofs on
--     runs.
--   ControlPlane/Supervisor/: src/control-plane/supervisor.ts and src/control-plane/types.ts of
--     packages/multi-agent-runtime; Admission, Workers, Findings, Matching and Reconciliation are
--     the code, Promises, Bounds, Tables and Agreement the proofs.
--   Session/Examples, Action/Examples, ControlPlane/Supervisor/Examples and
--     ControlPlane/Governance/Examples: example data.
--
-- State and errors: a store is passed on from one call to the next, an exception is a value with
-- one constructor for each `throw`. An `await` in these packages waits only for the store, so a
-- call of the session runtime is one step; calls that overlap are not modelled. In the action
-- runtime an execution waits for hooks, the decision provider and the handler: there a step goes
-- from one await to the next, and calls, answers and other actions come in between in any order. A
-- hook or a handler is what it answers; it does not call the runtime while it is called.
--
-- Bounds: the numbers of the ledger are natural numbers; JavaScript counts exactly up to 2^53,
-- more entries than a ledger has. The only fuel is that of the walk to the root, one round for
-- each entry and one more, which is enough since the walk stops at an entry that it has seen.
--
-- Parameters: the regular expressions of src/sensitive-text.ts, `Date.parse`, the names that every
-- object inherits, the clock and the random identifiers. `ActionHost` has what the host computes
-- for actions: dates, quoting, the order of a locale, the bytes of a text and SHA-256;
-- `FindingHost` has lower case, the order of sort and toFixed. A similarity is the fraction itself.
--
-- Not modelled: the recorder's queue, the SQLite store of the desktop application, the order in
-- which the store lists sessions, the control plane's product runtime, and the other packages.
pub mod Common
pub mod Session
pub mod ControlPlane
pub mod Action
