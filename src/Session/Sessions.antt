-- ===== src/Session/Sessions.antt =====
-- `listSessions` and `recoverIncompleteSessions` of packages/session-runtime/src/runtime.ts. The
-- list of sessions that the store answers, in the host's order, is an argument; so are the
-- identifier and the time that a session's recovery draws.
pub mod Recovering
use qodex.Common.{String, Option, none, some, List, [], ◌∷◌, Result, ok, err, ◌>>=◌}
use qodex.Session.Projector.Fold.{ProjectedSessionState}
use qodex.Session.Validation.{SessionRecord, SessionError}
use qodex.Session.Store.{Store}
use qodex.Session.Export.{display_name_of}
use qodex.Session.Runtime.{Host, project_current_state}
use qodex.Session.Recovery.{recover_session}

record SessionSummary : Type 0 where
  pub projection : ProjectedSessionState
  pub id : String
  pub title : String
  pub project_binding_id : Option String
  pub project_display_name : Option String
  pub provider_id : Option String
  pub model_id : Option String

module _ (host : Host) where
  unfoldable session_summary : Store → SessionRecord → Result SessionError SessionSummary
  session_summary st s = do
    projection ← project_current_state host s.id st
    ok (record {
      projection = projection;
      id = s.id;
      title = s.title;
      project_binding_id = s.project_binding_id;
      project_display_name = display_name_of s st;
      provider_id = s.provider_id;
      model_id = s.model_id;
    })

  unfoldable list_sessions : List SessionRecord → Store → Result SessionError (List SessionSummary)
  list_sessions [] st = ok []
  list_sessions (s ∷ rest) st = do
    summary ← session_summary st s
    summaries ← list_sessions rest st
    ok (summary ∷ summaries)

  unfoldable pub recover_incomplete_sessions :
      (random_id now : String → String) → List SessionRecord → Store → Result SessionError Store
  recover_incomplete_sessions random_id now [] st = ok st
  recover_incomplete_sessions random_id now (s ∷ rest) st = do
    (st', z) ← recover_session host s.id (random_id s.id) (now s.id) st
    recover_incomplete_sessions random_id now rest st'
