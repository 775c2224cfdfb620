-- ===== src/Store/Sessions.antt =====
-- internal/store/sessions.go: labels and stamps on sessions that the backend owns.
use zcoms_agent.Prelude.{ℕ, Bool, List, ◌&&◌, ◌==◌, if◌then◌else◌}
use zcoms_agent.Prelude.Text.{Text, codes, text_eq}
use zcoms_agent.Store.Types.{Caller, foreign_key, Session, Database, Result, ok, err}
use zcoms_agent.Store.Db.{Db, query, now, statement, ◌>>=◌, ◌>>◌}
use zcoms_agent.Store.Rows.{select, exists, update, insert, next_id}
use zcoms_agent.Store.Checks.{validate_backend}
use zcoms_agent.Store.Workspaces.{has_id}

-- The key of ON CONFLICT(backend, external_id).
abbrev pub is_session : Text → Text → Session → Bool
is_session backend external_id s = text_eq s.backend backend && text_eq s.external_id external_id

unfoldable pub list_session_decorations : ℕ → Db (List Session)
list_session_decorations w = query (λ db. select (λ s. s.workspace_id == w) db.sessions)

-- An upsert on the key: `change` for the row that is there, else `new` with its fresh id, whose
-- workspace the foreign key wants.
unfoldable pub upsert_session :
    Session → (Session → Session) → Database → Result (Unit {0}) × Database
upsert_session new change db =
    if exists (is_session new.backend new.external_id) db.sessions
    then (
      ok tt,
      record db { sessions = update (is_session new.backend new.external_id) change db.sessions },
    )
    else if exists (has_id new.workspace_id) db.workspaces
    then (
      ok tt,
      record db {
        sessions = insert (record new { id = next_id (λ r. r.id) db.sessions }) db.sessions;
      },
    )
    else (err foreign_key, db)

unfoldable pub set_label : Caller → ℕ → Text → Text → Text → Db (Unit {0})
set_label c w backend external_id label = do
  validate_backend backend
  at ← now
  statement (
      upsert_session
        (record {
          id = 0;
          workspace_id = w;
          backend = backend;
          external_id = external_id;
          label = label;
          last_resumed_at = at;
        })
        (λ s. record s { label = label; last_resumed_at = at }))

unfoldable pub touch_resumed : ℕ → Text → Text → Db (Unit {0})
touch_resumed w backend external_id = do
  validate_backend backend
  at ← now
  statement (
      upsert_session
        (record {
          id = 0;
          workspace_id = w;
          backend = backend;
          external_id = external_id;
          label = codes "";
          last_resumed_at = at;
        })
        (λ s. record s { last_resumed_at = at }))
