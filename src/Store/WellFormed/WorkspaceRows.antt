-- ===== src/Store/WellFormed/WorkspaceRows.antt =====
-- Lemmas on the workspaces and the session rows for the invariant of the tables.
-- (internal/store/workspaces.go, sessions.go.)
use zcoms_agent.Prelude.{
  ℕ, Bool, true, Option, none, some, List, [], ◌∷◌, ◌≡◌, refl, inl, inr, Bool-cases,
}
use native.Mathlib.Nat.{le_refl}
use zcoms_agent.Prelude.Text.{Text, codes, text_eq}
use zcoms_agent.Store.Types.{Caller, Database, Workspace, Session}
use zcoms_agent.Store.Db.{World}
use zcoms_agent.Store.Checks.{role_ok}
use zcoms_agent.Store.Rows.{exists, find, update}
use zcoms_agent.Store.Rows.Keys.{
  Distinct-insert, Distinct-update, All-insert, All-update, All-map, next_id-is_fresh,
  exists-update, exists-insert-true, find-none_exists,
}
use zcoms_agent.Store.Workspaces
use zcoms_agent.Store.Workspaces.{
  update_workspace, upsert_discovered, upsert_seen, mark_absent, mark_gone, augmented, check_cap,
  get_workspace_by_path, discovered_row,
}
use zcoms_agent.Store.Sessions.{upsert_session, set_label, touch_resumed, is_session}
use zcoms_agent.Store.Preserves.{
  Preserves, Keeps, Preserves-then, Preserves-bind, Preserves-pure, Preserves-statement,
  Preserves-statement_at, Preserves-role_checked, Preserves-require_owner, Preserves-require_row,
  Preserves-query, Preserves-query_bind, Preserves-backend_checked, Preserves-now, Preserves-when,
  Preserves-assoc,
}
use zcoms_agent.Store.WellFormed.{
  IsWellFormed, AreWorkspaces, IsCapped, AreSessions, InWorkspace, HasBackend,
}
use zcoms_agent.Store.WellFormed.AllowRows.{keeps}

-- New workspace rows keep every id that a session may refer to.
set_workspaces :
    (db : Database) (rows : List Workspace)
    → IsWellFormed db
    → AreWorkspaces rows
    → ((i : ℕ)
        → exists (Workspaces.has_id i) db.workspaces ≡ true
        → exists (Workspaces.has_id i) rows ≡ true)
    → IsWellFormed (record db { workspaces = rows })
set_workspaces db rows h new ids = record {
  settings = h.settings;
  allowlist = h.allowlist;
  personas = h.personas;
  workspaces = new;
  sessions = record {
    ids = h.sessions.ids;
    keys = h.sessions.keys;
    workspaces = All-map (λ s. ids s.workspace_id) db.sessions h.sessions.workspaces;
    backends = h.sessions.backends;
  };
  groups = h.groups;
  sources = h.sources;
  reminders = h.reminders;
  events = h.events;
}

-- An update that leaves the id and the path, and whose cap is valid.
update_workspaces :
    (db : Database) (at : Workspace → Bool) (change : Workspace → Workspace)
    → ((w : Workspace) → (change w).id ≡ w.id)
    → ((w : Workspace) → (change w).path ≡ w.path)
    → ((w : Workspace) → IsCapped w → IsCapped (change w))
    → IsWellFormed db
    → IsWellFormed (record db { workspaces = update at change db.workspaces })
update_workspaces db at change ids paths caps h =
    set_workspaces db _ h
      (record {
        ids =
            Distinct-update _ at change (λ q r. rw (ids r)) (λ q r. rw (ids q)) db.workspaces
              h.workspaces.ids;
        paths =
            Distinct-update _ at change (λ q r. rw (paths r)) (λ q r. rw (paths q)) db.workspaces
              h.workspaces.paths;
        caps = All-update IsCapped at change caps db.workspaces h.workspaces.caps;
      })
      (λ i.
        rw (exists-update (Workspaces.has_id i) at change (λ r. rw (ids r)) db.workspaces) (λ e. e))

or_else-IsCapped :
    (n : Option Text) (r : Option Text) (p g : Option Bool)
    → ((s : Text) → r ≡ some s → role_ok s ≡ true)
    → (w : Workspace) → IsCapped w
    → IsCapped (augmented n r p g w)
or_else-IsCapped n none p g h w k = k
or_else-IsCapped n (some s) p g h w k = h s refl

updated :
    (c : Caller) (i : ℕ) (n r : Option Text) (p g : Option Bool)
    → ((s : Text) → r ≡ some s → role_ok s ≡ true)
    → (db : Database) → IsWellFormed db
    → IsWellFormed
        (record db { workspaces = update (Workspaces.has_id i) (augmented n r p g) db.workspaces })
updated c i n r p g valid db =
    update_workspaces db _ _ (λ w. refl) (λ w. refl) (or_else-IsCapped n r p g valid)

pub update_workspace-IsWellFormed :
    (c : Caller) (i : ℕ) (n r : Option Text) (p g : Option Bool)
    → Preserves (Keeps IsWellFormed) (update_workspace c i n r p g)
unfolding update_workspace
update_workspace-IsWellFormed c i n none p g = Preserves-then keeps _ _ (Preserves-pure keeps tt) (
    Preserves-when keeps _ _ (
      Preserves-bind keeps _ _ (Preserves-statement keeps _ (updated c i n none p g (λ s e. cc)))
        (λ met. Preserves-require_row keeps met _)))
update_workspace-IsWellFormed c i n (some s) p g = Preserves-assoc _ _ _ (
    Preserves-then keeps _ _ (Preserves-require_owner keeps c _) (
      Preserves-role_checked keeps _ _ (λ valid. Preserves-when keeps _ _ (
        Preserves-bind keeps _ _
          (Preserves-statement keeps _ (updated c i n (some s) p g (λ t e. cc)))
          (λ met. Preserves-require_row keeps met _)))))

no_cap-valid : role_ok (codes "") ≡ true
unfolding role_ok text_eq
no_cap-valid = refl

upsert_seen-IsWellFormed :
    (path name : Text) (o : Option Workspace) (w : World)
    → find (Workspaces.has_path path) w.db.workspaces ≡ o
    → IsWellFormed w.db
    → IsWellFormed (upsert_seen path name o w).1.db
upsert_seen-IsWellFormed path name (some v) w e =
    Preserves-statement_at keeps _ w (update_workspaces w.db _ _ (λ r. refl) (λ r. refl) (λ r k. k))
upsert_seen-IsWellFormed path name none w e = Preserves-statement_at keeps _ w (λ h.
    set_workspaces w.db _ h
      (record {
        ids =
            Distinct-insert _ w.db.workspaces _ h.workspaces.ids
              (next_id-is_fresh (λ r. r.id) w.db.workspaces _ (le_refl _));
        paths =
            Distinct-insert _ w.db.workspaces _ h.workspaces.paths
              (find-none_exists _ w.db.workspaces e);
        caps = All-insert IsCapped w.db.workspaces _ h.workspaces.caps no_cap-valid;
      })
      (λ i. exists-insert-true _ w.db.workspaces _))

pub upsert_discovered-IsWellFormed :
    (p n : Text) → Preserves (Keeps IsWellFormed) (upsert_discovered p n)
unfolding upsert_discovered get_workspace_by_path
upsert_discovered-IsWellFormed p n =
    Preserves-query_bind keeps _ _ (λ db w e. rw (← e) (upsert_seen-IsWellFormed p n _ w refl))

mark_gone-IsWellFormed : (gone : List Workspace) → Preserves (Keeps IsWellFormed) (mark_gone gone)
unfolding mark_gone
mark_gone-IsWellFormed [] = Preserves-pure keeps tt
mark_gone-IsWellFormed (w ∷ gone) =
    Preserves-then keeps _ _
      (Preserves-statement keeps _
        (λ db. update_workspaces db _ _ (λ r. refl) (λ r. refl) (λ r k. k)))
      (mark_gone-IsWellFormed gone)

pub mark_absent-IsWellFormed : (ps : List Text) → Preserves (Keeps IsWellFormed) (mark_absent ps)
unfolding mark_absent
mark_absent-IsWellFormed ps =
    Preserves-bind keeps _ _ (Preserves-query keeps _) (λ gone. mark_gone-IsWellFormed gone)

set_sessions :
    (db : Database) (rows : List Session)
    → IsWellFormed db
    → AreSessions db.workspaces rows
    → IsWellFormed (record db { sessions = rows })
set_sessions db rows h new = record {
  settings = h.settings;
  allowlist = h.allowlist;
  personas = h.personas;
  workspaces = h.workspaces;
  sessions = new;
  groups = h.groups;
  sources = h.sources;
  reminders = h.reminders;
  events = h.events;
}

upsert_session-IsWellFormed :
    (new : Session) (change : Session → Session)
    → ((s : Session) → (change s).id ≡ s.id)
    → ((s : Session) → (change s).backend ≡ s.backend)
    → ((s : Session) → (change s).external_id ≡ s.external_id)
    → ((s : Session) → (change s).workspace_id ≡ s.workspace_id)
    → HasBackend new
    → (db : Database) → IsWellFormed db
    → IsWellFormed (upsert_session new change db).1
unfolding upsert_session
upsert_session-IsWellFormed new change ids bs es ws backend db h =
    elim (Bool-cases (exists (is_session new.backend new.external_id) db.sessions)) [
      | inl there ↦ rw there (
          set_sessions db _ h (record {
            ids =
                Distinct-update _ _ change (λ q r. rw (ids r)) (λ q r. rw (ids q)) db.sessions
                  h.sessions.ids;
            keys =
                Distinct-update _ _ change (λ q r. rw (bs r, es r)) (λ q r. rw (bs q, es q))
                  db.sessions h.sessions.keys;
            workspaces =
                All-update (InWorkspace db.workspaces) _ change (λ r k. rw (ws r) k) db.sessions
                  h.sessions.workspaces;
            backends =
                All-update HasBackend _ change (λ r k. rw (bs r) k) db.sessions h.sessions.backends;
          }))
      | inr fresh ↦
          rw fresh (elim (Bool-cases (exists (Workspaces.has_id new.workspace_id) db.workspaces)) [
            | inl known ↦ rw known (
                set_sessions db _ h (record {
                  ids =
                      Distinct-insert _ db.sessions _ h.sessions.ids
                        (next_id-is_fresh (λ r. r.id) db.sessions _ (le_refl _));
                  keys = Distinct-insert _ db.sessions _ h.sessions.keys fresh;
                  workspaces =
                      All-insert (InWorkspace db.workspaces) db.sessions _ h.sessions.workspaces
                        known;
                  backends = All-insert HasBackend db.sessions _ h.sessions.backends backend;
                }))
            | inr unknown ↦ rw unknown h
          ])
    ]

pub set_label-IsWellFormed :
    (c : Caller) (w : ℕ) (b e l : Text) → Preserves (Keeps IsWellFormed) (set_label c w b e l)
unfolding set_label
set_label-IsWellFormed c w b e l = Preserves-backend_checked keeps _ _ (λ valid.
    Preserves-bind keeps _ _ (Preserves-now keeps) (λ at.
      Preserves-statement keeps _
        (upsert_session-IsWellFormed _ _ (λ s. refl) (λ s. refl) (λ s. refl) (λ s. refl) valid)))

pub touch_resumed-IsWellFormed :
    (w : ℕ) (b e : Text) → Preserves (Keeps IsWellFormed) (touch_resumed w b e)
unfolding touch_resumed
touch_resumed-IsWellFormed w b e = Preserves-backend_checked keeps _ _ (λ valid.
    Preserves-bind keeps _ _ (Preserves-now keeps) (λ at.
      Preserves-statement keeps _
        (upsert_session-IsWellFormed _ _ (λ s. refl) (λ s. refl) (λ s. refl) (λ s. refl) valid)))
