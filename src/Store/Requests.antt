-- ===== src/Store/Requests.antt =====
-- The writes of internal/store as one type of requests, so that a theorem can range over any
-- sequence of them. Each is run as the caller who sends it; those without a caller in the source
-- ignore it.
use zcoms_agent.Prelude.{ℕ, Bool, Option, List, [], ◌∷◌}
use zcoms_agent.Prelude.Text.{Text}
use zcoms_agent.Store.Types.{Caller, agent, AllowEntry, Persona, Reminder}
use zcoms_agent.Store.Db.{Db, World, pure, ◌>>◌}
use zcoms_agent.Store.Settings
use zcoms_agent.Store.Allow
use zcoms_agent.Store.Personas
use zcoms_agent.Store.Workspaces
use zcoms_agent.Store.Sessions
use zcoms_agent.Store.Triage
use zcoms_agent.Store.Triage.{GroupWithSources}
use zcoms_agent.Store.Reminders

pub data Write : Type 0 where
  set_setting : Text → Text → Write
  delete_setting : Text → Write
  create_allow : AllowEntry → Write
  update_allow : ℕ → Text → Write
  delete_allow : ℕ → Write
  create_persona : Persona → Write
  update_persona : Text → Persona → Write
  delete_persona : Text → Write
  upsert_persona : Persona → Write
  update_workspace : ℕ → Option Text → Option Text → Option Bool → Option Bool → Write
  set_ignored : ℕ → Bool → Write
  upsert_discovered : Text → Text → Write
  mark_absent : List Text → Write
  set_label : ℕ → Text → Text → Text → Write
  touch_resumed : ℕ → Text → Text → Write
  save_triage_group : GroupWithSources → Write
  set_triage_group_enabled : ℕ → Bool → Write
  delete_triage_group : ℕ → Write
  mark_triage_group_ran : ℕ → Text → Write
  create_reminder : Reminder → Write
  update_reminder : Reminder → Write
  cancel_reminder : ℕ → Write
  add_reminder_event : ℕ → Text → Text → Write

unfoldable pub perform : Caller → Write → Db (Unit {0})
perform c (set_setting k v) = Settings.set_setting c k v
perform c (delete_setting k) = Settings.delete_setting c k
perform c (create_allow e) = do Allow.create_allow c e; pure tt
perform c (update_allow i r) = Allow.update_allow c i r
perform c (delete_allow i) = Allow.delete_allow c i
perform c (create_persona p) = do Personas.create_persona c p; pure tt
perform c (update_persona k p) = Personas.update_persona c k p
perform c (delete_persona k) = Personas.delete_persona c k
perform c (upsert_persona p) = Personas.upsert_persona c p
perform c (update_workspace i n r p g) = Workspaces.update_workspace c i n r p g
perform c (set_ignored i g) = Workspaces.set_ignored c i g
perform c (upsert_discovered p n) = Workspaces.upsert_discovered p n
perform c (mark_absent ps) = Workspaces.mark_absent ps
perform c (set_label w b e l) = Sessions.set_label c w b e l
perform c (touch_resumed w b e) = Sessions.touch_resumed w b e
perform c (save_triage_group g) = do Triage.save_triage_group c g; pure tt
perform c (set_triage_group_enabled i on) = Triage.set_triage_group_enabled c i on
perform c (delete_triage_group i) = Triage.delete_triage_group c i
perform c (mark_triage_group_ran i at) = Triage.mark_triage_group_ran i at
perform c (create_reminder r) = do Reminders.create_reminder r; pure tt
perform c (update_reminder r) = Reminders.update_reminder r
perform c (cancel_reminder i) = Reminders.cancel_reminder i
perform c (add_reminder_event i k d) = Reminders.add_reminder_event i k d

-- One request after another, each with its caller, whatever each returns.
unfoldable pub perform_all : List (Caller × Write) → World → World
perform_all [] w = w
perform_all ((c, r) ∷ rs) w = perform_all rs (perform c r w).1

-- The same requests, all by the agent.
abbrev pub by_agent : List Write → List (Caller × Write)
by_agent [] = []
by_agent (r ∷ rs) = (agent, r) ∷ by_agent rs
