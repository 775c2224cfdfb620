-- ===== src/Store/Guard/Requests.antt =====
-- The guard of internal/store over the requests of an agent, operation by operation.
use zcoms_agent.Prelude.{ℕ, Bool, Option, none, some, List, [], ◌∷◌, refl, arith}
use zcoms_agent.Prelude.Text.{Text}
use zcoms_agent.Store.Types.{agent, Database, Workspace, ok, Session, Reminder}
use zcoms_agent.Store.Db.{World, now, statement, ◌>>=◌}
use zcoms_agent.Store.Rows.{exists}
use zcoms_agent.Store.Workspaces.{
  has_id, augmented, update_workspace, set_ignored, upsert_discovered, upsert_seen, mark_absent,
  mark_gone, get_workspace_by_path,
}
use zcoms_agent.Store.Sessions
use zcoms_agent.Store.Settings
use zcoms_agent.Store.Allow
use zcoms_agent.Store.Personas
use zcoms_agent.Store.Triage
use zcoms_agent.Store.Reminders
use zcoms_agent.Store.Requests.{Write, perform, perform_all, by_agent}
use zcoms_agent.Store.Preserves.{
  Preserves, Preserves-agent, Preserves-agent_twice, Preserves-statement, Preserves-bind,
  Preserves-then,
}
use zcoms_agent.Store.Guard.{
  guard_rules, SameJewels, SameJewels-IsPreorder, insert-caps, SameJewels-of_eq, definition-update,
  update_caps-statement,
}

-- With no cap among the columns an agent's update of a workspace leaves the caps alone.
agent_update_workspace :
    (i : ℕ) (n r : Option Text) (p g : Option Bool)
    → Preserves SameJewels (update_workspace agent i n r p g)
unfolding update_workspace
agent_update_workspace i n (some r) p g = Preserves-agent_twice SameJewels-IsPreorder _ _ _
agent_update_workspace i n none p g =
    Preserves-then SameJewels-IsPreorder _ _ (search guard_rules) (
      search (
        guard_rules,
        update_caps-statement (λ db. exists (has_id i) db.workspaces) (has_id i)
            (augmented n none p g) (λ w. refl) (λ w. refl),
      ))

agent_upsert_discovered : (p n : Text) → Preserves SameJewels (upsert_discovered p n)
unfolding upsert_discovered get_workspace_by_path
agent_upsert_discovered p n = Preserves-bind SameJewels-IsPreorder _ _ (search guard_rules) seen
  where
    seen : (found : Option Workspace) → Preserves SameJewels (upsert_seen p n found)
    seen (some w) = update_caps-statement (λ db. tt) _ _ (λ w. refl) (λ w. refl)
    seen none = Preserves-statement SameJewels-IsPreorder _ (λ db. insert-caps db _)

agent_mark_gone : (gone : List Workspace) → Preserves SameJewels (mark_gone gone)
unfolding mark_gone
agent_mark_gone [] = search guard_rules
agent_mark_gone (w ∷ gone) =
    Preserves-then SameJewels-IsPreorder _ _
      (update_caps-statement (λ db. tt) _ _ (λ w. refl) (λ w. refl)) (agent_mark_gone gone)

agent_mark_absent : (paths : List Text) → Preserves SameJewels (mark_absent paths)
unfolding mark_absent
agent_mark_absent paths =
    Preserves-bind SameJewels-IsPreorder _ _ (search guard_rules) (λ gone. agent_mark_gone gone)

upsert_session-jewels :
    (new : Session) (change : Session → Session) (db : Database)
    → SameJewels db (Sessions.upsert_session new change db).1
unfolding Sessions.upsert_session
upsert_session-jewels new change db =
    SameJewels-of_eq _ _ (ground arith) (ground arith) (ground arith) (ground arith) (ground arith)
      (ground arith)

agent_set_label : (w : ℕ) (b e l : Text) → Preserves SameJewels (Sessions.set_label agent w b e l)
unfolding Sessions.set_label
agent_set_label w b e l = Preserves-then SameJewels-IsPreorder _ _ (search guard_rules) (
    Preserves-bind SameJewels-IsPreorder _ _ (search guard_rules)
      (λ at. Preserves-statement SameJewels-IsPreorder _ (upsert_session-jewels _ _)))

agent_touch_resumed : (w : ℕ) (b e : Text) → Preserves SameJewels (Sessions.touch_resumed w b e)
unfolding Sessions.touch_resumed
agent_touch_resumed w b e = Preserves-then SameJewels-IsPreorder _ _ (search guard_rules) (
    Preserves-bind SameJewels-IsPreorder _ _ (search guard_rules)
      (λ at. Preserves-statement SameJewels-IsPreorder _ (upsert_session-jewels _ _)))

agent_mark_triage_group_ran :
    (i : ℕ) (at : Text) → Preserves SameJewels (Triage.mark_triage_group_ran i at)
unfolding Triage.mark_triage_group_ran
agent_mark_triage_group_ran i at = Preserves-statement SameJewels-IsPreorder _ λ db. record {
  settings = refl;
  allowlist = refl;
  personas = refl;
  groups = definition-update i at db.groups;
  sources = refl;
  caps = λ p c h. h;
}

reminder_statement :
    {A : Type 0} (f : Database → A) (g : Database → List Reminder)
    → Preserves SameJewels (statement (λ db. (ok (f db), record db { reminders = g db })))
reminder_statement f g =
    Preserves-statement SameJewels-IsPreorder _
      (λ db. SameJewels-of_eq _ _ refl refl refl refl refl refl)

agent_create_reminder : (r : Reminder) → Preserves SameJewels (Reminders.create_reminder r)
unfolding Reminders.create_reminder Reminders.insert_reminder
agent_create_reminder r = Preserves-then SameJewels-IsPreorder _ _ (search guard_rules) (
    Preserves-then SameJewels-IsPreorder _ _ (search guard_rules) (
      Preserves-bind SameJewels-IsPreorder _ _ (search guard_rules) (λ at.
        Preserves-bind SameJewels-IsPreorder _ _ (reminder_statement _ _)
          (λ i. search guard_rules))))

agent_update_reminder : (r : Reminder) → Preserves SameJewels (Reminders.update_reminder r)
unfolding Reminders.update_reminder
agent_update_reminder r = Preserves-bind SameJewels-IsPreorder _ _ (search guard_rules) (λ at.
    Preserves-bind SameJewels-IsPreorder _ _ (reminder_statement _ _) (λ met. search guard_rules))

agent_cancel_reminder : (i : ℕ) → Preserves SameJewels (Reminders.cancel_reminder i)
unfolding Reminders.cancel_reminder
agent_cancel_reminder i = Preserves-bind SameJewels-IsPreorder _ _ (search guard_rules) (λ at.
    Preserves-bind SameJewels-IsPreorder _ _ (reminder_statement _ _) (λ met. search guard_rules))

insert_event-jewels :
    (i : ℕ) (at kind detail : Text) (db : Database)
    → SameJewels db (Reminders.insert_event i at kind detail db).1
unfolding Reminders.insert_event
insert_event-jewels i at kind detail db =
    SameJewels-of_eq _ _ (ground arith) (ground arith) (ground arith) (ground arith) (ground arith)
      (ground arith)

agent_add_reminder_event :
    (i : ℕ) (kind detail : Text) → Preserves SameJewels (Reminders.add_reminder_event i kind detail)
unfolding Reminders.add_reminder_event
agent_add_reminder_event i kind detail = record { at = logged.at }
  where
    logged :
        Preserves SameJewels (now >>= λ at. statement (Reminders.insert_event i at kind detail))
    logged =
        Preserves-bind SameJewels-IsPreorder _ _ (search guard_rules)
          (λ at. Preserves-statement SameJewels-IsPreorder _ (insert_event-jewels i at kind detail))

-- One request of the agent, whichever it is.
agent_perform : (r : Write) → Preserves SameJewels (perform agent r)
unfolding perform Settings.set_setting Settings.delete_setting Allow.create_allow Allow.update_allow
    Allow.delete_allow Personas.create_persona Personas.update_persona Personas.delete_persona
    Personas.upsert_persona set_ignored Triage.save_triage_group Triage.set_triage_group_enabled
    Triage.delete_triage_group
agent_perform (Write.update_workspace i n r p g) = agent_update_workspace i n r p g
agent_perform (Write.set_ignored i g) = agent_update_workspace i none none none (some g)
agent_perform (Write.upsert_discovered p n) = agent_upsert_discovered p n
agent_perform (Write.mark_absent ps) = agent_mark_absent ps
agent_perform (Write.set_label w b e l) = agent_set_label w b e l
agent_perform (Write.touch_resumed w b e) = agent_touch_resumed w b e
agent_perform (Write.mark_triage_group_ran i at) = agent_mark_triage_group_ran i at
agent_perform (Write.create_reminder r) =
    Preserves-then SameJewels-IsPreorder _ _ (agent_create_reminder r) (search guard_rules)
agent_perform (Write.update_reminder r) = agent_update_reminder r
agent_perform (Write.cancel_reminder i) = agent_cancel_reminder i
agent_perform (Write.add_reminder_event i k d) = agent_add_reminder_event i k d
agent_perform (Write.create_allow e) = Preserves-agent_twice SameJewels-IsPreorder _ _ _
agent_perform (Write.create_persona p) = Preserves-agent_twice SameJewels-IsPreorder _ _ _
agent_perform (Write.save_triage_group g) = Preserves-agent_twice SameJewels-IsPreorder _ _ _
agent_perform _ = Preserves-agent SameJewels-IsPreorder _ _

-- Whatever requests the agent makes, in whatever order and whatever the faults of the driver,
-- the settings, the allowlist, the personas, the sources and the definitions of the triage
-- groups and the cap of every workspace that is there stay as they were.
pub agent_requests-SameJewels :
    (requests : List Write) (w : World) → SameJewels w.db (perform_all (by_agent requests) w).db
unfolding perform_all
agent_requests-SameJewels [] w = SameJewels-IsPreorder.same w.db
agent_requests-SameJewels (r ∷ rs) w =
    let w' : World = (perform agent r w).1 in
    SameJewels-IsPreorder.then_ ((agent_perform r).at w) (agent_requests-SameJewels rs w')
