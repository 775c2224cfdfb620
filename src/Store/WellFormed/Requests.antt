-- ===== src/Store/WellFormed/Requests.antt =====
-- The invariant of the tables over the writes of internal/store.
use zcoms_agent.Prelude.{none, some, List, [], ◌∷◌}
use zcoms_agent.Store.Types.{Caller}
use zcoms_agent.Store.Db.{World}
use zcoms_agent.Store.Workspaces.{set_ignored}
use zcoms_agent.Store.Requests.{Write, perform, perform_all}
use zcoms_agent.Store.Preserves.{Preserves, Keeps, Preserves-then, Preserves-pure}
use zcoms_agent.Store.WellFormed.{IsWellFormed}
use zcoms_agent.Store.WellFormed.AllowRows.{
  keeps, create_allow-IsWellFormed, update_allow-IsWellFormed, delete_allow-IsWellFormed,
  set_setting-IsWellFormed, delete_setting-IsWellFormed,
}
use zcoms_agent.Store.WellFormed.PersonaRows.{
  create_persona-IsWellFormed, update_persona-IsWellFormed, delete_persona-IsWellFormed,
  upsert_persona-IsWellFormed,
}
use zcoms_agent.Store.WellFormed.WorkspaceRows.{
  update_workspace-IsWellFormed, upsert_discovered-IsWellFormed, mark_absent-IsWellFormed,
  set_label-IsWellFormed, touch_resumed-IsWellFormed,
}
use zcoms_agent.Store.WellFormed.GroupRows.{
  save_triage_group-IsWellFormed, set_triage_group_enabled-IsWellFormed,
  delete_triage_group-IsWellFormed, mark_triage_group_ran-IsWellFormed,
}
use zcoms_agent.Store.WellFormed.ReminderRows.{
  create_reminder-IsWellFormed, update_reminder-IsWellFormed, cancel_reminder-IsWellFormed,
  add_reminder_event-IsWellFormed,
}

perform-IsWellFormed : (c : Caller) (r : Write) → Preserves (Keeps IsWellFormed) (perform c r)
unfolding perform set_ignored
perform-IsWellFormed c (Write.set_setting k v) = set_setting-IsWellFormed c k v
perform-IsWellFormed c (Write.delete_setting k) = delete_setting-IsWellFormed c k
perform-IsWellFormed c (Write.create_allow e) =
    Preserves-then keeps _ _ (create_allow-IsWellFormed c e) (Preserves-pure keeps tt)
perform-IsWellFormed c (Write.update_allow i r) = update_allow-IsWellFormed c i r
perform-IsWellFormed c (Write.delete_allow i) = delete_allow-IsWellFormed c i
perform-IsWellFormed c (Write.create_persona p) =
    Preserves-then keeps _ _ (create_persona-IsWellFormed c p) (Preserves-pure keeps tt)
perform-IsWellFormed c (Write.update_persona k p) = update_persona-IsWellFormed c k p
perform-IsWellFormed c (Write.delete_persona k) = delete_persona-IsWellFormed c k
perform-IsWellFormed c (Write.upsert_persona p) = upsert_persona-IsWellFormed c p
perform-IsWellFormed c (Write.update_workspace i n r p g) =
    update_workspace-IsWellFormed c i n r p g
perform-IsWellFormed c (Write.set_ignored i g) =
    update_workspace-IsWellFormed c i none none none (some g)
perform-IsWellFormed c (Write.upsert_discovered p n) = upsert_discovered-IsWellFormed p n
perform-IsWellFormed c (Write.mark_absent ps) = mark_absent-IsWellFormed ps
perform-IsWellFormed c (Write.set_label w b e l) = set_label-IsWellFormed c w b e l
perform-IsWellFormed c (Write.touch_resumed w b e) = touch_resumed-IsWellFormed w b e
perform-IsWellFormed c (Write.save_triage_group g) =
    Preserves-then keeps _ _ (save_triage_group-IsWellFormed c g) (Preserves-pure keeps tt)
perform-IsWellFormed c (Write.set_triage_group_enabled i on) =
    set_triage_group_enabled-IsWellFormed c i on
perform-IsWellFormed c (Write.delete_triage_group i) = delete_triage_group-IsWellFormed c i
perform-IsWellFormed c (Write.mark_triage_group_ran i at) = mark_triage_group_ran-IsWellFormed i at
perform-IsWellFormed c (Write.create_reminder r) =
    Preserves-then keeps _ _ (create_reminder-IsWellFormed r) (Preserves-pure keeps tt)
perform-IsWellFormed c (Write.update_reminder r) = update_reminder-IsWellFormed r
perform-IsWellFormed c (Write.cancel_reminder i) = cancel_reminder-IsWellFormed i
perform-IsWellFormed c (Write.add_reminder_event i k d) = add_reminder_event-IsWellFormed i k d

-- From well-formed tables any sequence of requests by either caller, under any faults of the
-- driver, leads to well-formed tables: unique ids and keys, foreign keys that are met, and valid
-- stored roles, backends and schedule kinds.
pub requests-IsWellFormed :
    (requests : List (Caller × Write)) (w : World)
    → IsWellFormed w.db
    → IsWellFormed (perform_all requests w).db
unfolding perform_all
requests-IsWellFormed [] w h = h
requests-IsWellFormed ((c, r) ∷ rs) w h =
    requests-IsWellFormed rs (perform c r w).1 ((perform-IsWellFormed c r).at w h)
