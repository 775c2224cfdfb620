-- ===== src/Store/Atomic/Writes.antt =====
-- The writes of internal/store that return an error, operation by operation. The sweep of absent
-- workspaces runs one statement for each of them, and is not among them.
use zcoms_agent.Prelude.{ℕ, Bool, Option, none, some, ◌≡◌, ap}
use zcoms_agent.Prelude.Text.{Text}
use zcoms_agent.Store.Types.{Error, err, Caller, Persona, Workspace, AllowEntry, Reminder}
use zcoms_agent.Store.Triage.{GroupWithSources}
use zcoms_agent.Store.Db.{World}
use zcoms_agent.Store.Preserves.{Preserves, preserves_rules}
use zcoms_agent.Store.Atomic.{
  IsAtomic, Same, Same-IsPreorder, IsAtomic-after, IsAtomic-map, IsAtomic-statement,
  IsAtomic-relabel, IsAtomic-transaction, IsAtomic-when, IsAtomic-row, update_no_row, delete_no_row,
}
use zcoms_agent.Store.Requests.{Write, perform}
use zcoms_agent.Store.Settings
use zcoms_agent.Store.Allow
use zcoms_agent.Store.Personas
use zcoms_agent.Store.Workspaces
use zcoms_agent.Store.Sessions
use zcoms_agent.Store.Triage
use zcoms_agent.Store.Reminders

ruleset reads = (preserves_rules, Same-IsPreorder)

set_setting-IsAtomic : (c : Caller) (k v : Text) → IsAtomic (Settings.set_setting c k v)
unfolding Settings.set_setting
set_setting-IsAtomic c k v = IsAtomic-after _ _ (search reads) (λ _. IsAtomic-statement _)

delete_setting-IsAtomic : (c : Caller) (k : Text) → IsAtomic (Settings.delete_setting c k)
unfolding Settings.delete_setting
delete_setting-IsAtomic c k = IsAtomic-after _ _ (search reads) (λ _. IsAtomic-statement _)

create_allow-IsAtomic : (c : Caller) (e : AllowEntry) → IsAtomic (Allow.create_allow c e)
unfolding Allow.create_allow
create_allow-IsAtomic c e = IsAtomic-after _ _ (search reads) (λ _.
    IsAtomic-after _ _ (search reads) (λ _.
      IsAtomic-after _ _ (search reads)
        (λ _. IsAtomic-map _ _ (IsAtomic-relabel _ _ (IsAtomic-statement _)))))

update_allow-IsAtomic : (c : Caller) (i : ℕ) (r : Text) → IsAtomic (Allow.update_allow c i r)
unfolding Allow.update_allow
update_allow-IsAtomic c i r = IsAtomic-after _ _ (search reads) (λ _.
    IsAtomic-after _ _ (search reads) (λ _.
      IsAtomic-row _ _ _
        (λ db h. ap (λ t. record db { allowlist = t }) (update_no_row _ _ db.allowlist h))))

delete_allow-IsAtomic : (c : Caller) (i : ℕ) → IsAtomic (Allow.delete_allow c i)
unfolding Allow.delete_allow
delete_allow-IsAtomic c i = IsAtomic-after _ _ (search reads) (λ _.
    IsAtomic-row _ _ _
      (λ db h. ap (λ t. record db { allowlist = t }) (delete_no_row _ db.allowlist h)))

create_persona-IsAtomic : (c : Caller) (p : Persona) → IsAtomic (Personas.create_persona c p)
unfolding Personas.create_persona
create_persona-IsAtomic c p = IsAtomic-after _ _ (search reads) (λ _.
    IsAtomic-after _ _ (search reads) (λ _.
      IsAtomic-after _ _ (search reads)
        (λ _. IsAtomic-map _ _ (IsAtomic-relabel _ _ (IsAtomic-statement _)))))

update_persona-IsAtomic :
    (c : Caller) (k : Text) (p : Persona) → IsAtomic (Personas.update_persona c k p)
unfolding Personas.update_persona
update_persona-IsAtomic c k p = IsAtomic-after _ _ (search reads) (λ _.
    IsAtomic-after _ _ (search reads) (λ _. IsAtomic-after _ _ (search reads) (λ _.
      IsAtomic-row _ _ _
        (λ db h. ap (λ t. record db { personas = t }) (update_no_row _ _ db.personas h)))))

delete_persona-IsAtomic : (c : Caller) (k : Text) → IsAtomic (Personas.delete_persona c k)
unfolding Personas.delete_persona
delete_persona-IsAtomic c k = IsAtomic-after _ _ (search reads) (λ _.
    IsAtomic-row _ _ _
      (λ db h. ap (λ t. record db { personas = t }) (delete_no_row _ db.personas h)))

upsert_persona-IsAtomic : (c : Caller) (p : Persona) → IsAtomic (Personas.upsert_persona c p)
unfolding Personas.upsert_persona Personas.get_persona
upsert_persona-IsAtomic c p =
    IsAtomic-after _ _ (search reads) (λ _. IsAtomic-after _ _ (search reads) found)
  where
    found : (o : Option Persona) → IsAtomic (Personas.upsert_found c p o)
    found (some q) = update_persona-IsAtomic c p.key p
    found none = IsAtomic-map _ _ (create_persona-IsAtomic c p)

update_workspace-IsAtomic :
    (c : Caller) (i : ℕ) (n r : Option Text) (p g : Option Bool)
    → IsAtomic (Workspaces.update_workspace c i n r p g)
unfolding Workspaces.update_workspace
update_workspace-IsAtomic c i n r p g = IsAtomic-after _ _ (check r) (λ _. IsAtomic-when _ _ (
    IsAtomic-row _ _ _
      (λ db h. ap (λ t. record db { workspaces = t }) (update_no_row _ _ db.workspaces h))))
  where
    check : (role : Option Text) → Preserves Same (Workspaces.check_cap c role)
    check none = search reads
    check (some role) = search reads

upsert_discovered-IsAtomic : (p n : Text) → IsAtomic (Workspaces.upsert_discovered p n)
unfolding Workspaces.upsert_discovered Workspaces.get_workspace_by_path
upsert_discovered-IsAtomic p n = IsAtomic-after _ _ (search reads) seen
  where
    seen : (o : Option Workspace) → IsAtomic (Workspaces.upsert_seen p n o)
    seen (some w) = IsAtomic-statement _
    seen none = IsAtomic-statement _

set_label-IsAtomic : (c : Caller) (w : ℕ) (b e l : Text) → IsAtomic (Sessions.set_label c w b e l)
unfolding Sessions.set_label
set_label-IsAtomic c w b e l =
    IsAtomic-after _ _ (search reads)
      (λ _. IsAtomic-after _ _ (search reads) (λ at. IsAtomic-statement _))

touch_resumed-IsAtomic : (w : ℕ) (b e : Text) → IsAtomic (Sessions.touch_resumed w b e)
unfolding Sessions.touch_resumed
touch_resumed-IsAtomic w b e =
    IsAtomic-after _ _ (search reads)
      (λ _. IsAtomic-after _ _ (search reads) (λ at. IsAtomic-statement _))

save_triage_group-IsAtomic :
    (c : Caller) (g : GroupWithSources) → IsAtomic (Triage.save_triage_group c g)
unfolding Triage.save_triage_group
save_triage_group-IsAtomic c g = IsAtomic-after _ _ (search reads) (λ _.
    IsAtomic-after _ _ (search reads) (λ _.
      IsAtomic-after _ _ (search reads)
        (λ _. IsAtomic-after _ _ (search reads) (λ _. IsAtomic-map _ _ (IsAtomic-transaction _)))))

set_triage_group_enabled-IsAtomic :
    (c : Caller) (i : ℕ) (on : Bool) → IsAtomic (Triage.set_triage_group_enabled c i on)
unfolding Triage.set_triage_group_enabled
set_triage_group_enabled-IsAtomic c i on = IsAtomic-after _ _ (search reads) (λ _.
    IsAtomic-row _ _ _ (λ db h. ap (λ t. record db { groups = t }) (update_no_row _ _ db.groups h)))

create_reminder-IsAtomic : (r : Reminder) → IsAtomic (Reminders.create_reminder r)
unfolding Reminders.create_reminder
create_reminder-IsAtomic r = IsAtomic-after _ _ (search reads) (λ _.
    IsAtomic-after _ _ (search reads)
      (λ _. IsAtomic-after _ _ (search reads) (λ at. IsAtomic-map _ _ (IsAtomic-statement _))))

update_reminder-IsAtomic : (r : Reminder) → IsAtomic (Reminders.update_reminder r)
unfolding Reminders.update_reminder
update_reminder-IsAtomic r = IsAtomic-after _ _ (search reads) (λ at.
    IsAtomic-row _ _ _
      (λ db h. ap (λ t. record db { reminders = t }) (update_no_row _ _ db.reminders h)))

cancel_reminder-IsAtomic : (i : ℕ) → IsAtomic (Reminders.cancel_reminder i)
unfolding Reminders.cancel_reminder
cancel_reminder-IsAtomic i = IsAtomic-after _ _ (search reads) (λ at.
    IsAtomic-row _ _ _
      (λ db h. ap (λ t. record db { reminders = t }) (update_no_row _ _ db.reminders h)))

add_reminder_event-IsAtomic :
    (i : ℕ) (kind detail : Text) → IsAtomic (Reminders.add_reminder_event i kind detail)
unfolding Reminders.add_reminder_event
add_reminder_event-IsAtomic i kind detail = record { at = λ w e h. cc }

delete_triage_group-IsAtomic : (c : Caller) (i : ℕ) → IsAtomic (Triage.delete_triage_group c i)
unfolding Triage.delete_triage_group
delete_triage_group-IsAtomic c i =
    IsAtomic-after _ _ (search reads) (λ _. IsAtomic-row _ _ _ (λ db h. rw h))

mark_triage_group_ran-IsAtomic : (i : ℕ) (at : Text) → IsAtomic (Triage.mark_triage_group_ran i at)
unfolding Triage.mark_triage_group_ran
mark_triage_group_ran-IsAtomic i at = IsAtomic-statement _

-- The one write that is several statements outside a transaction.
abbrev pub IsSweep : Write → Type 0
IsSweep (Write.mark_absent ps) = Unit
IsSweep _ = ⊥

perform-IsAtomic : (c : Caller) (r : Write) → ¬ IsSweep r → IsAtomic (perform c r)
unfolding perform Workspaces.set_ignored
perform-IsAtomic c (Write.set_setting k v) h = set_setting-IsAtomic c k v
perform-IsAtomic c (Write.delete_setting k) h = delete_setting-IsAtomic c k
perform-IsAtomic c (Write.create_allow e) h = IsAtomic-map _ _ (create_allow-IsAtomic c e)
perform-IsAtomic c (Write.update_allow i r) h = update_allow-IsAtomic c i r
perform-IsAtomic c (Write.delete_allow i) h = delete_allow-IsAtomic c i
perform-IsAtomic c (Write.create_persona p) h = IsAtomic-map _ _ (create_persona-IsAtomic c p)
perform-IsAtomic c (Write.update_persona k p) h = update_persona-IsAtomic c k p
perform-IsAtomic c (Write.delete_persona k) h = delete_persona-IsAtomic c k
perform-IsAtomic c (Write.upsert_persona p) h = upsert_persona-IsAtomic c p
perform-IsAtomic c (Write.update_workspace i n r p g) h = update_workspace-IsAtomic c i n r p g
perform-IsAtomic c (Write.set_ignored i g) h = update_workspace-IsAtomic c i none none none (some g)
perform-IsAtomic c (Write.upsert_discovered p n) h = upsert_discovered-IsAtomic p n
perform-IsAtomic c (Write.mark_absent ps) h = absurd (h tt)
perform-IsAtomic c (Write.set_label w b e l) h = set_label-IsAtomic c w b e l
perform-IsAtomic c (Write.touch_resumed w b e) h = touch_resumed-IsAtomic w b e
perform-IsAtomic c (Write.save_triage_group g) h = IsAtomic-map _ _ (save_triage_group-IsAtomic c g)
perform-IsAtomic c (Write.set_triage_group_enabled i on) h =
    set_triage_group_enabled-IsAtomic c i on
perform-IsAtomic c (Write.delete_triage_group i) h = delete_triage_group-IsAtomic c i
perform-IsAtomic c (Write.mark_triage_group_ran i at) h = mark_triage_group_ran-IsAtomic i at
perform-IsAtomic c (Write.create_reminder r) h = IsAtomic-map _ _ (create_reminder-IsAtomic r)
perform-IsAtomic c (Write.update_reminder r) h = update_reminder-IsAtomic r
perform-IsAtomic c (Write.cancel_reminder i) h = cancel_reminder-IsAtomic i
perform-IsAtomic c (Write.add_reminder_event i k d) h = add_reminder_event-IsAtomic i k d

-- A write of either caller, other than the sweep of absent workspaces, that returns an error at
-- any of its checks or statements has changed no table.
pub failed_write_unchanged :
    (c : Caller) (r : Write) (w : World) (e : Error)
    → ¬ IsSweep r
    → (perform c r w).0 ≡ err e
    → (perform c r w).1.db ≡ w.db
failed_write_unchanged c r w e h = (perform-IsAtomic c r h).at w e
