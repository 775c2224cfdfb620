-- ===== src/Store/WellFormed.antt =====
-- What holds of agent.db between two operations: the UNIQUE constraints and ids, the foreign keys,
-- and the validation of internal/store as facts of the rows that are stored.
pub mod AllowRows
pub mod GroupRows
pub mod ReminderRows
pub mod Requests
pub mod WorkspaceRows
pub mod PersonaRows
use zcoms_agent.Prelude.{
  ℕ, suc, Bool, true, false, List, [], ◌∷◌, ◌≡◌, refl, arith, ◌&&◌, ◌==◌, All, inl, inr,
}
use zcoms_agent.Prelude.Text.{Text, codes, text_eq, to_lower, to_lower-to_lower}
use zcoms_agent.Store.Types.{
  Database, Setting, AllowEntry, Persona, Workspace, Session, TriageGroup, TriageSource, Reminder,
  ReminderEvent, valid_backends, empty_database,
}
use zcoms_agent.Store.Checks.{role_ok, is_blank}
use zcoms_agent.Store.Rows.{exists}
use zcoms_agent.Store.Rows.Keys.{Distinct}
use zcoms_agent.Store.Workspaces
use zcoms_agent.Store.Triage
use zcoms_agent.Store.Triage.{valid_schedule_kinds}
use zcoms_agent.Store.Reminders

abbrev pub same_setting : Setting → Setting → Bool
same_setting a b = text_eq a.key b.key

abbrev pub same_principal : AllowEntry → AllowEntry → Bool
same_principal a b = text_eq a.platform b.platform && text_eq a.handle b.handle

abbrev pub same_persona : Persona → Persona → Bool
same_persona a b = text_eq a.key b.key

abbrev pub same_path : Workspace → Workspace → Bool
same_path a b = text_eq a.path b.path

abbrev pub same_session : Session → Session → Bool
same_session a b = text_eq a.backend b.backend && text_eq a.external_id b.external_id

-- An entry has a lower-case platform and a role that the validation accepts.
pub record IsEntry (e : AllowEntry) : Type 0 where
  pub platform_lower : to_lower e.platform ≡ e.platform
  pub handle_given : is_blank e.handle ≡ false
  pub role_valid : role_ok e.max_role ≡ true

pub record IsAllowlist (rows : List AllowEntry) : Type 0 where
  pub ids : Distinct (λ a b. a.id == b.id) rows
  pub principals : Distinct same_principal rows
  pub entries : All IsEntry rows

pub record IsPersona (p : Persona) : Type 0 where
  pub backend_valid : valid_backends p.backend ≡ true
  pub seed_given : is_blank p.seed_prompt ≡ false

pub record ArePersonas (rows : List Persona) : Type 0 where
  pub ids : Distinct (λ a b. a.id == b.id) rows
  pub keys : Distinct same_persona rows
  pub personas : All IsPersona rows

abbrev pub IsCapped : Workspace → Type 0
IsCapped w = role_ok w.max_role ≡ true

pub record AreWorkspaces (rows : List Workspace) : Type 0 where
  pub ids : Distinct (λ a b. a.id == b.id) rows
  pub paths : Distinct same_path rows
  pub caps : All IsCapped rows

-- The foreign key of a session.
abbrev pub InWorkspace : List Workspace → Session → Type 0
InWorkspace ws s = exists (Workspaces.has_id s.workspace_id) ws ≡ true

-- The backend of a session is one that the validation accepts, in any letter case.
abbrev pub HasBackend : Session → Type 0
HasBackend s = valid_backends (to_lower s.backend) ≡ true

pub record AreSessions (ws : List Workspace) (rows : List Session) : Type 0 where
  pub ids : Distinct (λ a b. a.id == b.id) rows
  pub keys : Distinct same_session rows
  pub workspaces : All (InWorkspace ws) rows
  pub backends : All HasBackend rows

abbrev pub IsScheduled : TriageGroup → Type 0
IsScheduled g = valid_schedule_kinds g.schedule_kind ≡ true

pub record AreGroups (rows : List TriageGroup) : Type 0 where
  pub ids : Distinct (λ a b. a.id == b.id) rows
  pub schedules : All IsScheduled rows

-- The foreign key of a source.
abbrev pub InGroup : List TriageGroup → TriageSource → Type 0
InGroup gs s = exists (Triage.has_id s.group_id) gs ≡ true

pub record AreSources (gs : List TriageGroup) (rows : List TriageSource) : Type 0 where
  pub ids : Distinct (λ a b. a.id == b.id) rows
  pub groups : All (InGroup gs) rows

-- The foreign key of an event.
abbrev pub OfReminder : List Reminder → ReminderEvent → Type 0
OfReminder rs e = exists (Reminders.has_id e.reminder_id) rs ≡ true

pub record AreEvents (rs : List Reminder) (rows : List ReminderEvent) : Type 0 where
  pub ids : Distinct (λ a b. a.id == b.id) rows
  pub reminders : All (OfReminder rs) rows

pub record IsWellFormed (db : Database) : Type 0 where
  pub settings : Distinct same_setting db.settings
  pub allowlist : IsAllowlist db.allowlist
  pub personas : ArePersonas db.personas
  pub workspaces : AreWorkspaces db.workspaces
  pub sessions : AreSessions db.workspaces db.sessions
  pub groups : AreGroups db.groups
  pub sources : AreSources db.groups db.sources
  pub reminders : Distinct (λ (a b : Reminder). a.id == b.id) db.reminders
  pub events : AreEvents db.reminders db.events

pub empty-IsWellFormed : IsWellFormed empty_database
empty-IsWellFormed = record {
  settings = tt;
  allowlist = record { ids = tt; principals = tt; entries = tt };
  personas = record { ids = tt; keys = tt; personas = tt };
  workspaces = record { ids = tt; paths = tt; caps = tt };
  sessions = record { ids = tt; keys = tt; workspaces = tt; backends = tt };
  groups = record { ids = tt; schedules = tt };
  sources = record { ids = tt; groups = tt };
  reminders = tt;
  events = record { ids = tt; reminders = tt };
}
