-- ===== src/Store/Types.antt =====
-- internal/store: the callers, the errors and the rows of agent.db's tables. Every read gives
-- NULL as '' (COALESCE, NullString), so a column that may be NULL is a text, and NULL is ''.
-- The time stamps are RFC 3339 texts.
use zcoms_agent.Prelude.{ℕ, Bool, ◌||◌, List, [], if◌then◌else◌}
use zcoms_agent.Prelude.Text.{Text, codes, text_eq, trim_space}

pub data Caller : Type 0 where
  owner agent : Caller

-- CallerFrom: every text but "agent" is the owner, the local command line.
unfoldable pub caller_from : Text → Caller
caller_from s = if text_eq s (codes "agent") then agent else owner

-- The errors, by the message that they print; `driver` is a failure of the database driver itself.
pub data Error : Type 0 where
  forbidden : Caller → Text → Error
  invalid_role : Text → Error
  invalid_backend : Text → Error
  invalid_schedule : Text → Error
  missing : Text → Error
  already_listed : Text → Text → Error
  already_exists : Text → Error
  no_row : Text → ℕ → Error
  no_key : Text → Error
  unique : Error
  foreign_key : Error
  driver : Error

pub data Result {ℓ} (A : Type ℓ) : Type ℓ where
  ok : A → Result A
  err : Error → Result A

pub record Setting : Type 0 where
  pub key : Text
  pub value : Text

pub record AllowEntry : Type 0 where
  pub id : ℕ
  pub platform : Text
  pub handle : Text
  pub max_role : Text

pub record Persona : Type 0 where
  pub id : ℕ
  pub key : Text
  pub display_name : Text
  pub backend : Text
  pub model : Text
  pub seed_prompt : Text

pub record Workspace : Type 0 where
  pub id : ℕ
  pub path : Text
  pub name : Text
  pub max_role : Text
  pub discovered : Bool
  pub present : Bool
  pub ignored : Bool
  pub pinned : Bool

pub record Session : Type 0 where
  pub id : ℕ
  pub workspace_id : ℕ
  pub backend : Text
  pub external_id : Text
  pub label : Text
  pub last_resumed_at : Text

pub record TriageGroup : Type 0 where
  pub id : ℕ
  pub name : Text
  pub schedule_kind : Text
  pub schedule_spec : Text
  pub enabled : Bool
  pub last_run_at : Text

pub record TriageSource : Type 0 where
  pub id : ℕ
  pub group_id : ℕ
  pub transport : Text
  pub account : Text
  pub chat_filter : Text

pub record Reminder : Type 0 where
  pub id : ℕ
  pub from_addr : Text
  pub from_name : Text
  pub recipient_transport : Text
  pub recipient_addr : Text
  pub recipient_name : Text
  pub recipient_contact_id : ℕ
  pub task : Text
  pub event_start : Text
  pub event_end : Text
  pub other_party : Text
  pub carry_over : Text
  pub next_at : Text
  pub state : Text
  pub runs : ℕ
  pub created_at : Text
  pub updated_at : Text

pub record ReminderEvent : Type 0 where
  pub id : ℕ
  pub reminder_id : ℕ
  pub at : Text
  pub kind : Text
  pub detail : Text

pub record Database : Type 0 where
  pub settings : List Setting
  pub allowlist : List AllowEntry
  pub personas : List Persona
  pub workspaces : List Workspace
  pub sessions : List Session
  pub groups : List TriageGroup
  pub sources : List TriageSource
  pub reminders : List Reminder
  pub events : List ReminderEvent

-- The tables as `migrate` creates them.
abbrev pub empty_database : Database
empty_database = record {
  settings = [];
  allowlist = [];
  personas = [];
  workspaces = [];
  sessions = [];
  groups = [];
  sources = [];
  reminders = [];
  events = [];
}

-- nullable: white space alone is stored as NULL, which is read as ''.
unfoldable pub nullable : Text → Text
nullable s = if text_eq (trim_space s) (codes "") then codes "" else s

-- The keys of `validRoles`.
unfoldable pub valid_roles : Text → Bool
valid_roles r =
    text_eq r (codes "read")
    || text_eq r (codes "confirm")
    || text_eq r (codes "edit")
    || text_eq r (codes "full")

-- The keys of `validBackends`.
unfoldable pub valid_backends : Text → Bool
valid_backends b = text_eq b (codes "claude") || text_eq b (codes "codex")
