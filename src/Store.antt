-- ===== src/Store.antt =====
-- internal/store: the agent-tier state, agent.db.
pub mod Types
pub mod Db
pub mod Rows
pub mod Checks
pub mod Settings
pub mod Allow
pub mod Personas
pub mod Workspaces
pub mod Sessions
pub mod Triage
pub mod Reminders
pub mod Requests
pub mod Preserves
pub mod Guard
pub mod Atomic
pub mod WellFormed
