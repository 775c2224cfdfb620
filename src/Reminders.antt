-- ===== src/Reminders.antt =====
-- internal/reminders: the reminders that an agent advances one run at a time.
pub mod Config
pub mod Fields
pub mod Run
pub mod Waiting
pub mod Words
pub mod Requests
pub mod Handle
