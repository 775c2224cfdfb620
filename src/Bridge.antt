-- ===== src/Bridge.antt =====
-- internal/bridge: the chat sessions of the allow-listed users, and the agent runs they start.
pub mod State
pub mod Runs
pub mod Menus
pub mod Forwards
pub mod Chunks
pub mod Files
pub mod Handle
pub mod Sessions
pub mod Turns
pub mod Ceiling
pub mod Approved
pub mod StoredCaps
