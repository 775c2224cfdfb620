-- ===== src/Runner.antt =====
-- internal/runner: the toolkit that the components share.
pub mod Roles
pub mod AllowKeys
pub mod Agents
pub mod Buffer
pub mod Claims
pub mod Locations
