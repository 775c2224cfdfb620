-- ===== src/Errands.antt =====
-- internal/errands: the errands that agents run with one contact each.
pub mod Errand
pub mod Directives
pub mod Task
pub mod Interview
pub mod Producer
pub mod Drive
pub mod Steps
pub mod Ownership
pub mod Specs
pub mod Commands
pub mod Scheduled
