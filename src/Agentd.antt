-- ===== src/Agentd.antt =====
-- internal/agentd: the daemon that joins the components.
pub mod Adapter
