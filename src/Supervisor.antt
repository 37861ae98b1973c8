-- ===== src/Supervisor.antt =====
-- control-plane-agent/: the supervisor of a node.
pub mod Router
pub mod Worker
pub mod Updater
pub mod Connection
