-- ===== src/Scheduler.antt =====
-- control-plane/scheduler: what takes a URL from the queue to a classification.
pub mod Lifecycle
pub mod Orchestrator
pub mod Selection
