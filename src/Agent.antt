-- ===== src/Agent.antt =====
-- agent/: the worker that tests the sites.
pub mod Browser
pub mod Probe
