-- ===== src/Server.antt =====
-- control-plane/server: what stands before the operations of the ControlPlane.
pub mod Inbound
pub mod Auth
pub mod RateLimit
pub mod LongPoll
