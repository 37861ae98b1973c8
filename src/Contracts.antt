-- ===== src/Contracts.antt =====
-- shared/contracts: the vocabulary that the ControlPlane and the agents share.
pub mod Versions
pub mod Nodes
pub mod Commands
