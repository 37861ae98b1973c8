-- ===== src/Bundles.antt =====
-- The bundles that update the nodes: their signatures (shared/protocol/bundle-signing.mjs) and the
-- registry of those that were published (control-plane/control/bundle-registry.mjs).
pub mod Signing
pub mod Registry
mod Tests
