-- ===== src/Network.antt =====
-- crates/network: the frames of its streams, and the peers that a node knows.
pub mod Wire
pub mod Pex
pub mod PexWire
