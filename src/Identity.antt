-- ===== src/Identity.antt =====
-- crates/identity: decentralised identifiers.
pub mod Did
