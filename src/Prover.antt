-- ===== src/Prover.antt =====
-- crates/prover and crates/prover-guest-types: the proof of a distribution.
pub mod Types
pub mod Merkle
pub mod Aggregate
pub mod Client
pub mod Program
