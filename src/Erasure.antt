-- ===== src/Erasure.antt =====
-- crates/erasure/src/lib.rs: random linear network coding over GF(2^8).
pub mod Config
pub mod Encoder
pub mod Decoder
pub mod Roundtrip
pub mod Homomorphic
pub mod Segmenter
