-- ===== src/Prover/Types.antt =====
-- `DistributionOutput` of crates/prover-guest-types/src/lib.rs and its layout of 76 bytes. An array
-- of 32 bytes is a list, whose length the theorems ask for.
pub mod Laws
use craftec_core.Prelude.{
  ℕ, ◌+◌, ◌-◌, List, [], ◌∷◌, ◌++◌, length, take, drop, replicate, Byte, zero_byte, to_le_bytes,
  from_le_bytes,
}

pub record DistributionInput : Type 0 where
  pub entries : List (List Byte × ℕ)
  pub pool_id : List Byte

pub record DistributionOutput : Type 0 where
  pub root : List Byte
  pub total_weight : ℕ
  pub entry_count : ℕ
  pub pool_id : List Byte

-- `buf[start..start + src.len()].copy_from_slice(src)`
unfoldable pub copy_at : ℕ → List Byte → List Byte → List Byte
copy_at start src buf = take start buf ++ src ++ drop (start + length src) buf

-- `bytes[start..end]`
unfoldable pub range : ℕ → ℕ → List Byte → List Byte
range start end bytes = take (end - start) (drop start bytes)

-- `DistributionOutput::to_bytes`
unfoldable pub to_bytes : DistributionOutput → List Byte
to_bytes o =
    let buf = replicate 76 zero_byte in
    let buf = copy_at 0 o.root buf in
    let buf = copy_at 32 (to_le_bytes 8 o.total_weight) buf in
    let buf = copy_at 40 (to_le_bytes 4 o.entry_count) buf in copy_at 44 o.pool_id buf

-- `DistributionOutput::from_bytes`
unfoldable pub from_bytes : List Byte → DistributionOutput
from_bytes bytes = record {
  root = range 0 32 bytes;
  total_weight = from_le_bytes (range 32 40 bytes);
  entry_count = from_le_bytes (range 40 44 bytes);
  pool_id = range 44 76 bytes;
}
