-- ===== src/Tests/Prover.antt =====
-- Inputs for the theorems on crates/prover and crates/prover-guest-types.
use craftec_core.Prover.Merkle.{zero_hash, compute_merkle_root}
use craftec_core.Prover.Merkle.Laws.{tree_root, compute_merkle_root-tree_root}
use craftec_core.Prover.Types.{DistributionOutput, to_bytes, from_bytes}
use craftec_core.Prover.Types.Laws.{from_bytes-to_bytes}
use craftec_core.Prelude.{
  ℕ, ◌*◌, ◌^◌, ◌≤◌, ◌<◌, some, List, [], ◌∷◌, ◌++◌, length, take, replicate, get_or, Byte, u8,
  arith, ◌≡◌, ◌≢◌, refl, ap,
}

abbrev output : DistributionOutput
output = record {
  root = replicate 32 (u8 7);
  total_weight = 123456789;
  entry_count = 3;
  pool_id = replicate 32 (u8 170);
}

from_bytes-to_bytes_example :
    (from_bytes (to_bytes output) ≡ output) × (length (to_bytes output) ≡ 76)
from_bytes-to_bytes_example = from_bytes-to_bytes output (record {
  root_length = refl;
  total_weight_fits = omega arith;
  entry_count_fits = omega arith;
  pool_id_length = refl;
})

-- A stand-in for SHA-256: the length of the message and its first bytes, 32 in all.
abbrev digest : List Byte → List Byte
digest m = take 32 (u8 (length m) ∷ m ++ replicate 32 (u8 0))

abbrev leaves : List (List Byte)
leaves = replicate 32 (u8 1) ∷ replicate 32 (u8 2) ∷ replicate 32 (u8 3) ∷ []

leaves_ne : leaves ≢ []
leaves_ne e = omega (arith, ap (λ (xs : List (List Byte)). length xs) e)

compute_merkle_root-tree_root_example :
    (d : ℕ) × (length leaves ≤ 2 ^ d)
    × (2 ^ d < 2 * length leaves)
    × (compute_merkle_root digest leaves
        ≡ some (tree_root digest d (λ i. get_or leaves i zero_hash) 0))
compute_merkle_root-tree_root_example = compute_merkle_root-tree_root digest leaves leaves_ne
