-- ===== src/Prover/Merkle.antt =====
-- crates/prover/src/merkle.rs: the Merkle root of a list of leaves. SHA-256 is not part of the
-- repository and is a parameter; `none` is the panic of an index out of range.
pub mod Laws
use craftec_core.Prelude.{
  and_then, ℕ, zero, suc, ◌+◌, ◌-◌, ◌*◌, ltb, leb, if◌then◌else◌, Option, none, some, List, [], ◌∷◌,
  ◌++◌, length, replicate, Byte, zero_byte,
}

-- `[0u8; 32]`
abbrev pub zero_hash : List Byte
zero_hash = replicate 32 zero_byte

-- `usize::next_power_of_two`: `p` is doubled until it is at least `n`, at most `fuel` times.
unfoldable pub next_power_from : ℕ → ℕ → ℕ → ℕ
next_power_from zero n p = p
next_power_from (suc fuel) n p =
    let rest = next_power_from fuel n (2 * p) in if leb n p then p else rest

-- `leaves.len().next_power_of_two()`
abbrev pub next_power_of_two : ℕ → ℕ
next_power_of_two n = next_power_from n n 1

-- `while nodes.len() < n { nodes.push([0u8; 32]) }` on the leaves.
abbrev pub pad : List (List Byte) → ℕ → List (List Byte)
pad leaves n = leaves ++ replicate (n - length leaves) zero_hash

abbrev pub cons_parent : List Byte → Option (List (List Byte)) → Option (List (List Byte))
cons_parent p none = none
cons_parent p (some ps) = some (p ∷ ps)

module _ (sha256 : List Byte → List Byte) where
  -- `for i in (0..nodes.len()).step_by(2)`
  unfoldable pub merge_pairs : List (List Byte) → Option (List (List Byte))
  merge_pairs [] = some []
  merge_pairs (left ∷ []) = none
  merge_pairs (left ∷ right ∷ nodes) = cons_parent (sha256 (left ++ right)) (merge_pairs nodes)

  -- `while nodes.len() > 1`, then `nodes[0]`, with at most `fuel` rounds.
  unfoldable pub merge_levels : ℕ → List (List Byte) → Option (List Byte)
  merge_levels fuel [] = none
  merge_levels fuel (root ∷ []) = some root
  merge_levels zero (left ∷ right ∷ nodes) = none
  merge_levels (suc fuel) (left ∷ right ∷ nodes) =
      and_then (merge_pairs (left ∷ right ∷ nodes)) (λ next. merge_levels fuel next)

  -- `compute_merkle_root`. Each round halves the nodes, so their number is enough fuel.
  unfoldable pub compute_merkle_root : List (List Byte) → Option (List Byte)
  compute_merkle_root [] = some zero_hash
  compute_merkle_root (leaf ∷ []) = some leaf
  compute_merkle_root (leaf ∷ second ∷ leaves) =
      let all = leaf ∷ second ∷ leaves in
      let n = next_power_of_two (length all) in merge_levels n (pad all n)
