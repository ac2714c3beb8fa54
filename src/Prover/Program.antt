-- ===== src/Prover/Program.antt =====
-- crates/distribution-guest/src/main.rs: the program that is proved, from its input to the bytes that
-- it commits. SHA-256 is a parameter; the machine that runs it is not part of the repository.
pub mod Laws
use craftec_core.Prover.Client.{sort_entries, sum_weights}
use craftec_core.Prover.Merkle.{zero_hash, next_power_of_two}
use craftec_core.Prover.Types.{DistributionInput}
use craftec_core.Prelude.{
  and_then, ℕ, zero, suc, ◌-◌, ◌%◌, Option, none, some, List, [], ◌∷◌, ◌++◌, map, length, Byte,
  to_le_bytes,
}

-- `while nodes.len() < n { nodes.push([0u8; 32]) }`, with `left` rounds to go.
unfoldable pub push_zeros : ℕ → List (List Byte) → List (List Byte)
push_zeros zero nodes = nodes
push_zeros (suc left) nodes = push_zeros left (nodes ++ zero_hash ∷ [])

module _ (sha256 : List Byte → List Byte) where
  -- `for i in (0..nodes.len()).step_by(2)`, with the parents so far; `none` is the panic of an index.
  unfoldable pub merge_nodes : List (List Byte) → List (List Byte) → Option (List (List Byte))
  merge_nodes next [] = some next
  merge_nodes next (left ∷ []) = none
  merge_nodes next (left ∷ right ∷ nodes) = merge_nodes (next ++ sha256 (left ++ right) ∷ []) nodes

  -- `while nodes.len() > 1`, then `nodes[0]`, with at most `fuel` rounds.
  unfoldable pub merge_rounds : ℕ → List (List Byte) → Option (List Byte)
  merge_rounds fuel [] = none
  merge_rounds fuel (root ∷ []) = some root
  merge_rounds zero (left ∷ right ∷ nodes) = none
  merge_rounds (suc fuel) (left ∷ right ∷ nodes) =
      and_then (merge_nodes [] (left ∷ right ∷ nodes)) (λ next. merge_rounds fuel next)

  unfoldable pub merkle_root : List (List Byte) → Option (List Byte)
  merkle_root [] = some zero_hash
  merkle_root (leaf ∷ []) = some leaf
  merkle_root (leaf ∷ second ∷ leaves) =
      let all = leaf ∷ second ∷ leaves in
      let n = next_power_of_two (length all) in merge_rounds n (push_zeros (n - length all) all)

  -- `merkle_leaf`
  abbrev pub leaf_of : List Byte × ℕ → List Byte
  leaf_of entry = sha256 (entry.0 ++ to_le_bytes 8 entry.1)

  -- The four calls of `commit_slice`.
  abbrev pub committed : List Byte → ℕ → ℕ → List Byte → List Byte
  committed root total_weight count pool_id =
      ((root ++ to_le_bytes 8 total_weight) ++ to_le_bytes 4 (count % 4294967296)) ++ pool_id

  abbrev pub run_entries : List (List Byte × ℕ) → List Byte → Option (List Byte)
  run_entries entries pool_id = and_then (sum_weights 0 entries) (λ total_weight.
      and_then (merkle_root (map leaf_of entries))
        (λ root. some (committed root total_weight (length entries) pool_id)))

  -- `main` on the entries and the pool: the bytes that are committed; `none` is a panic.
  unfoldable pub main : List (List Byte × ℕ) → List Byte → Option (List Byte)
  main [] pool_id = none
  main (entry ∷ entries) pool_id = run_entries (sort_entries (entry ∷ entries)) pool_id
