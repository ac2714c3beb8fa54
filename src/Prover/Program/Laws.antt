-- ===== src/Prover/Program/Laws.antt =====
-- The program of crates/distribution-guest/src/main.rs beside `execute_guest_logic`.
use craftec_core.Prover.Aggregate.{max_weight}
use craftec_core.Prover.Aggregate.Laws.{entry_weight, anyone}
use craftec_core.Prover.Client.{
  sort_entries, sum_weights, output_of, execute_guest_logic, merkle_leaf,
}
use craftec_core.Prover.Client.Guest.{execute_guest_logic_lem}
use craftec_core.Prover.Merkle.{
  zero_hash, next_power_of_two, pad, cons_parent, merge_pairs, merge_levels, compute_merkle_root,
}
use craftec_core.Prover.Program.{
  push_zeros, merge_nodes, merge_rounds, merkle_root, leaf_of, committed, main,
}
use craftec_core.Prover.Types.{DistributionOutput, to_bytes, from_bytes}
use craftec_core.Prover.Types.Laws.{IsSized, to_bytes-append, from_bytes-to_bytes}
use craftec_core.Prelude.{
  and_then, ℕ, zero, suc, ◌-◌, ◌≤◌, ◌<◌, Option, none, some, List, [], ◌∷◌, ◌++◌, append_assoc,
  append-nil, map, length, replicate, Byte, to_le_bytes, arith, ◌≡◌, ◌≢◌, refl, sym, ap, ◌∙◌,
}

push_zeros-replicate :
    (left : ℕ) (nodes : List (List Byte))
    → push_zeros left nodes ≡ nodes ++ replicate left zero_hash
unfolding push_zeros
push_zeros-replicate zero nodes = sym (append-nil nodes)
push_zeros-replicate (suc left) nodes =
    push_zeros-replicate left (nodes ++ zero_hash ∷ [])
    ∙ append_assoc nodes (zero_hash ∷ []) (replicate left zero_hash)

-- Parents after those so far.
after : List (List Byte) → Option (List (List Byte)) → Option (List (List Byte))
after next none = none
after next (some parents) = some (next ++ parents)

after-cons_parent :
    (next : List (List Byte)) (p : List Byte) (o : Option (List (List Byte)))
    → after (next ++ p ∷ []) o ≡ after next (cons_parent p o)
unfolding after
after-cons_parent next p none = refl
after-cons_parent next p (some parents) = ap some (append_assoc next (p ∷ []) parents)

after-nil : (o : Option (List (List Byte))) → after [] o ≡ o
unfolding after
after-nil none = refl
after-nil (some parents) = refl

and_then_ext :
    {A B : Type 0} (f g : A → Option B)
    → ((a : A) → f a ≡ g a)
    → (o : Option A) → and_then o f ≡ and_then o g
and_then_ext f g same none = refl
and_then_ext f g same (some a) = same a

module _ (sha256 : List Byte → List Byte) where
  merge_nodes-merge_pairs :
      (next nodes : List (List Byte))
      → merge_nodes sha256 next nodes ≡ after next (merge_pairs sha256 nodes)
  unfolding merge_nodes merge_pairs after
  merge_nodes-merge_pairs next [] = ap some (sym (append-nil next))
  merge_nodes-merge_pairs next (left ∷ []) = refl
  merge_nodes-merge_pairs next (left ∷ right ∷ nodes) =
      merge_nodes-merge_pairs (next ++ sha256 (left ++ right) ∷ []) nodes
      ∙ after-cons_parent next (sha256 (left ++ right)) (merge_pairs sha256 nodes)

  merge_rounds-merge_levels :
      (fuel : ℕ) (nodes : List (List Byte))
      → merge_rounds sha256 fuel nodes ≡ merge_levels sha256 fuel nodes
  unfolding merge_rounds merge_levels
  merge_rounds-merge_levels zero [] = refl
  merge_rounds-merge_levels zero (root ∷ []) = refl
  merge_rounds-merge_levels zero (left ∷ right ∷ nodes) = refl
  merge_rounds-merge_levels (suc fuel) [] = refl
  merge_rounds-merge_levels (suc fuel) (root ∷ []) = refl
  merge_rounds-merge_levels (suc fuel) (left ∷ right ∷ nodes) =
      let all : List (List Byte) = left ∷ right ∷ nodes in
      ap (λ o. and_then o (λ next. merge_rounds sha256 fuel next))
        (merge_nodes-merge_pairs [] all ∙ after-nil (merge_pairs sha256 all))
      ∙ and_then_ext (merge_rounds sha256 fuel) (merge_levels sha256 fuel)
          (merge_rounds-merge_levels fuel) (merge_pairs sha256 all)

  merkle_root-compute_merkle_root :
      (leaves : List (List Byte)) → merkle_root sha256 leaves ≡ compute_merkle_root sha256 leaves
  unfolding merkle_root compute_merkle_root
  merkle_root-compute_merkle_root [] = refl
  merkle_root-compute_merkle_root (leaf ∷ []) = refl
  merkle_root-compute_merkle_root (leaf ∷ second ∷ leaves) =
      let all : List (List Byte) = leaf ∷ second ∷ leaves in
      let n : ℕ = next_power_of_two (length all) in
      ap (merge_rounds sha256 n) (push_zeros-replicate (n - length all) all)
      ∙ merge_rounds-merge_levels n (pad all n)

  abbrev commit_of : DistributionOutput → List Byte
  commit_of o =
      ((o.root ++ to_le_bytes 8 o.total_weight) ++ to_le_bytes 4 o.entry_count) ++ o.pool_id

  commit-output :
      (entries : List (List Byte × ℕ)) (pool_id : List Byte) (total : Option ℕ)
      (root : Option (List Byte))
      → and_then total
          (λ w. and_then root (λ r. some (committed sha256 r w (length entries) pool_id)))
        ≡ and_then
            (and_then total (λ w. and_then root (λ r. some (output_of sha256 entries pool_id w r))))
            (λ o. some (commit_of o))
  commit-output entries pool_id none root = refl
  commit-output entries pool_id (some w) none = refl
  commit-output entries pool_id (some w) (some r) = refl

  main-commit_of :
      (entries : List (List Byte × ℕ)) (pool_id : List Byte)
      → entries ≢ []
      → main sha256 entries pool_id
        ≡ and_then
            (execute_guest_logic sha256 (record { entries = entries; pool_id = pool_id }))
            (λ o. some (commit_of o))
  unfolding main execute_guest_logic
  main-commit_of [] pool_id nonempty = absurd (nonempty refl)
  main-commit_of (entry ∷ entries) pool_id nonempty =
      let sorted : List (List Byte × ℕ) = sort_entries (entry ∷ entries) in
      ap
        (λ o.
          and_then (sum_weights 0 sorted)
            (λ w. and_then o (λ r. some (committed sha256 r w (length sorted) pool_id))))
        (merkle_root-compute_merkle_root (map (leaf_of sha256) sorted))
      ∙ commit-output sorted pool_id (sum_weights 0 sorted)
          (compute_merkle_root sha256 (map (merkle_leaf sha256) sorted))

-- With a hash function of 32 bytes, a pool of 32 bytes, and at least one and fewer than 2^32 entries
-- whose weights add up to a `u64`, the program that is proved commits the bytes of the output that the
-- mock computes from the same entries, and these bytes are read back as that output.
pub main-execute_guest_logic :
    (sha256 : List Byte → List Byte) (entries : List (List Byte × ℕ)) (pool_id : List Byte)
    → ((m : List Byte) → length (sha256 m) ≡ 32)
    → length pool_id ≡ 32
    → entries ≢ []
    → length entries < 4294967296
    → entry_weight anyone entries ≤ max_weight
    → (output : DistributionOutput) × (execute_guest_logic sha256
          (record { entries = entries; pool_id = pool_id })
        ≡ some output)
      × (main sha256 entries pool_id ≡ some (to_bytes output))
      × (from_bytes (to_bytes output) ≡ output)
main-execute_guest_logic sha256 entries pool_id digest wide nonempty few fits =
    let (root, executed, size) = execute_guest_logic_lem sha256 digest entries pool_id fits in
    let output : DistributionOutput =
      output_of sha256 (sort_entries entries) pool_id (entry_weight anyone entries) root in
    let sized : IsSized output = record {
      root_length = size;
      total_weight_fits = omega arith;
      entry_count_fits = omega arith;
      pool_id_length = wide;
    } in
    (
      output,
      executed,
      main-commit_of sha256 entries pool_id nonempty
          ∙ ap (λ o. and_then o (λ x. some (commit_of sha256 x))) executed
          ∙ ap some (sym (to_bytes-append output sized)),
      (from_bytes-to_bytes output sized).0,
    )
