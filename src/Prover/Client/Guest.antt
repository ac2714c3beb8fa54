-- ===== src/Prover/Client/Guest.antt =====
-- The guest's logic on entries whose weights add up to a `u64`.
use craftec_core.Prover.Aggregate.{max_weight}
use craftec_core.Prover.Aggregate.Laws.{entry_weight, anyone}
use craftec_core.Prover.Client.{
  insert_entry, sort_entries, sum_weights, merkle_leaf, output_of, execute_guest_logic,
}
use craftec_core.Prover.Merkle.{compute_merkle_root, zero_hash}
use craftec_core.Prover.Merkle.Laws.{tree_root, compute_merkle_root-tree_root}
use craftec_core.Prelude.{
  and_then, key_lt, ℕ, zero, suc, ◌+◌, ◌≤◌, leb, true, some, List, [], ◌∷◌, map, length,
  length-replicate, get_or, Byte, zero_byte, arith, ◌≡◌, refl, ap, ◌∙◌, Bool-cases, inl, inr,
}

length-insert_entry :
    (x : List Byte × ℕ) (ys : List (List Byte × ℕ)) → length (insert_entry x ys) ≡ suc (length ys)
unfolding insert_entry
length-insert_entry x [] = refl
length-insert_entry x (y ∷ ys) = elim (Bool-cases (key_lt y.0 x.0)) [
  | inl e ↦ rw e (ap suc (length-insert_entry x ys))
  | inr e ↦ rw e refl
]

pub length-sort_entries : (xs : List (List Byte × ℕ)) → length (sort_entries xs) ≡ length xs
unfolding sort_entries
length-sort_entries [] = refl
length-sort_entries (x ∷ xs) =
    length-insert_entry x (sort_entries xs) ∙ ap suc (length-sort_entries xs)

entry_weight-insert_entry :
    (x : List Byte × ℕ) (ys : List (List Byte × ℕ))
    → entry_weight anyone (insert_entry x ys) ≡ x.1 + entry_weight anyone ys
unfolding insert_entry
entry_weight-insert_entry x [] = refl
entry_weight-insert_entry x (y ∷ ys) = elim (Bool-cases (key_lt y.0 x.0)) [
  | inl e ↦ rw e (omega (arith, entry_weight-insert_entry x ys))
  | inr e ↦ rw e refl
]

pub entry_weight-sort_entries :
    (xs : List (List Byte × ℕ)) → entry_weight anyone (sort_entries xs) ≡ entry_weight anyone xs
unfolding sort_entries
entry_weight-sort_entries [] = refl
entry_weight-sort_entries (x ∷ xs) =
    omega (arith, entry_weight-insert_entry x (sort_entries xs), entry_weight-sort_entries xs)

pub sum_weights_lem :
    (total : ℕ) (entries : List (List Byte × ℕ))
    → total + entry_weight anyone entries ≤ max_weight
    → sum_weights total entries ≡ some (total + entry_weight anyone entries)
unfolding sum_weights
sum_weights_lem total [] h = ap some (omega arith)
sum_weights_lem total (entry ∷ entries) h =
    let fits : leb (total + entry.1) max_weight ≡ true = ground arith in
    let same : total + entry.1 + entry_weight anyone entries
        ≡ total + (entry.1 + entry_weight anyone entries) =
      omega arith in
    rw fits (sum_weights_lem (total + entry.1) entries (omega arith) ∙ ap some same)

module _ (sha256 : List Byte → List Byte) (digest : (m : List Byte) → length (sha256 m) ≡ 32) where
  length-tree_root :
      (d : ℕ) (f : ℕ → List Byte) (o : ℕ)
      → ((i : ℕ) → length (f i) ≡ 32)
      → length (tree_root sha256 d f o) ≡ 32
  unfolding tree_root
  length-tree_root zero f o h = h o
  length-tree_root (suc d) f o h = digest _

  length-leaf :
      (entries : List (List Byte × ℕ)) (i : ℕ)
      → length (get_or (map (merkle_leaf sha256) entries) i zero_hash) ≡ 32
  length-leaf [] i = length-replicate 32 zero_byte
  length-leaf (entry ∷ entries) zero = digest _
  length-leaf (entry ∷ entries) (suc i) = length-leaf entries i

  -- The root always exists, and has 32 bytes.
  root_of :
      (leaves : List (List Byte))
      → ((i : ℕ) → length (get_or leaves i zero_hash) ≡ 32)
      → (root : List Byte) × (compute_merkle_root sha256 leaves ≡ some root) × (length root ≡ 32)
  unfolding compute_merkle_root
  root_of [] h = (zero_hash, refl, length-replicate 32 zero_byte)
  root_of (leaf ∷ leaves) h =
      let (d, low, high, root) =
        compute_merkle_root-tree_root sha256 (leaf ∷ leaves)
          (λ e. omega (arith, ap (λ xs. length xs) e)) in
      (
        tree_root sha256 d (λ i. get_or (leaf ∷ leaves) i zero_hash) 0,
        root,
        length-tree_root d (λ i. get_or (leaf ∷ leaves) i zero_hash) 0 h,
      )

  -- The guest does not panic, and its root has 32 bytes.
  pub execute_guest_logic_lem :
      (entries : List (List Byte × ℕ)) (pool_id : List Byte)
      → entry_weight anyone entries ≤ max_weight
      → (root : List Byte) × (execute_guest_logic sha256
            (record { entries = entries; pool_id = pool_id })
          ≡ some
              (output_of sha256 (sort_entries entries) pool_id (entry_weight anyone entries) root))
        × (length root ≡ 32)
  unfolding execute_guest_logic
  execute_guest_logic_lem entries pool_id h =
      let sorted = sort_entries entries in
      let leaves = map (merkle_leaf sha256) sorted in
      let (root, computed, size) = root_of leaves (length-leaf sorted) in
      let total = entry_weight-sort_entries entries in
      let summed : sum_weights 0 sorted ≡ some (entry_weight anyone entries) =
        sum_weights_lem 0 sorted (omega (arith, total)) ∙ ap some (omega (arith, total)) in
      (
        root,
        ap
              (λ o. and_then o (λ w.
                and_then (compute_merkle_root sha256 leaves)
                  (λ r. some (output_of sha256 sorted pool_id w r))))
              summed
            ∙ ap
                (λ o.
                  and_then o
                    (λ r. some (output_of sha256 sorted pool_id (entry_weight anyone entries) r)))
                computed,
        size,
      )
