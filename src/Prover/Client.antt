-- ===== src/Prover/Client.antt =====
-- The mock `ProverClient` of crates/prover/src/lib.rs and the guest's logic that it runs. SHA-256 is
-- a parameter.
pub mod Guest
pub mod Laws
use craftec_core.Prover.Aggregate.{
  Receipt, Attempt, done, failed, panicked, invalid_proof, output_mismatch, max_weight, or_panic,
  aggregate_receipts,
}
use craftec_core.Prover.Merkle.{compute_merkle_root}
use craftec_core.Prover.Types.{DistributionInput, DistributionOutput, to_bytes, from_bytes}
use craftec_core.Prelude.{
  and_then, key_eq, key_lt, ℕ, ◌+◌, ◌%◌, ◌==◌, ltb, leb, if◌then◌else◌, Option, none, some, List,
  [], ◌∷◌, ◌++◌, map, length, take, drop, Byte, u8, to_le_bytes,
}

-- `sort_by(|a, b| a.0.cmp(&b.0))`, which keeps the order of entries with equal keys.
unfoldable pub insert_entry : List Byte × ℕ → List (List Byte × ℕ) → List (List Byte × ℕ)
insert_entry x [] = x ∷ []
insert_entry x (y ∷ ys) =
    let rest = insert_entry x ys in if key_lt y.0 x.0 then y ∷ rest else x ∷ y ∷ ys

unfoldable pub sort_entries : List (List Byte × ℕ) → List (List Byte × ℕ)
sort_entries [] = []
sort_entries (x ∷ xs) = insert_entry x (sort_entries xs)

-- `iter().map(|(_, w)| w).sum()`; `none` is the overflow.
unfoldable pub sum_weights : ℕ → List (List Byte × ℕ) → Option ℕ
sum_weights total [] = some total
sum_weights total (entry ∷ entries) =
    let rest = sum_weights (total + entry.1) entries in
    if leb (total + entry.1) max_weight then rest else none

pub record BatchProof : Type 0 where
  pub proof_bytes : List Byte
  pub public_inputs : List Byte

-- `b"CRAFTEC_MOCK_PROOF_V1"`
unfoldable pub mock_proof_magic : List Byte
mock_proof_magic = map u8 (
    67 ∷ 82 ∷ 65 ∷ 70 ∷ 84 ∷ 69 ∷ 67 ∷ 95 ∷ 77 ∷ 79 ∷ 67 ∷ 75 ∷ 95 ∷ 80 ∷ 82 ∷ 79 ∷ 79 ∷ 70 ∷ 95
    ∷ 86 ∷ 49 ∷ [])

-- The proof made of an output.
abbrev pub mock_proof : DistributionOutput → BatchProof
mock_proof output = record {
  proof_bytes = mock_proof_magic ++ to_bytes output;
  public_inputs = to_bytes output;
}

-- `verify_batch`
unfoldable pub verify_batch : BatchProof → Attempt DistributionOutput
verify_batch proof =
    if ltb (length proof.proof_bytes) (length mock_proof_magic + 76)
    then failed invalid_proof
    else if key_eq (take (length mock_proof_magic) proof.proof_bytes) mock_proof_magic
    then if key_eq (drop (length mock_proof_magic) proof.proof_bytes) proof.public_inputs
      then if length proof.public_inputs == 76
        then done (from_bytes proof.public_inputs)
        else failed invalid_proof
      else failed output_mismatch
    else failed invalid_proof

abbrev pub and_if_done {ℓ κ} : {A : Type ℓ} {B : Type κ} → Attempt A → (A → Attempt B) → Attempt B
and_if_done (done a) next = next a
and_if_done (failed e) next = failed e
and_if_done panicked next = panicked

module _ (sha256 : List Byte → List Byte) where
  -- `Sha256(pubkey || weight.to_le_bytes())`
  abbrev pub merkle_leaf : List Byte × ℕ → List Byte
  merkle_leaf entry = sha256 (entry.0 ++ to_le_bytes 8 entry.1)

  abbrev pub output_of : List (List Byte × ℕ) → List Byte → ℕ → List Byte → DistributionOutput
  output_of entries pool_id total_weight root = record {
    root = root;
    total_weight = total_weight;
    entry_count = length entries % 4294967296;
    pool_id = pool_id;
  }

  -- `execute_guest_logic`; `none` is a panic.
  unfoldable pub execute_guest_logic : DistributionInput → Option DistributionOutput
  execute_guest_logic input =
      let entries = sort_entries input.entries in
      and_then (sum_weights 0 entries) (λ total_weight.
        and_then (compute_merkle_root sha256 (map merkle_leaf entries))
          (λ root. some (output_of entries input.pool_id total_weight root)))

  -- `prove_batch`
  unfoldable pub prove_batch : List Receipt → List Byte → Attempt BatchProof
  prove_batch receipts pool_id = and_if_done (aggregate_receipts receipts) (λ entries.
      or_panic (execute_guest_logic (record { entries = entries; pool_id = pool_id }))
        (λ output. done (mock_proof output)))
