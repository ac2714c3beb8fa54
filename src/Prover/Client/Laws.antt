-- ===== src/Prover/Client/Laws.antt =====
-- What `prove_batch` makes, `verify_batch` accepts.
use craftec_core.Prover.Aggregate.{
  Receipt, ProverError, Attempt, done, failed, max_weight, or_panic, aggregate_receipts,
}
use craftec_core.Prover.Aggregate.Laws.{
  receipt_weight, entry_weight, anyone, aggregate_receipts-cases,
}
use craftec_core.Prover.Client.{
  sort_entries, BatchProof, mock_proof_magic, mock_proof, verify_batch, and_if_done, output_of,
  execute_guest_logic, prove_batch,
}
use craftec_core.Prover.Client.Guest.{execute_guest_logic_lem, length-sort_entries}
use craftec_core.Prover.Types.{DistributionOutput, to_bytes}
use craftec_core.Prover.Types.Laws.{IsSized, from_bytes-to_bytes}
use craftec_core.Prelude.{
  key_eq, key_eq_refl, ℕ, ◌+◌, ◌≤◌, ◌<◌, ◌==◌, ==_iff, ltb, true, false, List, ◌++◌, length, take,
  drop, take-append, drop-append, length-append, Byte, arith, ◌≡◌, ◌⊎◌, inl, inr, refl, ap, ◌∙◌,
}

pub verify_batch-mock_proof :
    (o : DistributionOutput) → IsSized o → verify_batch (mock_proof o) ≡ done o
unfolding verify_batch
verify_batch-mock_proof o sized =
    let (back, size) = from_bytes-to_bytes o sized in
    let all = length-append mock_proof_magic (to_bytes o) in
    let long : ltb (length (mock_proof_magic ++ to_bytes o)) (length mock_proof_magic + 76)
        ≡ false =
      ground (arith, all, size) in
    let head : key_eq (take (length mock_proof_magic) (mock_proof_magic ++ to_bytes o))
          mock_proof_magic
        ≡ true =
      ap (λ t. key_eq t mock_proof_magic) (take-append mock_proof_magic (to_bytes o))
      ∙ key_eq_refl mock_proof_magic in
    let tail : key_eq (drop (length mock_proof_magic) (mock_proof_magic ++ to_bytes o)) (to_bytes o)
        ≡ true =
      ap (λ t. key_eq t (to_bytes o)) (drop-append mock_proof_magic (to_bytes o))
      ∙ key_eq_refl (to_bytes o) in
    let whole : (length (to_bytes o) == 76) ≡ true = (==_iff _ _).1 size in
    rw (long, head, tail, whole) (ap done back)

-- For a hash function of 32 bytes, a pool of 32 bytes and fewer than 2^32 receipts whose weights add
-- up to a `u64`: `prove_batch` fails with the error of `aggregate_receipts`, or makes a proof that
-- `verify_batch` accepts, with the total weight of the receipts, the pool, and at most as many
-- entries as receipts.
pub prove_batch-cases :
    (sha256 : List Byte → List Byte) (receipts : List Receipt) (pool_id : List Byte)
    → ((m : List Byte) → length (sha256 m) ≡ 32)
    → length pool_id ≡ 32
    → length receipts < 4294967296
    → receipt_weight anyone receipts ≤ max_weight
    → ((e : ProverError) × (aggregate_receipts receipts ≡ failed e)
        × (prove_batch sha256 receipts pool_id ≡ failed e))
      ⊎ ((proof : BatchProof) × (output : DistributionOutput) × (prove_batch sha256 receipts pool_id
            ≡ done proof)
          × (verify_batch proof ≡ done output)
          × (output.total_weight ≡ receipt_weight anyone receipts)
          × (output.pool_id ≡ pool_id)
          × (output.entry_count ≤ length receipts))
unfolding prove_batch
prove_batch-cases sha256 receipts pool_id digest wide few fits =
    let next : List (List Byte × ℕ) → Attempt BatchProof = λ entries.
      or_panic (execute_guest_logic sha256 (record { entries = entries; pool_id = pool_id }))
        (λ output. done (mock_proof output)) in
    let refuse : (e : ProverError)
        → aggregate_receipts receipts ≡ failed e
        → prove_batch sha256 receipts pool_id ≡ failed e =
      λ e refused. ap (λ a. and_if_done a next) refused in
    elim (aggregate_receipts-cases receipts fits) [
      | inl (none_there, refused) ↦ inl (_, refused, refuse _ refused)
      | inr (inl (e, refused, first)) ↦ inl (e, refused, refuse e refused)
      | inr (inr (entries, aggregated, accepted)) ↦
          let (valid, count, weighs) = accepted in
          let total : entry_weight anyone entries ≡ receipt_weight anyone receipts =
            omega (arith, weighs anyone) in
          let (root, executed, size) =
            execute_guest_logic_lem sha256 digest entries pool_id (omega (arith, total)) in
          let output : DistributionOutput =
            output_of sha256 (sort_entries entries) pool_id (entry_weight anyone entries) root in
          let number = length-sort_entries entries in
          inr (
            mock_proof output,
            output,
            ap (λ a. and_if_done a next) aggregated
                ∙ ap (λ o. or_panic o (λ made. done (mock_proof made))) executed,
            verify_batch-mock_proof output (record {
              root_length = size;
              total_weight_fits = omega (arith, total);
              entry_count_fits = omega arith;
              pool_id_length = wide;
            }),
            total,
            refl,
            omega (arith, number, count),
          )
    ]
