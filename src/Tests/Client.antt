-- ===== src/Tests/Client.antt =====
-- Inputs for the theorems on the aggregation and the mock client of crates/prover.
use craftec_core.Prover.Aggregate.{
  Receipt, ProverError, done, failed, empty_batch, aggregate_receipts,
}
use craftec_core.Prover.Aggregate.Laws.{
  receipt_weight, anyone, IsRefused, IsAccepted, aggregate_receipts-cases,
}
use craftec_core.Prover.Program.{main}
use craftec_core.Prover.Program.Laws.{main-execute_guest_logic}
use craftec_core.Prover.Client.{BatchProof, execute_guest_logic, prove_batch, verify_batch}
use craftec_core.Prover.Client.Laws.{prove_batch-cases}
use craftec_core.Prover.Types.{DistributionOutput, to_bytes, from_bytes}
use craftec_core.Prelude.{
  ℕ, ◌≤◌, List, [], ◌∷◌, length, length-replicate, replicate, Byte, u8, arith, ◌≡◌, ◌⊎◌, refl, some,
  ap,
}

abbrev receipts : List Receipt
receipts =
    record { operator = replicate 32 (u8 1); weight = 100; timestamp = 1000 }
    ∷ record { operator = replicate 32 (u8 2); weight = 250; timestamp = 1001 }
    ∷ record { operator = replicate 32 (u8 1); weight = 50; timestamp = 1002 }
    ∷ []

aggregate_receipts-cases_example :
    ((receipts ≡ []) × (aggregate_receipts receipts ≡ failed empty_batch))
    ⊎ (((e : ProverError) × (aggregate_receipts receipts ≡ failed e) × IsRefused receipts e)
        ⊎ ((entries : List (List Byte × ℕ)) × (aggregate_receipts receipts ≡ done entries)
            × IsAccepted [] receipts entries))
aggregate_receipts-cases_example = aggregate_receipts-cases receipts (omega arith)

-- A stand-in for SHA-256: 32 bytes that depend on the length of the message.
abbrev digest : List Byte → List Byte
digest m = replicate 32 (u8 (length m))

length-digest : (m : List Byte) → length (digest m) ≡ 32
length-digest m = length-replicate 32 (u8 (length m))

abbrev pool : List Byte
pool = replicate 32 (u8 170)

prove_batch-cases_example :
    ((e : ProverError) × (aggregate_receipts receipts ≡ failed e)
      × (prove_batch digest receipts pool ≡ failed e))
    ⊎ ((proof : BatchProof) × (output : DistributionOutput) × (prove_batch digest receipts pool
          ≡ done proof)
        × (verify_batch proof ≡ done output)
        × (output.total_weight ≡ receipt_weight anyone receipts)
        × (output.pool_id ≡ pool)
        × (output.entry_count ≤ length receipts))
prove_batch-cases_example =
    prove_batch-cases digest receipts pool length-digest refl (omega arith) (omega arith)

abbrev entries : List (List Byte × ℕ)
entries = (replicate 32 (u8 2), 250) ∷ (replicate 32 (u8 1), 150) ∷ (replicate 32 (u8 3), 7) ∷ []

main-execute_guest_logic_example :
    (output : DistributionOutput) × (execute_guest_logic digest
        (record { entries = entries; pool_id = pool })
      ≡ some output)
    × (main digest entries pool ≡ some (to_bytes output))
    × (from_bytes (to_bytes output) ≡ output)
main-execute_guest_logic_example =
    main-execute_guest_logic digest entries pool length-digest refl
      (λ e. omega (arith, ap (λ (xs : List (List Byte × ℕ)). length xs) e)) (omega arith)
      (omega arith)
