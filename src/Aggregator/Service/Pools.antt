-- ===== src/Aggregator/Service/Pools.antt =====
-- The loop over the pools in `process_epoch_end` of crates/aggregator/src/service.rs.
use craftec_core.Aggregator.Batch.{ok, BuiltTransaction, as_receipt, build_post_distribution}
use craftec_core.Aggregator.Batch.Laws.{build_batch_lem}
use craftec_core.Aggregator.Collector.{ReceiptCollector, with_receipts, count_entries, or_default}
use craftec_core.Aggregator.Collector.Distinct.{Distinct}
use craftec_core.Aggregator.Service.{cons_result, post_batch, process_receipts, process_pools}
use craftec_core.Maps.{get, remove}
use craftec_core.Prover.Aggregate.{check_receipt}
use craftec_core.Prover.Aggregate.Laws.{entry_weight, receipt_weight}
use craftec_core.Settlement.Accounts.{StorageReceipt}
use craftec_core.Settlement.Instruction.{Bincode}
use craftec_core.Prelude.{
  ℕ, ◌+◌, ◌<◌, Bool, false, none, some, and_then, List, [], ◌∷◌, map, length, All, Byte, key_eq,
  key_eq_refl, arith, ◌≡◌, refl, ap, ap₂, ◌∙◌,
}

-- What the receipts of the operators that pass a test weigh, and what the transactions give them.
abbrev pub owed : (List Byte → Bool) → List (List Byte × List StorageReceipt) → ℕ
owed test [] = 0
owed test (entry ∷ m) = receipt_weight test (map as_receipt entry.1) + owed test m

abbrev pub paid : (List Byte → Bool) → List BuiltTransaction → ℕ
paid test [] = 0
paid test (tx ∷ txs) = entry_weight test tx.weights + paid test txs

-- What the prover asks of the receipts of a pool.
abbrev pub IsProvable : List Byte × List StorageReceipt → Type 0
IsProvable entry =
    (length entry.0 ≡ 32) × All (λ r. check_receipt r ≡ none) (map as_receipt entry.1)

pub get_self :
    (entry : List Byte × List StorageReceipt) (m : List (List Byte × List StorageReceipt))
    → get key_eq (entry ∷ m) entry.0 ≡ some entry.1
unfolding get
get_self entry m = rw (key_eq_refl entry.0) refl

pub remove_absent :
    (k : List Byte) (m : List (List Byte × List StorageReceipt))
    → All (λ e. key_eq e.0 k ≡ false) m
    → remove key_eq k m ≡ m
unfolding remove
remove_absent k [] all = refl
remove_absent k (entry ∷ m) all = rw all.0 (ap (◌∷◌ entry) (remove_absent k m all.1))

pub remove_self :
    (entry : List Byte × List StorageReceipt) (m : List (List Byte × List StorageReceipt))
    → Distinct (entry ∷ m)
    → remove key_eq entry.0 (entry ∷ m) ≡ m
unfolding remove
remove_self entry m d = rw (key_eq_refl entry.0) (remove_absent entry.0 m d.0)

module _ (sha256 : List Byte → List Byte) (bincode : Bincode) where
  -- The receipts of one pool are paid, before those of the later pools.
  pub process_receipts_lem :
      (pool : List Byte) (receipts : List StorageReceipt) (later : List BuiltTransaction)
      → ((m : List Byte) → length (sha256 m) ≡ 32)
      → length receipts < 4294967296
      → IsProvable (pool, receipts)
      → (txs : List BuiltTransaction) × (process_receipts sha256 bincode pool receipts
            (some (map ok later))
          ≡ some (map ok txs))
        × ((test : List Byte → Bool)
            → paid test txs ≡ receipt_weight test (map as_receipt receipts) + paid test later)
  process_receipts_lem pool [] later digest few fine = (later, refl, λ test. omega arith)
  process_receipts_lem pool (r ∷ rest) later digest few fine =
      let (batch, output, built, verified, total, heavy, same, of_pool, root, weighs) =
        build_batch_lem sha256 pool (r ∷ rest) digest fine.0
          (λ e. omega (arith, ap (λ (xs : List StorageReceipt). length xs) e)) few fine.1 in
      (
        build_post_distribution bincode batch ∷ later,
        ap (λ o. and_then o (λ b. cons_result (post_batch sha256 bincode b) (some (map ok later))))
            built,
        λ test. omega (arith, weighs test),
      )

  pub process_pools_lem :
      (m : List (List Byte × List StorageReceipt)) (s : ReceiptCollector)
      → ((x : List Byte) → length (sha256 x) ≡ 32)
      → Distinct m
      → count_entries m < 4294967296
      → All IsProvable m
      → (txs : List BuiltTransaction) × (process_pools sha256 bincode
            (map (λ e. e.0) m)
            (with_receipts m s)
          ≡ some (map ok txs))
        × ((test : List Byte → Bool) → paid test txs ≡ owed test m)
  unfolding process_pools
  process_pools_lem [] s digest d few fine = ([], refl, λ test. refl)
  process_pools_lem (entry ∷ m) s digest d few fine =
      let (later, processed, owes) = process_pools_lem m s digest d.1 (omega arith) fine.1 in
      let (txs, made, pays) =
        process_receipts_lem entry.0 entry.1 later digest (omega arith) fine.0 in
      let next : process_pools sha256 bincode (map (λ e. e.0) m)
            (with_receipts (remove key_eq entry.0 (entry ∷ m)) s)
          ≡ some (map ok later) =
        ap (λ left. process_pools sha256 bincode (map (λ e. e.0) m) (with_receipts left s))
          (remove_self entry m d)
        ∙ processed in
      (
        txs,
        ap₂ (λ o rest. process_receipts sha256 bincode entry.0 (or_default o) rest)
              (get_self entry m) next
            ∙ made,
        λ test. omega (arith, pays test, owes test),
      )
