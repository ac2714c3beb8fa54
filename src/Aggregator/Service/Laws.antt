-- ===== src/Aggregator/Service/Laws.antt =====
-- `process_epoch_end` of crates/aggregator/src/service.rs: who is paid, and the next epoch.
use craftec_core.Aggregator.Service.Pools.{owed, paid, IsProvable, process_pools_lem}
use craftec_core.Aggregator.Batch.{ok, BuiltTransaction, as_receipt}
use craftec_core.Aggregator.Collector.{
  Directory, Externals, ReceiptCollector, receipt_count, pools, take_receipts, reset,
}
use craftec_core.Aggregator.Collector.Cases.{IsValid}
use craftec_core.Aggregator.Collector.Distinct.{Reachable-Distinct}
use craftec_core.Aggregator.Collector.Invariant.{Reachable, IsVerified-Reachable}
use craftec_core.Aggregator.Service.{
  AggregatorService, persist_epoch, advance_epoch, process_epoch_end, take_all, with_collector,
}
use craftec_core.Prover.Aggregate.{check_receipt, zero_key}
use craftec_core.Settlement.Accounts.{StorageReceipt}
use craftec_core.Settlement.Fee.{u64_max}
use craftec_core.Settlement.Instruction.{Bincode}
use craftec_core.Prelude.{
  ℕ, ◌+◌, ◌*◌, ◌≤◌, ◌<◌, ◌==◌, leb, Bool, true, false, Option, none, some, and_then, List, [], ◌∷◌,
  map, length, All, Byte, key_eq, arith, ◌≡◌, refl, ap, ◌∙◌,
}

check_receipt-as_receipt :
    (epoch_start deadline : ℕ) (r : StorageReceipt)
    → 0 < epoch_start
    → epoch_start ≤ r.timestamp
    → key_eq r.storage_node zero_key ≡ false
    → check_receipt (as_receipt r) ≡ none
unfolding check_receipt
check_receipt-as_receipt epoch_start deadline r positive after has_node =
    let timed : (r.timestamp == 0) ≡ false = ground arith in rw (timed, has_node) refl

module _ {Disk : Type 0} (lib : Externals Disk) where
  valid-check_receipt :
      (s : ReceiptCollector) (receipts : List StorageReceipt)
      → 0 < s.epoch_start
      → All (IsValid lib s) receipts
      → All (λ r. check_receipt r ≡ none) (map as_receipt receipts)
  valid-check_receipt s [] positive all = tt
  valid-check_receipt s (r ∷ receipts) positive all = (
    check_receipt-as_receipt s.epoch_start 0 r positive all.0.after_start all.0.has_node,
    valid-check_receipt s receipts positive all.1,
  )

  valid-IsProvable :
      (s : ReceiptCollector) (m : List (List Byte × List StorageReceipt))
      → 0 < s.epoch_start
      → All (λ pool. length pool ≡ 32) (map (λ e. e.0) m)
      → All (λ entry. All (IsValid lib s) entry.1) m
      → All IsProvable m
  valid-IsProvable s [] positive wide all = tt
  valid-IsProvable s (entry ∷ m) positive wide all = (
    (wide.0, valid-check_receipt s entry.1 positive all.0),
    valid-IsProvable s m positive wide.1 all.1,
  )

-- The next epoch follows the present one, without receipts.
pub IsNextEpoch : AggregatorService → AggregatorService → Type 0
IsNextEpoch s t =
    (t.current_epoch ≡ s.current_epoch + 1)
    × (t.collector.epoch_start ≡ (s.current_epoch + 1) * s.config.epoch_duration_secs)
    × (t.collector.epoch_end
        ≡ (s.current_epoch + 1) * s.config.epoch_duration_secs + s.config.epoch_duration_secs)
    × (t.collector.pool_receipts ≡ [])
    × (t.collector.seen ≡ [])
    × (t.collector.cid_to_pool ≡ s.collector.cid_to_pool)

persist_epoch-IsNextEpoch :
    (dir : Option Directory) (s : AggregatorService) (c : ReceiptCollector) (epoch start : ℕ)
    → epoch ≡ s.current_epoch + 1
    → start ≡ (s.current_epoch + 1) * s.config.epoch_duration_secs
    → c.cid_to_pool ≡ s.collector.cid_to_pool
    → IsNextEpoch s (record {
      config = s.config;
      collector = persist_epoch dir epoch (reset start (start + s.config.epoch_duration_secs) c);
      current_epoch = epoch;
    })
unfolding IsNextEpoch
persist_epoch-IsNextEpoch none s c epoch start e f g =
    (e, f, ap (λ n. n + s.config.epoch_duration_secs) f, refl, refl, g)
persist_epoch-IsNextEpoch (some dir) s c epoch start e f g =
    (e, f, ap (λ n. n + s.config.epoch_duration_secs) f, refl, refl, g)

take_all-cid_to_pool :
    (pools' : List (List Byte)) (c : ReceiptCollector)
    → (take_all pools' c).cid_to_pool ≡ c.cid_to_pool
unfolding take_all
take_all-cid_to_pool [] c = refl
take_all-cid_to_pool (pool ∷ rest) c = take_all-cid_to_pool rest (take_receipts pool c).0

advance_epoch_lem :
    (s : AggregatorService) (c : ReceiptCollector)
    → s.current_epoch + 1 ≤ u64_max
    → (s.current_epoch + 1) * s.config.epoch_duration_secs + s.config.epoch_duration_secs ≤ u64_max
    → c.cid_to_pool ≡ s.collector.cid_to_pool
    → (t : AggregatorService) × (advance_epoch (with_collector c s) ≡ some t) × IsNextEpoch s t
unfolding advance_epoch
advance_epoch_lem s c few fits same =
    let epoch : ℕ = s.current_epoch + 1 in
    let d : ℕ = s.config.epoch_duration_secs in
    let first : leb (s.current_epoch + 1) u64_max ≡ true = ground arith in
    let product : leb (epoch * d) u64_max ≡ true = ground arith in
    let last : leb (epoch * d + d) u64_max ≡ true = ground arith in
    (
      _,
      rw (first, product, last) refl,
      persist_epoch-IsNextEpoch s.config.data_dir s c epoch (epoch * d) refl refl same,
    )

-- Let the collector of a service be made by calls other than `load_persisted`, in an epoch that does
-- not start at 0, with pools of 32 bytes and fewer than 2^32 receipts; let digests have 32 bytes, and
-- let the end of the next epoch fit a `u64`. Then `process_epoch_end` returns, without an error for
-- any pool. The weights of the transactions pay any group of operators what its receipts weigh, and
-- the service is in the next epoch, without receipts.
pub process_epoch_end-paid :
    {Disk : Type 0} (lib : Externals Disk) (bincode : Bincode) (s : AggregatorService)
    (test : List Byte → Bool)
    → ((m : List Byte) → length (lib.sha256 m) ≡ 32)
    → Reachable lib false s.collector
    → 0 < s.collector.epoch_start
    → All (λ pool. length pool ≡ 32) (pools s.collector)
    → receipt_count s.collector < 4294967296
    → s.current_epoch + 1 ≤ u64_max
    → (s.current_epoch + 1) * s.config.epoch_duration_secs + s.config.epoch_duration_secs ≤ u64_max
    → (txs : List BuiltTransaction) × (t : AggregatorService) × (process_epoch_end lib.sha256
          bincode s
        ≡ some (record { service = t; results = map ok txs }))
      × (paid test txs ≡ owed test s.collector.pool_receipts)
      × IsNextEpoch s t
unfolding process_epoch_end
process_epoch_end-paid lib bincode s test digest reached positive wide few next fits =
    let c = s.collector in
    let provable =
      valid-IsProvable lib c c.pool_receipts positive wide (IsVerified-Reachable lib c reached) in
    let (txs, processed, pays) =
      process_pools_lem lib.sha256 bincode c.pool_receipts c digest
        (Reachable-Distinct lib c reached) few provable in
    let left = take_all (pools c) c in
    let (t, advanced, after) =
      advance_epoch_lem s left next fits (take_all-cid_to_pool (pools c) c) in
    (
      txs,
      t,
      ap
            (λ o. and_then o (λ results.
              and_then (advance_epoch (with_collector left s))
                (λ u. some (record { service = u; results = results }))))
            processed
          ∙ ap (λ o. and_then o (λ u. some (record { service = u; results = map ok txs })))
              advanced,
      pays test,
      after,
    )
