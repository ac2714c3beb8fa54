-- ===== src/Aggregator/Service.antt =====
-- crates/aggregator/src/service.rs: an epoch after the other. The clock is an argument; sums and
-- products of `u64` that overflow, and a division by 0, are panics.
pub mod Pools
pub mod Laws
pub mod Window
use craftec_core.Aggregator.Batch.{
  Fallible, ok, err, PoolBatch, BuiltTransaction, build_batch, build_post_distribution,
}
use craftec_core.Aggregator.Collector.{
  Directory, ReceiptCollector, set_persist_dir, pools, take_receipts, reset, u64_add,
}
use craftec_core.Aggregator.Collector as Collector
use craftec_core.Settlement.Accounts.{StorageReceipt}
use craftec_core.Settlement.Fee.{u64_max}
use craftec_core.Settlement.Instruction.{Bincode}
use craftec_core.Prelude.{
  ℕ, zero, suc, ◌+◌, ◌*◌, ◌/◌, ◌%◌, ◌==◌, leb, ltb, if◌then◌else◌, Bool, Option, none, some,
  and_then, List, [], ◌∷◌, ◌++◌, map, Byte, u8,
}

pub record AggregatorConfig : Type 0 where
  pub epoch_duration_secs : ℕ
  pub grace_period_secs : ℕ
  pub program_id : List Byte
  pub max_batch_size : ℕ
  pub data_dir : Option Directory
  pub solana_rpc_url : Option (List Byte)
  pub submit_claims : Bool

pub record AggregatorService : Type 0 where
  pub config : AggregatorConfig
  pub collector : ReceiptCollector
  pub current_epoch : ℕ

-- A product of `u64`, and a quotient.
abbrev pub u64_mul : ℕ → ℕ → Option ℕ
u64_mul a b = if leb (a * b) u64_max then some (a * b) else none

abbrev pub u64_div : ℕ → ℕ → Option ℕ
u64_div a b = if b == 0 then none else some (a / b)

-- `align_to_epoch`
abbrev pub align_to_epoch : ℕ → ℕ → Option ℕ
align_to_epoch timestamp epoch_duration =
    and_then (u64_div timestamp epoch_duration) (λ epoch. u64_mul epoch epoch_duration)

-- The decimal text of a number with at most `fuel` digits, before `rest`.
unfoldable pub digits : ℕ → ℕ → List Byte → List Byte
digits zero n rest = rest
digits (suc fuel) n rest =
    let more = digits fuel (n / 10) (u8 (48 + n % 10) ∷ rest) in
    if ltb n 10 then u8 (48 + n) ∷ rest else more

-- `format!("epoch_{}", epoch)`; a `u64` has at most 20 digits.
unfoldable pub epoch_name : ℕ → List Byte
epoch_name epoch = map u8 (101 ∷ 112 ∷ 111 ∷ 99 ∷ 104 ∷ 95 ∷ []) ++ digits 20 epoch []

-- `set_persist_dir` of the epoch's directory, if there is a data directory.
abbrev pub persist_epoch : Option Directory → ℕ → ReceiptCollector → ReceiptCollector
persist_epoch none epoch s = s
persist_epoch (some dir) epoch s = set_persist_dir (dir ++ epoch_name epoch ∷ []) s

-- `AggregatorService::new`, at the time `now`.
unfoldable pub new_service : AggregatorConfig → ℕ → Option AggregatorService
new_service config now = and_then (align_to_epoch now config.epoch_duration_secs) (λ epoch_start.
    and_then (u64_add epoch_start config.epoch_duration_secs) (λ epoch_end.
      and_then (u64_div epoch_start config.epoch_duration_secs) (λ epoch. some (record {
        config = config;
        collector =
            persist_epoch config.data_dir epoch
              (Collector.new epoch_start epoch_end config.grace_period_secs);
        current_epoch = epoch;
      }))))

-- `new_with_epoch`
unfoldable pub new_with_epoch : AggregatorConfig → ℕ → ℕ → Option AggregatorService
new_with_epoch config epoch_start epoch_end =
    and_then (u64_div epoch_start config.epoch_duration_secs) (λ epoch. some (record {
      config = config;
      collector = Collector.new epoch_start epoch_end config.grace_period_secs;
      current_epoch = epoch;
    }))

-- `advance_epoch`
unfoldable pub advance_epoch : AggregatorService → Option AggregatorService
advance_epoch s = and_then (u64_add s.current_epoch 1) (λ epoch.
    and_then (u64_mul epoch s.config.epoch_duration_secs) (λ epoch_start.
      and_then (u64_add epoch_start s.config.epoch_duration_secs) (λ epoch_end. some (record {
        config = s.config;
        collector = persist_epoch s.config.data_dir epoch (reset epoch_start epoch_end s.collector);
        current_epoch = epoch;
      }))))

-- What the service and its results are after a call.
pub record Processed : Type 0 where
  pub service : AggregatorService
  pub results : List (Fallible BuiltTransaction)

abbrev pub cons_result :
    Fallible BuiltTransaction
    → Option (List (Fallible BuiltTransaction))
    → Option (List (Fallible BuiltTransaction))
cons_result r none = none
cons_result r (some results) = some (r ∷ results)

-- The collector that the loop over the pools leaves.
unfoldable pub take_all : List (List Byte) → ReceiptCollector → ReceiptCollector
take_all [] s = s
take_all (pool ∷ rest) s = take_all rest (take_receipts pool s).0

abbrev pub with_collector : ReceiptCollector → AggregatorService → AggregatorService
with_collector collector s = record {
  config = s.config;
  collector = collector;
  current_epoch = s.current_epoch;
}

module _ (sha256 : List Byte → List Byte) (bincode : Bincode) where
  abbrev pub post_batch : Fallible PoolBatch → Fallible BuiltTransaction
  post_batch (ok batch) = ok (build_post_distribution bincode batch)
  post_batch (err e) = err e

  -- The body of the loop over the pools, before the results of the later pools.
  abbrev pub process_receipts :
      List Byte
      → List StorageReceipt
      → Option (List (Fallible BuiltTransaction))
      → Option (List (Fallible BuiltTransaction))
  process_receipts pool [] later = later
  process_receipts pool (r ∷ receipts) later =
      and_then (build_batch sha256 pool (r ∷ receipts))
        (λ batch. cons_result (post_batch batch) later)

  -- The loop over the pools.
  unfoldable pub process_pools :
      List (List Byte) → ReceiptCollector → Option (List (Fallible BuiltTransaction))
  process_pools [] s = some []
  process_pools (pool ∷ rest) s =
      process_receipts pool (take_receipts pool s).1 (process_pools rest (take_receipts pool s).0)

  -- `process_epoch_end`
  unfoldable pub process_epoch_end : AggregatorService → Option Processed
  process_epoch_end s = and_then (process_pools (pools s.collector) s.collector) (λ results.
      and_then (advance_epoch (with_collector (take_all (pools s.collector) s.collector) s))
        (λ next. some (record { service = next; results = results })))
