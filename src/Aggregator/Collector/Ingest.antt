-- ===== src/Aggregator/Collector/Ingest.antt =====
-- `ReceiptCollector::ingest` and what calls it, of crates/aggregator/src/collector.rs.
use craftec_core.Aggregator.Collector.{
  AggregatorError, invalid_signature, timestamp_out_of_range, duplicate_receipt, unknown_pool,
  serialization, Directory, Externals, ReceiptCollector, contains, accept, u64_add,
}
use craftec_core.Aggregator.Collector.Files.{persist_receipt}
use craftec_core.Maps.{get}
use craftec_core.Prover.Aggregate.{zero_key}
use craftec_core.Settlement.Accounts.{StorageReceipt, dedup_hash, signable_bytes}
use craftec_core.Prelude.{
  ℕ, ◌+◌, ◌==◌, ltb, leb, if◌then◌else◌, ◌||◌, Option, none, some, and_then, List, [], ◌∷◌, length,
  Byte, key_eq,
}

-- The collector and the disk after a call, and its error if it is refused.
pub record Ingested (Disk : Type 0) : Type 0 where
  pub collector : ReceiptCollector
  pub disk : Disk
  pub error : Option AggregatorError

module _ {Disk : Type 0} (lib : Externals Disk) where
  -- `verify_receipt_signature`: the error, if there is one.
  unfoldable pub verify_receipt_signature : StorageReceipt → Option AggregatorError
  verify_receipt_signature r =
      if lib.is_verifying_key r.challenger
      then if length r.signature == 64
        then if lib.verify_strict r.challenger (signable_bytes r) r.signature
          then none
          else some invalid_signature
        else some invalid_signature
      else some invalid_signature

  -- The disk after an attempt to persist, whose error is only logged.
  abbrev pub persist : Option Directory → List Byte → StorageReceipt → Disk → Disk
  persist none pool r disk = disk
  persist (some dir) pool r disk = (persist_receipt lib dir pool r disk).0

  abbrev pub refuse : ReceiptCollector → Disk → AggregatorError → Ingested Disk
  refuse s disk e = record { collector = s; disk = disk; error = some e }

  -- From the pool mapping on.
  abbrev pub ingest_for :
      Option (List Byte) → StorageReceipt → ReceiptCollector → Disk → Ingested Disk
  ingest_for none r s disk = refuse s disk unknown_pool
  ingest_for (some pool) r s disk = record {
    collector = accept (dedup_hash lib.sha256 r) pool r s;
    disk = persist s.persist_dir pool r disk;
    error = none;
  }

  -- From the signature on.
  abbrev pub ingest_verified :
      Option AggregatorError → StorageReceipt → ReceiptCollector → Disk → Ingested Disk
  ingest_verified (some e) r s disk = refuse s disk e
  ingest_verified none r s disk = ingest_for (get key_eq s.cid_to_pool r.content_id) r s disk

  -- The checks, with the end of the grace period.
  unfoldable pub ingest_before : ℕ → StorageReceipt → ReceiptCollector → Disk → Ingested Disk
  ingest_before deadline r s disk =
      if ltb r.timestamp s.epoch_start || leb deadline r.timestamp
      then refuse s disk (timestamp_out_of_range r.timestamp s.epoch_start deadline)
      else if key_eq r.storage_node zero_key || key_eq r.content_id zero_key
      then refuse s disk invalid_signature
      else if contains s.seen (dedup_hash lib.sha256 r)
      then refuse s disk (duplicate_receipt (lib.encode (dedup_hash lib.sha256 r)))
      else ingest_verified (verify_receipt_signature r) r s disk

  -- `ingest`
  unfoldable pub ingest : StorageReceipt → ReceiptCollector → Disk → Option (Ingested Disk)
  ingest r s disk =
      and_then (u64_add s.epoch_end s.grace_secs)
        (λ deadline. some (ingest_before deadline r s disk))

  abbrev pub ingest_read : Option StorageReceipt → ReceiptCollector → Disk → Option (Ingested Disk)
  ingest_read none s disk = some (refuse s disk serialization)
  ingest_read (some r) s disk = ingest r s disk

  -- `process_receipt_message`
  abbrev pub process_receipt_message : List Byte → ReceiptCollector → Disk → Option (Ingested Disk)
  process_receipt_message data' s disk = ingest_read (lib.deserialize data') s disk

  -- `count += 1` for a message without an error.
  abbrev pub count_of : Option AggregatorError → ℕ
  count_of none = 1
  count_of (some e) = 0

  -- `drain_channel`, of the messages that are pending, from a count on.
  unfoldable pub drain_channel :
      List (List Byte) → ℕ → ReceiptCollector → Disk → Option (ReceiptCollector × Disk × ℕ)
  drain_channel [] count s disk = some (s, disk, count)
  drain_channel (data' ∷ rx) count s disk =
      and_then (process_receipt_message data' s disk)
        (λ a. drain_channel rx (count + count_of a.error) a.collector a.disk)
