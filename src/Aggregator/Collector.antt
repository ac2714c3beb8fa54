-- ===== src/Aggregator/Collector.antt =====
-- crates/aggregator/src/collector.rs: the receipts of an epoch, by pool. A `HashSet` is a list of its
-- elements; the texts in errors of bincode and of the file system are left out. The crates that are
-- called, and the file system, are the fields of `Externals`.
pub mod Files
pub mod Ingest
pub mod Counts
pub mod Cases
pub mod Invariant
pub mod Distinct
pub mod Drain
pub mod Reload
use craftec_core.Maps.{get, insert, remove}
use craftec_core.Prover.Aggregate.{ProverError, zero_key}
use craftec_core.Settlement.Accounts.{StorageReceipt, dedup_hash, signable_bytes}
use craftec_core.Settlement.Fee.{u64_max}
use craftec_core.Prelude.{
  ℕ, ◌+◌, ◌==◌, ltb, leb, if◌then◌else◌, Bool, true, false, ◌||◌, Option, none, some, and_then,
  List, [], ◌∷◌, ◌++◌, map, flatten, length, Byte, key_eq,
}

pub data AggregatorError : Type 0 where
  invalid_signature : AggregatorError
  timestamp_out_of_range : ℕ → ℕ → ℕ → AggregatorError
  duplicate_receipt : List Byte → AggregatorError
  unknown_pool : AggregatorError
  prover : ProverError → AggregatorError
  empty_batch serialization : AggregatorError

-- A directory is the list of its names.
abbrev pub Directory : Type 0
Directory = List (List Byte)

-- SHA-256 and `hex::encode`; `VerifyingKey::from_bytes` and `verify_strict`; bincode of a receipt and
-- of a vector of them; and calls of the file system, which may fail. A file is a directory and a name.
pub record Externals (Disk : Type 0) : Type 0 where
  pub sha256 : List Byte → List Byte
  pub encode : List Byte → List Byte
  pub is_verifying_key : List Byte → Bool
  pub verify_strict : List Byte → List Byte → List Byte → Bool
  pub serialize : StorageReceipt → Option (List Byte)
  pub deserialize : List Byte → Option StorageReceipt
  pub deserialize_all : List Byte → Option (List StorageReceipt)
  pub create_dir_all : Directory → Disk → Disk × Bool
  pub open_append : Directory → List Byte → Disk → Disk × Bool
  pub write_all : Directory → List Byte → List Byte → Disk → Disk × Bool
  pub read_dir : Directory → Disk → Option (List (List Byte))
  pub read : Directory → List Byte → Disk → Option (List Byte)

pub record ReceiptCollector : Type 0 where
  pub pool_receipts : List (List Byte × List StorageReceipt)
  pub seen : List (List Byte)
  pub epoch_start : ℕ
  pub epoch_end : ℕ
  pub grace_secs : ℕ
  pub cid_to_pool : List (List Byte × List Byte)
  pub persist_dir : Option Directory

-- `new`
abbrev pub new : ℕ → ℕ → ℕ → ReceiptCollector
new epoch_start epoch_end grace_secs = record {
  pool_receipts = [];
  seen = [];
  epoch_start = epoch_start;
  epoch_end = epoch_end;
  grace_secs = grace_secs;
  cid_to_pool = [];
  persist_dir = none;
}

-- `with_persistence`, `set_persist_dir`
abbrev pub set_persist_dir : Directory → ReceiptCollector → ReceiptCollector
set_persist_dir dir s = record {
  pool_receipts = s.pool_receipts;
  seen = s.seen;
  epoch_start = s.epoch_start;
  epoch_end = s.epoch_end;
  grace_secs = s.grace_secs;
  cid_to_pool = s.cid_to_pool;
  persist_dir = some dir;
}

abbrev pub register_pool : List Byte → List Byte → ReceiptCollector → ReceiptCollector
register_pool content_id pool_pubkey s = record {
  pool_receipts = s.pool_receipts;
  seen = s.seen;
  epoch_start = s.epoch_start;
  epoch_end = s.epoch_end;
  grace_secs = s.grace_secs;
  cid_to_pool = insert key_eq content_id pool_pubkey s.cid_to_pool;
  persist_dir = s.persist_dir;
}

-- `self.pool_receipts.values().map(|v| v.len()).sum()`
abbrev pub count_entries : List (List Byte × List StorageReceipt) → ℕ
count_entries [] = 0
count_entries (entry ∷ m) = length entry.1 + count_entries m

abbrev pub receipt_count : ReceiptCollector → ℕ
receipt_count s = count_entries s.pool_receipts

abbrev pub pools : ReceiptCollector → List (List Byte)
pools s = map (λ entry. entry.0) s.pool_receipts

-- `unwrap_or_default`
abbrev pub or_default {ℓ} : {A : Type ℓ} → Option (List A) → List A
or_default none = []
or_default (some xs) = xs

abbrev pub with_receipts :
    List (List Byte × List StorageReceipt) → ReceiptCollector → ReceiptCollector
with_receipts m s = record {
  pool_receipts = m;
  seen = s.seen;
  epoch_start = s.epoch_start;
  epoch_end = s.epoch_end;
  grace_secs = s.grace_secs;
  cid_to_pool = s.cid_to_pool;
  persist_dir = s.persist_dir;
}

-- `take_receipts`: the collector after it, and the receipts of the pool.
abbrev pub take_receipts : List Byte → ReceiptCollector → ReceiptCollector × List StorageReceipt
take_receipts pool s = (
  with_receipts (remove key_eq pool s.pool_receipts) s,
  or_default (get key_eq s.pool_receipts pool),
)

-- `self.seen.contains(&dedup)`
abbrev pub contains : List (List Byte) → List Byte → Bool
contains [] h = false
contains (k ∷ ks) h = key_eq k h || contains ks h

-- `pool_receipts.entry(pool).or_default().push(receipt)`
unfoldable pub push_receipt :
    List Byte
    → StorageReceipt
    → List (List Byte × List StorageReceipt)
    → List (List Byte × List StorageReceipt)
push_receipt pool r [] = (pool, r ∷ []) ∷ []
push_receipt pool r (entry ∷ m) =
    let rest = push_receipt pool r m in
    if key_eq entry.0 pool then (entry.0, entry.1 ++ r ∷ []) ∷ m else entry ∷ rest

-- The new receipt in the set and in the list of its pool.
abbrev pub accept : List Byte → List Byte → StorageReceipt → ReceiptCollector → ReceiptCollector
accept dedup pool r s = record {
  pool_receipts = push_receipt pool r s.pool_receipts;
  seen = dedup ∷ s.seen;
  epoch_start = s.epoch_start;
  epoch_end = s.epoch_end;
  grace_secs = s.grace_secs;
  cid_to_pool = s.cid_to_pool;
  persist_dir = s.persist_dir;
}

abbrev pub reset : ℕ → ℕ → ReceiptCollector → ReceiptCollector
reset epoch_start epoch_end s = record {
  pool_receipts = [];
  seen = [];
  epoch_start = epoch_start;
  epoch_end = epoch_end;
  grace_secs = s.grace_secs;
  cid_to_pool = s.cid_to_pool;
  persist_dir = s.persist_dir;
}

-- A sum of `u64`; `none` is the panic of a debug build where it overflows.
abbrev pub u64_add : ℕ → ℕ → Option ℕ
u64_add a b = if leb (a + b) u64_max then some (a + b) else none
