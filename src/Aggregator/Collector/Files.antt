-- ===== src/Aggregator/Collector/Files.antt =====
-- The receipts on disk: `persist_receipt` and `ReceiptCollector::load_persisted` of
-- crates/aggregator/src/collector.rs.
use craftec_core.Aggregator.Collector.{
  AggregatorError, serialization, Directory, Externals, ReceiptCollector, contains, accept,
}
use craftec_core.Maps.{get}
use craftec_core.Settlement.Accounts.{StorageReceipt, dedup_hash}
use craftec_core.Prelude.{
  ℕ, ◌+◌, ◌==◌, if◌then◌else◌, Bool, true, false, Option, none, some, List, [], ◌∷◌, ◌++◌, map,
  length, Byte, u8, key_eq, to_le_bytes,
}

-- `b"pool_"`, `b".receipts.log"` and `b"receipts"`
unfoldable pub pool_prefix : List Byte
pool_prefix = map u8 (112 ∷ 111 ∷ 111 ∷ 108 ∷ 95 ∷ [])

unfoldable pub log_suffix : List Byte
log_suffix = map u8 (46 ∷ 114 ∷ 101 ∷ 99 ∷ 101 ∷ 105 ∷ 112 ∷ 116 ∷ 115 ∷ 46 ∷ 108 ∷ 111 ∷ 103 ∷ [])

unfoldable pub receipts_extension : List Byte
receipts_extension = map u8 (114 ∷ 101 ∷ 99 ∷ 101 ∷ 105 ∷ 112 ∷ 116 ∷ 115 ∷ [])

-- What stands before and after the last dot.
unfoldable pub split_last_dot : List Byte → Option (List Byte × List Byte)
split_last_dot [] = none
split_last_dot (b ∷ bs) = elim (split_last_dot bs) [
  | some parts ↦ some (b ∷ parts.0, parts.1)
  | none ↦ if b.value == 46 then some ([], bs) else none
]

abbrev pub extension_of : Option (List Byte × List Byte) → Option (List Byte)
extension_of none = none
extension_of (some ([], after)) = none
extension_of (some (b ∷ before, after)) = some after

-- `path.extension()` of a file with this name; the name is not `..`.
abbrev pub extension : List Byte → Option (List Byte)
extension name = extension_of (split_last_dot name)

-- `.map(|e| e == "receipts").unwrap_or(false)`
abbrev pub is_receipts : Option (List Byte) → Bool
is_receipts none = false
is_receipts (some e) = key_eq e receipts_extension

-- `.map_err(..)?`: the rest of a call, after a call that may fail.
abbrev pub or_fail :
    {Disk : Type 0}
    → Disk × Bool
    → (Disk → Disk × Option AggregatorError)
    → Disk × Option AggregatorError
or_fail (disk, true) next = next disk
or_fail (disk, false) next = (disk, some serialization)

module _ {Disk : Type 0} (lib : Externals Disk) where
  abbrev pub filename : List Byte → List Byte
  filename pool = pool_prefix ++ lib.encode pool ++ log_suffix

  abbrev pub write_record :
      Directory → List Byte → Option (List Byte) → Disk → Disk × Option AggregatorError
  write_record dir name none disk = (disk, some serialization)
  write_record dir name (some data') disk = or_fail (lib.open_append dir name disk) (λ d.
      or_fail (lib.write_all dir name (to_le_bytes 4 (length data')) d)
        (λ e. or_fail (lib.write_all dir name data' e) (λ f. (f, none))))

  -- `persist_receipt`: the disk after it, and the error if it fails.
  unfoldable pub persist_receipt :
      Directory → List Byte → StorageReceipt → Disk → Disk × Option AggregatorError
  persist_receipt dir pool r disk =
      or_fail (lib.create_dir_all dir disk) (write_record dir (filename pool) (lib.serialize r))

  -- The collector and the count after a receipt that is not yet seen, for its pool.
  abbrev pub load_for :
      Option (List Byte) → StorageReceipt → ReceiptCollector × ℕ → ReceiptCollector × ℕ
  load_for none r state = state
  load_for (some pool) r (s, count) = (accept (dedup_hash lib.sha256 r) pool r s, count + 1)

  -- The body of the loop over the receipts of a file.
  abbrev pub load_receipt : StorageReceipt → ReceiptCollector × ℕ → ReceiptCollector × ℕ
  load_receipt r (s, count) =
      if contains s.seen (dedup_hash lib.sha256 r)
      then (s, count)
      else load_for (get key_eq s.cid_to_pool r.content_id) r (s, count)

  unfoldable pub load_receipts : List StorageReceipt → ReceiptCollector × ℕ → ReceiptCollector × ℕ
  load_receipts [] state = state
  load_receipts (r ∷ receipts) state = load_receipts receipts (load_receipt r state)

  abbrev pub load_data : Option (List StorageReceipt) → ReceiptCollector × ℕ → ReceiptCollector × ℕ
  load_data none state = state
  load_data (some receipts) state = load_receipts receipts state

  abbrev pub load_contents : Option (List Byte) → ReceiptCollector × ℕ → ReceiptCollector × ℕ
  load_contents none state = state
  load_contents (some data') state = load_data (lib.deserialize_all data') state

  abbrev pub load_file : Disk → Directory → List Byte → ReceiptCollector × ℕ → ReceiptCollector × ℕ
  load_file disk dir name state =
      if is_receipts (extension name) then load_contents (lib.read dir name disk) state else state

  unfoldable pub load_files :
      Disk → Directory → List (List Byte) → ReceiptCollector × ℕ → ReceiptCollector × ℕ
  load_files disk dir [] state = state
  load_files disk dir (name ∷ names) state =
      load_files disk dir names (load_file disk dir name state)

  abbrev pub load_entries :
      Disk → Directory → Option (List (List Byte)) → ReceiptCollector → ReceiptCollector × ℕ
  load_entries disk dir none s = (s, 0)
  load_entries disk dir (some names) s = load_files disk dir names (s, 0)

  -- `load_persisted`: the collector after it, and the number of receipts that were loaded.
  unfoldable pub load_persisted : Disk → Directory → ReceiptCollector → ReceiptCollector × ℕ
  load_persisted disk epoch_dir s = load_entries disk epoch_dir (lib.read_dir epoch_dir disk) s
