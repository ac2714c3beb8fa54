-- ===== src/Aggregator/Collector/Invariant.antt =====
-- What holds of the receipts of a collector, whatever calls led to it.
use craftec_core.Aggregator.Collector.{
  Directory, Externals, ReceiptCollector, new, set_persist_dir, register_pool, take_receipts,
  contains, accept, reset,
}
use craftec_core.Aggregator.Collector.Cases.{IsValid, IsAcceptable, ingest-cases}
use craftec_core.Aggregator.Collector.Counts.{
  bit, total_where, total_where-push_receipt, total_where-remove, push_receipt-All,
}
use craftec_core.Aggregator.Collector.Files.{
  is_receipts, extension, load_receipt, load_receipts, load_contents, load_file, load_files,
  load_persisted,
}
use craftec_core.Aggregator.Collector.Ingest.{Ingested, ingest}
use craftec_core.Maps.{get, remove}
use craftec_core.Maps.Laws.{All-fst, remove-All}
use craftec_core.Settlement.Accounts.{StorageReceipt, dedup_hash}
use craftec_core.Settlement.Fee.{u64_max}
use craftec_core.Prelude.{
  ℕ, ◌+◌, ◌≤◌, Bool, true, false, Option, none, some, List, [], ◌∷◌, All, Byte, key_eq,
  key_eq_sound, arith, ◌≡◌, refl, sym, ap, ◌∙◌, subst, inl, inr, Bool-cases, Option-cases,
}

module _ {Disk : Type 0} (lib : Externals Disk) where
  -- The calls that change a collector; only if the Boolean is `true`, receipts may be loaded from
  -- disk. The calls of `drain_channel` and `process_receipt_message` are calls of `ingest`.
  pub data Step : Bool → ReceiptCollector → ReceiptCollector → Type 0 where
    registered :
        (b : Bool) (s : ReceiptCollector) (content_id pool : List Byte)
        → Step b s (register_pool content_id pool s)
    directed :
        (b : Bool) (s : ReceiptCollector) (dir : Directory) → Step b s (set_persist_dir dir s)
    ingested :
        (b : Bool) (s : ReceiptCollector) (disk : Disk) (r : StorageReceipt) (a : Ingested Disk)
        → s.epoch_end + s.grace_secs ≤ u64_max
        → ingest lib r s disk ≡ some a
        → Step b s a.collector
    taken : (b : Bool) (s : ReceiptCollector) (pool : List Byte) → Step b s (take_receipts pool s).0
    restarted :
        (b : Bool) (s : ReceiptCollector) (epoch_start epoch_end : ℕ)
        → Step b s (reset epoch_start epoch_end s)
    loaded :
        (s : ReceiptCollector) (disk : Disk) (dir : Directory)
        → Step true s (load_persisted lib disk dir s).0

  -- The collectors that calls lead to from a new one.
  pub data Reachable (b : Bool) : ReceiptCollector → Type 0 where
    start :
        (epoch_start epoch_end grace_secs : ℕ) → Reachable b (new epoch_start epoch_end grace_secs)
    next_call : (s t : ReceiptCollector) → Reachable b s → Step b s t → Reachable b t

  -- The test for a dedup hash.
  abbrev pub has_hash : List Byte → StorageReceipt → Bool
  has_hash h r = key_eq (dedup_hash lib.sha256 r) h

  -- A hash is of at most one receipt, and of none if it was not seen.
  record IsDeduplicated (s : ReceiptCollector) : Type 0 where
    occurrences :
        (h : List Byte) → total_where (has_hash h) s.pool_receipts ≤ bit (contains s.seen h)

  accept-IsDeduplicated :
      (pool : List Byte) (r : StorageReceipt) (s : ReceiptCollector)
      → contains s.seen (dedup_hash lib.sha256 r) ≡ false
      → IsDeduplicated s
      → IsDeduplicated (accept (dedup_hash lib.sha256 r) pool r s)
  accept-IsDeduplicated pool r s unseen before = record {
    occurrences = λ h.
        let count = total_where-push_receipt (has_hash h) pool r s.pool_receipts in
        elim (Bool-cases (key_eq (dedup_hash lib.sha256 r) h)) [
          | inl same ↦
              let absent : contains s.seen h ≡ false =
                ap (contains s.seen) (sym (key_eq_sound (dedup_hash lib.sha256 r) h same))
                ∙ unseen in
              let few = before.occurrences h in ground (arith, count, few)
          | inr other ↦ let few = before.occurrences h in ground (arith, count, few)
        ];
  }

  load_receipt-IsDeduplicated :
      (r : StorageReceipt) (s : ReceiptCollector) (n : ℕ)
      → IsDeduplicated s
      → IsDeduplicated (load_receipt lib r (s, n)).0
  load_receipt-IsDeduplicated r s n before =
      elim (Bool-cases (contains s.seen (dedup_hash lib.sha256 r))) [
        | inl seen ↦ rw seen before
        | inr unseen ↦ elim (Option-cases (get key_eq s.cid_to_pool r.content_id)) [
          | inl unmapped ↦ rw (unseen, unmapped) before
          | inr (pool, mapped) ↦ rw (unseen, mapped) (accept-IsDeduplicated pool r s unseen before)
        ]
      ]

  load_receipts-IsDeduplicated :
      (receipts : List StorageReceipt) (state : ReceiptCollector × ℕ)
      → IsDeduplicated state.0
      → IsDeduplicated (load_receipts lib receipts state).0
  unfolding load_receipts
  load_receipts-IsDeduplicated [] state before = before
  load_receipts-IsDeduplicated (r ∷ receipts) (s, n) before =
      load_receipts-IsDeduplicated receipts (load_receipt lib r (s, n))
        (load_receipt-IsDeduplicated r s n before)

  load_contents-IsDeduplicated :
      (contents : Option (List Byte)) (state : ReceiptCollector × ℕ)
      → IsDeduplicated state.0
      → IsDeduplicated (load_contents lib contents state).0
  load_contents-IsDeduplicated none state before = before
  load_contents-IsDeduplicated (some data') state before =
      elim (Option-cases (lib.deserialize_all data')) [
        | inl malformed ↦ rw malformed before
        | inr (receipts, read) ↦ rw read (load_receipts-IsDeduplicated receipts state before)
      ]

  load_files-IsDeduplicated :
      (disk : Disk) (dir : Directory) (names : List (List Byte)) (state : ReceiptCollector × ℕ)
      → IsDeduplicated state.0
      → IsDeduplicated (load_files lib disk dir names state).0
  unfolding load_files
  load_files-IsDeduplicated disk dir [] state before = before
  load_files-IsDeduplicated disk dir (name ∷ names) state before =
      load_files-IsDeduplicated disk dir names (load_file lib disk dir name state)
        (elim (Bool-cases (is_receipts (extension name))) [
          | inl fits ↦ rw fits (load_contents-IsDeduplicated (lib.read dir name disk) state before)
          | inr other ↦ rw other before
        ])

  load_persisted-IsDeduplicated :
      (disk : Disk) (dir : Directory) (s : ReceiptCollector)
      → IsDeduplicated s
      → IsDeduplicated (load_persisted lib disk dir s).0
  unfolding load_persisted
  load_persisted-IsDeduplicated disk dir s before = elim (Option-cases (lib.read_dir dir disk)) [
    | inl unreadable ↦ rw unreadable before
    | inr (names, listed) ↦ rw listed (load_files-IsDeduplicated disk dir names (s, 0) before)
  ]

  -- What holds of the collector that `ingest` gives, if it holds of the one before and accepting a
  -- receipt keeps it.
  pub ingest-keeps :
      (P : ReceiptCollector → Type 0) (s : ReceiptCollector) (disk : Disk) (r : StorageReceipt)
      (a : Ingested Disk)
      → s.epoch_end + s.grace_secs ≤ u64_max
      → ((pool : List Byte)
          → IsAcceptable lib s r pool
          → P (accept (dedup_hash lib.sha256 r) pool r s))
      → P s
      → ingest lib r s disk ≡ some a
      → P a.collector
  ingest-keeps P s disk r a fits kept before e =
      let (made, returned, answer) = ingest-cases lib s disk r fits in
      let same : made ≡ a = let both = sym returned ∙ e in cc in
      let holds : P made.collector = elim answer [
        | inl (pool, (fine, shape)) ↦
            subst P (sym (ap (λ (x : Ingested Disk). x.collector) shape)) (kept pool fine)
        | inr (unfit, error, shape) ↦
            subst P (sym (ap (λ (x : Ingested Disk). x.collector) shape)) before
      ] in
      subst P (ap (λ (x : Ingested Disk). x.collector) same) holds

  Step-IsDeduplicated :
      (b : Bool) (s t : ReceiptCollector) → Step b s t → IsDeduplicated s → IsDeduplicated t
  Step-IsDeduplicated _ _ _ (registered b s content_id pool) before = record {
    occurrences = before.occurrences;
  }
  Step-IsDeduplicated _ _ _ (directed b s dir) before = record { occurrences = before.occurrences }
  Step-IsDeduplicated _ _ _ (ingested b s disk r a fits e) before =
      ingest-keeps IsDeduplicated s disk r a fits
        (λ pool fine. accept-IsDeduplicated pool r s fine.unseen before) before e
  Step-IsDeduplicated _ _ _ (taken b s pool) before = record {
    occurrences = λ h.
        omega (arith, before.occurrences h, total_where-remove (has_hash h) pool s.pool_receipts);
  }
  Step-IsDeduplicated _ _ _ (restarted b s epoch_start epoch_end) before = record {
    occurrences = λ h. omega arith;
  }
  Step-IsDeduplicated _ _ _ (loaded s disk dir) before =
      load_persisted-IsDeduplicated disk dir s before

  Reachable-IsDeduplicated : (b : Bool) (s : ReceiptCollector) → Reachable b s → IsDeduplicated s
  Reachable-IsDeduplicated b _ (start epoch_start epoch_end grace_secs) = record {
    occurrences = λ h. omega arith;
  }
  Reachable-IsDeduplicated b _ (next_call s t before step) =
      Step-IsDeduplicated b s t step (Reachable-IsDeduplicated b s before)

  bit_le : (b : Bool) → bit b ≤ 1
  bit_le true = omega arith
  bit_le false = omega arith

  -- In a collector that calls, loads from disk among them, lead to from a new one, at most one
  -- receipt has a given dedup hash, over all pools.
  pub occurrences-Reachable :
      (b : Bool) (s : ReceiptCollector) (h : List Byte)
      → Reachable b s
      → total_where (has_hash h) s.pool_receipts ≤ 1
  occurrences-Reachable b s h reached =
      omega
        (arith, (Reachable-IsDeduplicated b s reached).occurrences h, bit_le (contains s.seen h))

  -- Every receipt is valid, and the window is that of the collector.
  abbrev pub IsVerified : ReceiptCollector → Type 0
  IsVerified s = All (λ entry. All (IsValid lib s) entry.1) s.pool_receipts

  Step-IsVerified :
      (b : Bool) (s t : ReceiptCollector) → b ≡ false → Step b s t → IsVerified s → IsVerified t
  Step-IsVerified _ _ _ no_load (registered b s content_id pool) before = before
  Step-IsVerified _ _ _ no_load (directed b s dir) before = before
  Step-IsVerified _ _ _ no_load (ingested b s disk r a fits e) before =
      ingest-keeps IsVerified s disk r a fits
        (λ pool fine. push_receipt-All (IsValid lib s) pool r s.pool_receipts fine.valid before)
        before e
  Step-IsVerified _ _ _ no_load (taken b s pool) before =
      All-fst (λ entry. All (IsValid lib s) entry.1) (λ entry. key_eq entry.0 pool ≡ false)
        (remove key_eq pool s.pool_receipts)
        (remove-All key_eq (λ entry. All (IsValid lib s) entry.1) pool s.pool_receipts before)
  Step-IsVerified _ _ _ no_load (restarted b s epoch_start epoch_end) before = tt
  Step-IsVerified _ _ _ no_load (loaded s disk dir) before = absurd cc

  -- In a collector that calls other than `load_persisted` lead to from a new one, every receipt lies
  -- in the time window, names a node and a content, and bears the signature of its challenger.
  pub IsVerified-Reachable : (s : ReceiptCollector) → Reachable false s → IsVerified s
  IsVerified-Reachable _ (start epoch_start epoch_end grace_secs) = tt
  IsVerified-Reachable _ (next_call s t before step) =
      Step-IsVerified false s t refl step (IsVerified-Reachable s before)
