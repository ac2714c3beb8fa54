-- ===== src/Aggregator/Collector/Distinct.antt =====
-- The keys of the map of receipts of crates/aggregator/src/collector.rs.
use craftec_core.Aggregator.Collector.{Externals, ReceiptCollector, push_receipt}
use craftec_core.Aggregator.Collector.Invariant.{
  Step, registered, directed, ingested, taken, restarted, loaded, Reachable, start, next_call,
  ingest-keeps,
}
use craftec_core.Maps.{remove}
use craftec_core.Maps.Laws.{All-fst, remove-All}
use craftec_core.Settlement.Accounts.{StorageReceipt}
use craftec_core.Prelude.{
  Bool, true, false, List, [], ◌∷◌, All, Byte, key_eq, key_eq_sound, key_eq_refl, ◌≡◌, refl, ap,
  ◌∙◌, inl, inr, Bool-cases,
}

-- No key stands twice.
abbrev pub Distinct : List (List Byte × List StorageReceipt) → Type 0
Distinct [] = Unit
Distinct (entry ∷ m) = All (λ e. key_eq e.0 entry.0 ≡ false) m × Distinct m

key_eq_flip : (a b : List Byte) → key_eq a b ≡ false → key_eq b a ≡ false
key_eq_flip a b e = elim (Bool-cases (key_eq b a)) [
  | inl same ↦
      let there : key_eq a b ≡ true = ap (key_eq a) (key_eq_sound b a same) ∙ key_eq_refl a in
      absurd cc
  | inr differ ↦ differ
]

push_receipt-keys :
    (P : List Byte → Type 0) (pool : List Byte) (r : StorageReceipt)
    (m : List (List Byte × List StorageReceipt))
    → P pool
    → All (λ e. P e.0) m
    → All (λ e. P e.0) (push_receipt pool r m)
unfolding push_receipt
push_receipt-keys P pool r [] holds all = (holds, tt)
push_receipt-keys P pool r (entry ∷ m) holds all = elim (Bool-cases (key_eq entry.0 pool)) [
  | inl same ↦ rw same (all.0, all.1)
  | inr other ↦ rw other (all.0, push_receipt-keys P pool r m holds all.1)
]

push_receipt-Distinct :
    (pool : List Byte) (r : StorageReceipt) (m : List (List Byte × List StorageReceipt))
    → Distinct m
    → Distinct (push_receipt pool r m)
unfolding push_receipt
push_receipt-Distinct pool r [] d = (tt, tt)
push_receipt-Distinct pool r (entry ∷ m) d = elim (Bool-cases (key_eq entry.0 pool)) [
  | inl same ↦ rw same (d.0, d.1)
  | inr other ↦ rw other (
    push_receipt-keys (λ k. key_eq k entry.0 ≡ false) pool r m (key_eq_flip entry.0 pool other) d.0,
    push_receipt-Distinct pool r m d.1,
  )
]

remove-keys :
    (P : List Byte × List StorageReceipt → Type 0) (pool : List Byte)
    (m : List (List Byte × List StorageReceipt))
    → All P m
    → All P (remove key_eq pool m)
remove-keys P pool m all =
    All-fst P (λ e. key_eq e.0 pool ≡ false) (remove key_eq pool m) (remove-All key_eq P pool m all)

remove-Distinct :
    (pool : List Byte) (m : List (List Byte × List StorageReceipt))
    → Distinct m
    → Distinct (remove key_eq pool m)
unfolding remove
remove-Distinct pool [] d = tt
remove-Distinct pool (entry ∷ m) d = elim (Bool-cases (key_eq entry.0 pool)) [
  | inl same ↦ rw same (remove-Distinct pool m d.1)
  | inr other ↦
      rw other
        (remove-keys (λ e. key_eq e.0 entry.0 ≡ false) pool m d.0, remove-Distinct pool m d.1)
]

module _ {Disk : Type 0} (lib : Externals Disk) where
  Step-Distinct :
      (b : Bool) (s t : ReceiptCollector)
      → b ≡ false
      → Step lib b s t
      → Distinct s.pool_receipts
      → Distinct t.pool_receipts
  Step-Distinct _ _ _ no_load (registered b s content_id pool) d = d
  Step-Distinct _ _ _ no_load (directed b s dir) d = d
  Step-Distinct _ _ _ no_load (ingested b s disk r a fits e) d =
      ingest-keeps lib (λ c. Distinct c.pool_receipts) s disk r a fits
        (λ pool fine. push_receipt-Distinct pool r s.pool_receipts d) d e
  Step-Distinct _ _ _ no_load (taken b s pool) d = remove-Distinct pool s.pool_receipts d
  Step-Distinct _ _ _ no_load (restarted b s epoch_start epoch_end) d = tt
  Step-Distinct _ _ _ no_load (loaded s disk dir) d = absurd cc

  pub Reachable-Distinct : (s : ReceiptCollector) → Reachable lib false s → Distinct s.pool_receipts
  Reachable-Distinct _ (start epoch_start epoch_end grace_secs) = tt
  Reachable-Distinct _ (next_call s t before step) =
      Step-Distinct false s t refl step (Reachable-Distinct s before)
