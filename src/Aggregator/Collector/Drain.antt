-- ===== src/Aggregator/Collector/Drain.antt =====
-- What `drain_channel` counts.
use craftec_core.Aggregator.Collector.{
  Externals, ReceiptCollector, receipt_count, accept, push_receipt,
}
use craftec_core.Aggregator.Collector.Cases.{ingest-cases}
use craftec_core.Aggregator.Collector.Counts.{total_where-push_receipt, total_where-all}
use craftec_core.Aggregator.Collector.Ingest.{
  Ingested, count_of, ingest_read, process_receipt_message, drain_channel,
}
use craftec_core.Settlement.Accounts.{StorageReceipt, dedup_hash}
use craftec_core.Settlement.Fee.{u64_max}
use craftec_core.Prelude.{
  ℕ, ◌+◌, ◌≤◌, true, Option, none, some, and_then, List, [], ◌∷◌, length, Byte, arith, ◌≡◌, refl,
  sym, ap, ◌∙◌, subst, inl, inr,
}

-- The same time window.
abbrev IsSameWindow : ReceiptCollector → ReceiptCollector → Type 0
IsSameWindow s t = (t.epoch_end ≡ s.epoch_end) × (t.grace_secs ≡ s.grace_secs)

receipt_count-accept :
    (h pool : List Byte) (r : StorageReceipt) (s : ReceiptCollector)
    → receipt_count (accept h pool r s) ≡ receipt_count s + 1
receipt_count-accept h pool r s = omega (
  arith,
  total_where-push_receipt (λ x. true) pool r s.pool_receipts,
  total_where-all s.pool_receipts,
  total_where-all (push_receipt pool r s.pool_receipts),
)

module _ {Disk : Type 0} (lib : Externals Disk) where
  -- A message returns, and counts by one if and only if it has no error.
  record Counted (s : ReceiptCollector) (disk : Disk) (data' : List Byte) : Type 0 where
    answer : Ingested Disk
    returned : process_receipt_message lib data' s disk ≡ some answer
    counted : receipt_count answer.collector ≡ receipt_count s + count_of lib answer.error
    at_most_one : count_of lib answer.error ≤ 1
    window : IsSameWindow s answer.collector

  ingest-Counted :
      (s : ReceiptCollector) (disk : Disk) (data' : List Byte) (r : StorageReceipt)
      → s.epoch_end + s.grace_secs ≤ u64_max
      → lib.deserialize data' ≡ some r
      → Counted s disk data'
  ingest-Counted s disk data' r fits e =
      let (a, returned, cases) = ingest-cases lib s disk r fits in
      let whole : process_receipt_message lib data' s disk ≡ some a =
        ap (λ o. ingest_read lib o s disk) e ∙ returned in
      elim cases [
        | inl (pool, (fine, shape)) ↦
            subst (λ x. process_receipt_message lib data' s disk ≡ some x → Counted s disk data')
              (sym shape)
              (λ whole. record {
                answer = _;
                returned = whole;
                counted = receipt_count-accept (dedup_hash lib.sha256 r) pool r s;
                at_most_one = omega arith;
                window = (refl, refl);
              })
              whole
        | inr (unfit, error, shape) ↦
            subst (λ x. process_receipt_message lib data' s disk ≡ some x → Counted s disk data')
              (sym shape)
              (λ whole. record {
                answer = _;
                returned = whole;
                counted = omega arith;
                at_most_one = omega arith;
                window = (refl, refl);
              })
              whole
      ]

  process_receipt_message-Counted :
      (s : ReceiptCollector) (disk : Disk) (data' : List Byte) (o : Option StorageReceipt)
      → s.epoch_end + s.grace_secs ≤ u64_max
      → lib.deserialize data' ≡ o
      → Counted s disk data'
  process_receipt_message-Counted s disk data' none fits e = record {
    answer = _;
    returned = ap (λ o. ingest_read lib o s disk) e;
    counted = omega arith;
    at_most_one = omega arith;
    window = (refl, refl);
  }
  process_receipt_message-Counted s disk data' (some r) fits e =
      ingest-Counted s disk data' r fits e

  -- If the end of the grace period fits a `u64`, `drain_channel` returns, with a number of at most
  -- the pending messages, by which the receipts of the collector have become more.
  pub drain_channel-count :
      (rx : List (List Byte)) (count : ℕ) (s : ReceiptCollector) (disk : Disk)
      → s.epoch_end + s.grace_secs ≤ u64_max
      → (t : ReceiptCollector) × (disk' : Disk) × (n : ℕ) × (drain_channel lib rx count s disk
          ≡ some (t, disk', count + n))
        × (receipt_count t ≡ receipt_count s + n)
        × (n ≤ length rx)
  unfolding drain_channel
  drain_channel-count [] count s disk fits =
      (s, disk, 0, ap (λ n. some (s, disk, n)) (omega arith), omega arith, omega arith)
  drain_channel-count (data' ∷ rx) count s disk fits =
      let c = process_receipt_message-Counted s disk data' (lib.deserialize data') fits refl in
      let k : ℕ = count_of lib c.answer.error in
      let (t, disk', n, e, total, few) =
        drain_channel-count rx (count + k) c.answer.collector c.answer.disk
          (omega (arith, c.window.0, c.window.1)) in
      let sum : count + k + n ≡ count + (k + n) = omega arith in
      (
        t,
        disk',
        k + n,
        ap
              (λ o.
                and_then o
                  (λ a. drain_channel lib rx (count + count_of lib a.error) a.collector a.disk))
              c.returned
            ∙ e
            ∙ ap (λ m. some (t, disk', m)) sum,
        omega (arith, total, c.counted),
        omega (arith, few, c.at_most_one),
      )
