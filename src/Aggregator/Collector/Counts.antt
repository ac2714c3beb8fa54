-- ===== src/Aggregator/Collector/Counts.antt =====
-- How many of the receipts of a collector pass a test, after the calls on its map.
use craftec_core.Aggregator.Collector.{count_entries, push_receipt}
use craftec_core.Maps.{remove}
use craftec_core.Settlement.Accounts.{StorageReceipt}
use craftec_core.Prelude.{
  ℕ, ◌+◌, ◌≤◌, if◌then◌else◌, Bool, true, List, [], ◌∷◌, ◌++◌, length, All, Byte, key_eq, arith,
  ◌≡◌, refl, inl, inr, Bool-cases,
}

abbrev pub bit : Bool → ℕ
bit b = if b then 1 else 0

abbrev pub count_where : (StorageReceipt → Bool) → List StorageReceipt → ℕ
count_where test [] = 0
count_where test (r ∷ receipts) = bit (test r) + count_where test receipts

abbrev pub total_where : (StorageReceipt → Bool) → List (List Byte × List StorageReceipt) → ℕ
total_where test [] = 0
total_where test (entry ∷ m) = count_where test entry.1 + total_where test m

module _ (test : StorageReceipt → Bool) where
  count_where-append :
      (xs ys : List StorageReceipt)
      → count_where test (xs ++ ys) ≡ count_where test xs + count_where test ys
  count_where-append [] ys = omega arith
  count_where-append (x ∷ xs) ys = omega (arith, count_where-append xs ys)

  pub total_where-push_receipt :
      (pool : List Byte) (r : StorageReceipt) (m : List (List Byte × List StorageReceipt))
      → total_where test (push_receipt pool r m) ≡ total_where test m + bit (test r)
  unfolding push_receipt
  total_where-push_receipt pool r [] = omega arith
  total_where-push_receipt pool r (entry ∷ m) = elim (Bool-cases (key_eq entry.0 pool)) [
    | inl same ↦ rw same (omega (arith, count_where-append entry.1 (r ∷ [])))
    | inr other ↦ rw other (omega (arith, total_where-push_receipt pool r m))
  ]

  pub total_where-remove :
      (pool : List Byte) (m : List (List Byte × List StorageReceipt))
      → total_where test (remove key_eq pool m) ≤ total_where test m
  unfolding remove
  total_where-remove pool [] = omega arith
  total_where-remove pool (entry ∷ m) = elim (Bool-cases (key_eq entry.0 pool)) [
    | inl same ↦ rw same (omega (arith, total_where-remove pool m))
    | inr other ↦ rw other (omega (arith, total_where-remove pool m))
  ]

pub count_where-all : (xs : List StorageReceipt) → count_where (λ r. true) xs ≡ length xs
count_where-all [] = refl
count_where-all (x ∷ xs) = omega (arith, count_where-all xs)

-- `receipt_count` counts all of them.
pub total_where-all :
    (m : List (List Byte × List StorageReceipt)) → total_where (λ r. true) m ≡ count_entries m
total_where-all [] = refl
total_where-all (entry ∷ m) = omega (arith, count_where-all entry.1, total_where-all m)

-- Whatever holds of the new receipt and of those before holds of all.
All-append :
    (P : StorageReceipt → Type 0) (xs : List StorageReceipt) (r : StorageReceipt)
    → All P xs
    → P r
    → All P (xs ++ r ∷ [])
All-append P [] r all holds = (holds, tt)
All-append P (x ∷ xs) r all holds = (all.0, All-append P xs r all.1 holds)

pub push_receipt-All :
    (P : StorageReceipt → Type 0) (pool : List Byte) (r : StorageReceipt)
    (m : List (List Byte × List StorageReceipt))
    → P r
    → All (λ entry. All P entry.1) m
    → All (λ entry. All P entry.1) (push_receipt pool r m)
unfolding push_receipt
push_receipt-All P pool r [] holds all = ((holds, tt), tt)
push_receipt-All P pool r (entry ∷ m) holds all = elim (Bool-cases (key_eq entry.0 pool)) [
  | inl same ↦ rw same (All-append P entry.1 r all.0 holds, all.1)
  | inr other ↦ rw other (all.0, push_receipt-All P pool r m holds all.1)
]
