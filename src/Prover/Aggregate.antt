-- ===== src/Prover/Aggregate.antt =====
-- `aggregate_receipts` of crates/prover/src/lib.rs. A receipt is what the methods of
-- `ContributionReceipt` return; a `BTreeMap` is a list of entries in the order of their keys.
pub mod Laws
use craftec_core.Prelude.{
  ℕ, zero, ◌+◌, ◌==◌, ltb, leb, if◌then◌else◌, Bool, true, false, ◌&&◌, Option, none, some, List,
  [], ◌∷◌, replicate, Byte, zero_byte, byte_eq, key_eq, key_lt,
}

pub record Receipt : Type 0 where
  pub operator : List Byte
  pub weight : ℕ
  pub timestamp : ℕ

pub data ProverError : Type 0 where
  empty_batch zero_weight zero_timestamp zero_operator invalid_proof output_mismatch : ProverError

-- A call returns a value or an error, or panics where a sum of `u64` overflows in a debug build.
pub data Attempt {ℓ} (A : Type ℓ) : Type ℓ where
  done : A → Attempt A
  failed : ProverError → Attempt A
  panicked : Attempt A

-- `u64::MAX`
abbrev pub max_weight : ℕ
max_weight = 18446744073709551615

abbrev pub cons_entry :
    List Byte × ℕ → Option (List (List Byte × ℕ)) → Option (List (List Byte × ℕ))
cons_entry entry none = none
cons_entry entry (some weights) = some (entry ∷ weights)

-- `*weights.entry(operator).or_insert(0) += weight`; `none` is the overflow of the sum.
unfoldable pub add_weight : List Byte → ℕ → List (List Byte × ℕ) → Option (List (List Byte × ℕ))
add_weight operator weight [] = some ((operator, weight) ∷ [])
add_weight operator weight (entry ∷ weights) =
    let rest = add_weight operator weight weights in
    if key_eq operator entry.0
    then if leb (entry.1 + weight) max_weight
      then some ((entry.0, entry.1 + weight) ∷ weights)
      else none
    else if key_lt operator entry.0
    then some ((operator, weight) ∷ entry ∷ weights)
    else cons_entry entry rest

abbrev pub zero_key : List Byte
zero_key = replicate 32 zero_byte

-- The three tests of the loop's body.
unfoldable pub check_receipt : Receipt → Option ProverError
check_receipt r =
    if r.weight == 0
    then some zero_weight
    else if r.timestamp == 0
    then some zero_timestamp
    else if key_eq r.operator zero_key
    then some zero_operator
    else none

abbrev pub or_panic {ℓ κ} : {A : Type ℓ} {B : Type κ} → Option A → (A → Attempt B) → Attempt B
or_panic none next = panicked
or_panic (some a) next = next a

abbrev pub unless {ℓ} : {A : Type ℓ} → Option ProverError → Attempt A → Attempt A
unless none next = next
unless (some e) next = failed e

-- The loop over the receipts.
unfoldable pub accumulate : List (List Byte × ℕ) → List Receipt → Attempt (List (List Byte × ℕ))
accumulate weights [] = done weights
accumulate weights (r ∷ receipts) =
    unless (check_receipt r)
      (or_panic (add_weight r.operator r.weight weights) (λ next. accumulate next receipts))

-- `aggregate_receipts`
unfoldable pub aggregate_receipts : List Receipt → Attempt (List (List Byte × ℕ))
aggregate_receipts [] = failed empty_batch
aggregate_receipts (r ∷ receipts) = accumulate [] (r ∷ receipts)
