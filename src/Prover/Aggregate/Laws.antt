-- ===== src/Prover/Aggregate/Laws.antt =====
-- The aggregation neither loses nor invents weight.
use craftec_core.Prover.Aggregate.{
  Receipt, ProverError, Attempt, done, failed, empty_batch, max_weight, cons_entry, add_weight,
  check_receipt, or_panic, unless, accumulate, aggregate_receipts,
}
use craftec_core.Prelude.{
  key_eq, key_lt, key_eq_sound, ℕ, ◌+◌, ◌≤◌, leb, if◌then◌else◌, Bool, true, false, Option, none,
  some, List, [], ◌∷◌, length, All, Byte, arith, ◌≡◌, refl, ap, ◌∙◌, ◌⊎◌, inl, inr, Bool-cases,
  Option-cases, ◌++◌,
}

-- The weight of the entries, and of the receipts, whose operator passes a test.
abbrev pub entry_weight : (List Byte → Bool) → List (List Byte × ℕ) → ℕ
entry_weight test [] = 0
entry_weight test (entry ∷ weights) =
    (if test entry.0 then entry.1 else 0) + entry_weight test weights

abbrev pub receipt_weight : (List Byte → Bool) → List Receipt → ℕ
receipt_weight test [] = 0
receipt_weight test (r ∷ receipts) =
    (if test r.operator then r.weight else 0) + receipt_weight test receipts

abbrev pub anyone : List Byte → Bool
anyone operator = true

split_if :
    (b : Bool) (x y z : ℕ)
    → (if b then x + y else 0) + z ≡ (if b then x else 0) + z + (if b then y else 0)
split_if true x y z = omega arith
split_if false x y z = omega arith

-- What one addition does, for every test at once.
pub record Added (operator : List Byte) (weight : ℕ) (before : List (List Byte × ℕ)) : Type 0 where
  pub after : List (List Byte × ℕ)
  pub made : add_weight operator weight before ≡ some after
  pub count : length after ≤ length before + 1
  pub weighs :
      (test : List Byte → Bool)
      → entry_weight test after ≡ entry_weight test before + (if test operator then weight else 0)

pub add_weight_lem :
    (operator : List Byte) (weight : ℕ) (weights : List (List Byte × ℕ))
    → entry_weight anyone weights + weight ≤ max_weight
    → Added operator weight weights
unfolding add_weight
add_weight_lem operator weight [] h = record {
  after = (operator, weight) ∷ [];
  made = refl;
  count = omega arith;
  weighs = λ test. omega arith;
}
add_weight_lem operator weight (entry ∷ weights) h =
    let later = add_weight_lem operator weight weights (omega arith) in
    elim (Bool-cases (key_eq operator entry.0)) [
      | inl same ↦
          let fits : leb (entry.1 + weight) max_weight ≡ true = ground arith in
          let key = key_eq_sound operator entry.0 same in
          record {
            after = (entry.0, entry.1 + weight) ∷ weights;
            made = rw same (rw fits refl);
            count = omega arith;
            weighs =
                λ test. rw key (split_if (test entry.0) entry.1 weight (entry_weight test weights));
          }
      | inr other ↦ elim (Bool-cases (key_lt operator entry.0)) [
        | inl less ↦ record {
          after = (operator, weight) ∷ entry ∷ weights;
          made = rw other (rw less refl);
          count = omega arith;
          weighs = λ test. omega arith;
        }
        | inr more ↦ record {
          after = entry ∷ later.after;
          made = rw other (rw more (ap (cons_entry entry) later.made));
          count = omega (arith, later.count);
          weighs = λ test. omega (arith, later.weighs test);
        }
      ]
    ]

-- The receipts up to the first one that is refused, and its error.
abbrev pub IsRefused : List Receipt → ProverError → Type 0
IsRefused receipts e =
    (good : List Receipt) × (bad : Receipt) × (rest : List Receipt) × (receipts
      ≡ good ++ bad ∷ rest)
    × All (λ r. check_receipt r ≡ none) good
    × (check_receipt bad ≡ some e)

-- Nothing is refused, and the entries have the weight of the entries before and of the receipts.
abbrev pub IsAccepted : List (List Byte × ℕ) → List Receipt → List (List Byte × ℕ) → Type 0
IsAccepted before receipts entries =
    All (λ r. check_receipt r ≡ none) receipts
    × (length entries ≤ length before + length receipts)
    × ((test : List Byte → Bool)
        → entry_weight test entries ≡ entry_weight test before + receipt_weight test receipts)

accumulate-cases :
    (before : List (List Byte × ℕ)) (receipts : List Receipt)
    → entry_weight anyone before + receipt_weight anyone receipts ≤ max_weight
    → ((e : ProverError) × (accumulate before receipts ≡ failed e) × IsRefused receipts e)
      ⊎ ((entries : List (List Byte × ℕ)) × (accumulate before receipts ≡ done entries)
          × IsAccepted before receipts entries)
unfolding accumulate
accumulate-cases before [] h = inr (before, refl, (tt, omega arith, λ test. omega arith))
accumulate-cases before (r ∷ receipts) h =
    let added = add_weight_lem r.operator r.weight before (omega arith) in
    let next : Option ProverError → Attempt (List (List Byte × ℕ)) = λ o.
      unless o (or_panic (add_weight r.operator r.weight before) (λ m. accumulate m receipts)) in
    elim (Option-cases (check_receipt r)) [
      | inr (e, refused) ↦ inl (e, ap next refused, ([], r, receipts, refl, tt, refused))
      | inl fine ↦
          let step = ap next fine ∙ ap (λ o. or_panic o (λ m. accumulate m receipts)) added.made in
          elim (accumulate-cases added.after receipts (omega (arith, added.weighs anyone))) [
            | inl (e, result, refused) ↦
                let (good, bad, rest, parts, valid, found) = refused in
                inl (e, step ∙ result, (r ∷ good, bad, rest, ap (r ∷◌) parts, (fine, valid), found))
            | inr (entries, result, accepted) ↦
                let (valid, count, weighs) = accepted in
                inr (
                  entries,
                  step ∙ result,
                  (
                    (fine, valid),
                    omega (arith, count, added.count),
                    λ test. omega (arith, weighs test, added.weighs test),
                  ),
                )
          ]
    ]

-- For receipts whose weights add up to a `u64`, `aggregate_receipts` does not panic. It fails on an
-- empty batch, and with the error of the first receipt that is refused; if none is refused, it
-- returns at most as many entries as receipts, and any group of operators has the same weight in
-- the entries as in the receipts.
pub aggregate_receipts-cases :
    (receipts : List Receipt)
    → receipt_weight anyone receipts ≤ max_weight
    → ((receipts ≡ []) × (aggregate_receipts receipts ≡ failed empty_batch))
      ⊎ (((e : ProverError) × (aggregate_receipts receipts ≡ failed e) × IsRefused receipts e)
          ⊎ ((entries : List (List Byte × ℕ)) × (aggregate_receipts receipts ≡ done entries)
              × IsAccepted [] receipts entries))
unfolding aggregate_receipts
aggregate_receipts-cases [] h = inl (refl, refl)
aggregate_receipts-cases (r ∷ receipts) h = inr (accumulate-cases [] (r ∷ receipts) (omega arith))
