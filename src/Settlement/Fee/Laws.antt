-- ===== src/Settlement/Fee/Laws.antt =====
-- What the fee and the payout add up to.
use native.Mathlib.Nat.{mul-le-mul_left, mul-le-mul_right, div-mul-le_self, le_of_mul-le-mul_right}
use craftec_core.Settlement.Fee.{
  max_protocol_fee_bps, u64_max, u128_max, calculate_fee, calculate_proportional_payout,
}
use craftec_core.Prelude.{
  ℕ, zero, suc, ◌+◌, ◌-◌, ◌*◌, ◌/◌, ◌==◌, leb, leb→le, ◌≤◌, ◌<◌, min, ◌||◌, Option, none, some,
  List, [], ◌∷◌, arith, ◌≡◌, refl, ◌⊎◌, inl, inr, Bool-cases,
}

-- A rate above 50% fails. Otherwise the fee and the payout make up the amount, and the fee is at
-- most half of it; the fee is the rate's share of the amount, rounded down, unless the product of
-- amount and rate exceeds 64 bits: then it is the same for all such amounts, and at most that share.
pub calculate_fee_lem :
    (amount fee_bps : ℕ)
    → ((max_protocol_fee_bps < fee_bps) × (calculate_fee amount fee_bps ≡ none))
      ⊎ ((fee_bps ≤ max_protocol_fee_bps)
          × ((fee : ℕ) × (payout : ℕ) × (calculate_fee amount fee_bps ≡ some (fee, payout))
              × (fee + payout ≡ amount)
              × (2 * fee ≤ amount)
              × (fee * 10000 ≤ amount * fee_bps)
              × ((amount * fee_bps < (fee + 1) * 10000)
                  ⊎ ((u64_max < amount * fee_bps) × (fee ≡ u64_max / 10000)))))
unfolding calculate_fee
calculate_fee_lem amount fee_bps =
    let product : ℕ = amount * fee_bps in
    elim (Bool-cases (leb fee_bps 5000)) [
      | inr e ↦ inl (ground arith, rw e refl)
      | inl e ↦
          let bounded : amount * fee_bps ≤ amount * 5000 =
            mul-le-mul_left amount (leb→le fee_bps 5000 e) in
          inr (
            leb→le fee_bps 5000 e,
            (
              min (amount * fee_bps) u64_max / 10000,
              amount - min (amount * fee_bps) u64_max / 10000,
              rw e refl,
              omega (arith, bounded),
              omega (arith, bounded),
              omega (arith, bounded),
              elim (Bool-cases (leb (amount * fee_bps) u64_max)) [
                | inl f ↦ let small = leb→le _ _ f in inl (omega (arith, small))
                | inr f ↦
                    let large : u64_max < amount * fee_bps = ground arith in
                    inr (large, omega (arith, large))
              ],
            ),
          )
    ]

-- The fee and the payout of a call together.
abbrev pub paid : Option (ℕ × ℕ) → ℕ
paid none = 0
paid (some (fee, payout)) = fee + payout

-- What the calls for all the operators of one pool pay, fees included.
abbrev pub paid_to_all : ℕ → List ℕ → ℕ → ℕ → ℕ
paid_to_all pool_balance [] total_weight fee_bps = 0
paid_to_all pool_balance (weight ∷ weights) total_weight fee_bps =
    paid (calculate_proportional_payout pool_balance weight total_weight fee_bps)
    + paid_to_all pool_balance weights total_weight fee_bps

abbrev pub sum : List ℕ → ℕ
sum [] = 0
sum (weight ∷ weights) = weight + sum weights

paid-calculate_fee-le : (amount fee_bps : ℕ) → paid (calculate_fee amount fee_bps) ≤ amount
paid-calculate_fee-le amount fee_bps = elim (calculate_fee_lem amount fee_bps) [
  | inl (high, failed) ↦ rw failed (omega arith)
  | inr (low, (fee, payout, made, adds, half, share, exact)) ↦ rw made (omega (arith, adds))
]

-- One operator gets no more than its part of the pool.
share_bound :
    (pool weight total fee_bps : ℕ)
    → paid (calculate_proportional_payout pool weight total fee_bps) * total ≤ pool * weight
unfolding calculate_proportional_payout
share_bound pool weight total fee_bps =
    elim (Bool-cases (total == 0 || (weight == 0 || pool == 0))) [
      | inl e ↦ rw e (omega arith)
      | inr e ↦
          let share : ℕ = min (pool * weight) u128_max / total in
          let top = paid-calculate_fee-le (min share u64_max) fee_bps in
          let scaled = mul-le-mul_right total top in
          let whole = div-mul-le_self (min (pool * weight) u128_max) total in
          let capped = mul-le-mul_right {m = min share u64_max} {n = share} total (omega arith) in
          rw e (omega (arith, scaled, whole, capped))
    ]

shares_bound :
    (pool : ℕ) (weights : List ℕ) (total fee_bps : ℕ)
    → paid_to_all pool weights total fee_bps * total ≤ pool * sum weights
shares_bound pool [] total fee_bps = omega arith
shares_bound pool (weight ∷ weights) total fee_bps =
    grind (arith, share_bound pool weight total fee_bps, shares_bound pool weights total fee_bps)

-- No weight at all: nothing is paid.
paid_to_all-zero :
    (pool : ℕ) (weights : List ℕ) (fee_bps : ℕ) → paid_to_all pool weights 0 fee_bps ≡ 0
unfolding calculate_proportional_payout
paid_to_all-zero pool [] fee_bps = refl
paid_to_all-zero pool (weight ∷ weights) fee_bps =
    omega (arith, paid_to_all-zero pool weights fee_bps)

-- If the weights of the operators add up to at most the total weight, all the payouts and fees
-- together are at most the balance of the pool.
pub paid_to_all-le :
    (pool_balance : ℕ) (weights : List ℕ) (total_weight fee_bps : ℕ)
    → sum weights ≤ total_weight
    → paid_to_all pool_balance weights total_weight fee_bps ≤ pool_balance
paid_to_all-le pool weights zero fee_bps h = omega (arith, paid_to_all-zero pool weights fee_bps)
paid_to_all-le pool weights (suc total) fee_bps h =
    let all = shares_bound pool weights (suc total) fee_bps in
    let most = mul-le-mul_left pool h in
    le_of_mul-le-mul_right {k = suc total} (omega (arith, all, most)) (omega arith)
