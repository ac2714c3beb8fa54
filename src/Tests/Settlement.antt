-- ===== src/Tests/Settlement.antt =====
-- Inputs for the theorems on crates/settlement.
use craftec_core.Settlement.Fee.{max_protocol_fee_bps, u64_max, calculate_fee}
use craftec_core.Settlement.Fee.Laws.{paid_to_all, calculate_fee_lem, paid_to_all-le}
use craftec_core.Prelude.{ℕ, ◌+◌, ◌*◌, ◌/◌, ◌≤◌, ◌<◌, none, some, List, [], ◌∷◌, arith, ◌≡◌, ◌⊎◌}

calculate_fee_lem_example :
    ((max_protocol_fee_bps < 500) × (calculate_fee 1000000 500 ≡ none))
    ⊎ ((500 ≤ max_protocol_fee_bps)
        × ((fee : ℕ) × (payout : ℕ) × (calculate_fee 1000000 500 ≡ some (fee, payout))
            × (fee + payout ≡ 1000000)
            × (2 * fee ≤ 1000000)
            × (fee * 10000 ≤ 1000000 * 500)
            × ((1000000 * 500 < (fee + 1) * 10000)
                ⊎ ((u64_max < 1000000 * 500) × (fee ≡ u64_max / 10000)))))
calculate_fee_lem_example = calculate_fee_lem 1000000 500

abbrev weights : List ℕ
weights = 30 ∷ 50 ∷ 20 ∷ []

paid_to_all-le_example : paid_to_all 1000001 weights 100 500 ≤ 1000001
paid_to_all-le_example = paid_to_all-le 1000001 weights 100 500 (omega arith)
