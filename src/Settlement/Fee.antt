-- ===== src/Settlement/Fee.antt =====
-- crates/settlement/src/fee.rs: the protocol fee, on `u64` amounts with saturating operations. The
-- failure of an assertion is `none`.
pub mod Laws
use craftec_core.Prelude.{ℕ, ◌-◌, ◌*◌, ◌/◌, ◌==◌, leb, if◌then◌else◌, min, ◌||◌, Option, none, some}

abbrev pub protocol_fee_bps : ℕ
protocol_fee_bps = 500

abbrev pub max_protocol_fee_bps : ℕ
max_protocol_fee_bps = 5000

abbrev pub bps_denominator : ℕ
bps_denominator = 10000

-- `u64::MAX` and `u128::MAX`
abbrev pub u64_max : ℕ
u64_max = 18446744073709551615

abbrev pub u128_max : ℕ
u128_max = 340282366920938463463374607431768211455

-- `saturating_mul` of the type whose largest value is `top`.
abbrev pub saturating_mul : ℕ → ℕ → ℕ → ℕ
saturating_mul top a b = min (a * b) top

-- `calculate_fee`
unfoldable pub calculate_fee : ℕ → ℕ → Option (ℕ × ℕ)
calculate_fee amount fee_bps =
    let fee = saturating_mul u64_max amount fee_bps / bps_denominator in
    if leb fee_bps max_protocol_fee_bps then some (fee, amount - fee) else none

-- `calculate_default_fee`
unfoldable pub calculate_default_fee : ℕ → Option (ℕ × ℕ)
calculate_default_fee amount = calculate_fee amount protocol_fee_bps

-- `calculate_proportional_payout`
unfoldable pub calculate_proportional_payout : ℕ → ℕ → ℕ → ℕ → Option (ℕ × ℕ)
calculate_proportional_payout pool_balance operator_weight total_weight fee_bps =
    if total_weight == 0 || (operator_weight == 0 || pool_balance == 0)
    then some (0, 0)
    else let share = saturating_mul u128_max pool_balance operator_weight / total_weight in
      calculate_fee (min share u64_max) fee_bps
