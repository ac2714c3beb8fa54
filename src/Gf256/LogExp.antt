-- ===== src/Gf256/LogExp.antt =====
-- What the two tables of gf256.rs hold, by evaluation: `exp` runs through the nonzero bytes in the
-- order of `advance`, and `log` is its inverse.
use Prim.Native.Nat.{bit_xor}
use craftec_core.Gf256.{tables, entry, advance}
use craftec_core.Prelude.{
  ℕ, zero, suc, ◌+◌, ◌%◌, ◌<◌, Bool, true, false, if◌then◌else◌, ◌&&◌, ◌||◌, ◌==◌, ==_iff, ltb, ◌≢◌,
  arith, ◌≡◌, refl,
}

-- Over a small range, every value is checked.
unfoldable pub passes : ℕ → (ℕ → Bool) → Bool
passes zero test = true
passes (suc bound) test = if test bound then passes bound test else false

pub passes_sound :
    (bound : ℕ) (test : ℕ → Bool) (i : ℕ) → passes bound test ≡ true → i < bound → test i ≡ true
unfolding passes
passes_sound zero test i passed below = absurd (omega arith)
passes_sound (suc bound) test i passed below = ground (arith, passes_sound bound test i)

unfoldable pub exp_at : ℕ → ℕ
exp_at i = (entry tables.exp i).value

unfoldable pub log_at : ℕ → ℕ
log_at x = (entry tables.log x).value

abbrev exp_log_test : ℕ → Bool
exp_log_test x = x == 0 || ltb (log_at x) 255 && exp_at (log_at x) == x

exp_log_table : passes 256 exp_log_test ≡ true
unfolding passes exp_at log_at tables
exp_log_table = refl

abbrev log_exp_test : ℕ → Bool
log_exp_test i = ltb 0 (exp_at i) && ltb (exp_at i) 256 && log_at (exp_at i) == i

log_exp_table : passes 255 log_exp_test ≡ true
unfolding passes exp_at log_at tables
log_exp_table = refl

abbrev exp_step_test : ℕ → Bool
exp_step_test i = exp_at ((i + 1) % 255) == advance (exp_at i)

exp_step_table : passes 255 exp_step_test ≡ true
unfolding passes exp_at tables advance
exp_step_table = refl

abbrev advance_xor_test : ℕ → ℕ → Bool
advance_xor_test a b = advance (bit_xor a b) == bit_xor (advance a) (advance b)

advance_xor_table : passes 256 (λ a. passes 256 (advance_xor_test a)) ≡ true
unfolding passes advance
advance_xor_table = refl

abbrev advance_lt_test : ℕ → Bool
advance_lt_test a = ltb (advance a) 256

advance_lt_table : passes 256 advance_lt_test ≡ true
unfolding passes advance
advance_lt_table = refl

pub exp-log : (x : ℕ) → x < 256 → x ≢ 0 → (exp_at (log_at x) ≡ x) × (log_at x < 255)
exp-log x h ne = ground (arith, passes_sound 256 exp_log_test x exp_log_table h)

pub log-exp : (i : ℕ) → i < 255 → (log_at (exp_at i) ≡ i) × (0 < exp_at i) × (exp_at i < 256)
log-exp i h = ground (arith, passes_sound 255 log_exp_test i log_exp_table h)

pub exp-suc : (i : ℕ) → i < 255 → exp_at ((i + 1) % 255) ≡ advance (exp_at i)
exp-suc i h = ground (arith, passes_sound 255 exp_step_test i exp_step_table h)

pub exp-zero : exp_at 0 ≡ 1
unfolding exp_at tables
exp-zero = refl

pub log-one : log_at 1 ≡ 0
unfolding log_at tables
log-one = refl

pub advance-lt : (a : ℕ) → a < 256 → advance a < 256
advance-lt a h = ground (arith, passes_sound 256 advance_lt_test a advance_lt_table h)

pub advance-bit_xor :
    (a b : ℕ) → a < 256 → b < 256 → advance (bit_xor a b) ≡ bit_xor (advance a) (advance b)
advance-bit_xor a b p q = (==_iff _ _).0 (
    passes_sound 256 (advance_xor_test a) b
      (passes_sound 256 (λ a. passes 256 (advance_xor_test a)) a advance_xor_table p) q)
