-- ===== src/Gf256/Xor.antt =====
-- The bitwise exclusive or of the native numbers: one equation for the lowest digit, and the laws
-- that follow from it by recursion on a bound.
use Prim.Native.Nat.{bit_xor, bit_xor-bitwise, digits, differ}
use craftec_core.Prelude.{
  ℕ, zero, suc, ◌+◌, ◌*◌, ◌/◌, ◌%◌, ◌^◌, ◌≤◌, ◌<◌, ◌≡◌, refl, arith, ◌⊎◌, inl, inr, ap, ◌∙◌,
}
use native.Mathlib.Nat.{pow-suc}

abbrev xor_digits : ℕ → ℕ → ℕ → ℕ
xor_digits n a b = digits (λ b. b) differ n a b

-- A bound above the first number makes no difference.
xor_digits_bound : (a b m n : ℕ) → a ≤ m → m ≤ n → xor_digits n a b ≡ xor_digits m a b
xor_digits_bound zero b zero zero low high = refl
xor_digits_bound zero b zero (suc n) low high = refl
xor_digits_bound zero b (suc m) (suc n) low high = refl
xor_digits_bound zero b (suc m) zero low high = absurd (omega arith)
xor_digits_bound (suc a) b zero n low high = absurd (omega arith)
xor_digits_bound (suc a) b (suc m) zero low high = absurd (omega arith)
xor_digits_bound (suc a) b (suc m) (suc n) low high =
    rw (xor_digits_bound (suc a / 2) (b / 2) m n (omega arith) (omega arith))

digit-cases : (a : ℕ) → (a % 2 ≡ 0) ⊎ (a % 2 ≡ 1)
digit-cases a = omega arith

differ-mod : (a b : ℕ) → differ (a % 2) (b % 2) ≡ (a % 2 + b % 2) % 2
differ-mod a b = elim (digit-cases a) [
  | inl p ↦ elim (digit-cases b) [ inl q ↦ rw (p, q) refl | inr q ↦ rw (p, q) refl ]
  | inr p ↦ elim (digit-cases b) [ inl q ↦ rw (p, q) refl | inr q ↦ rw (p, q) refl ]
]

zero-bit_xor : (b : ℕ) → bit_xor 0 b ≡ b
zero-bit_xor b = bit_xor-bitwise 0 b

pub bit_xor_step : (a b : ℕ) → bit_xor a b ≡ bit_xor (a / 2) (b / 2) * 2 + (a % 2 + b % 2) % 2
bit_xor_step zero b = omega (arith, zero-bit_xor b, zero-bit_xor (b / 2))
bit_xor_step (suc a) b =
    let same = xor_digits_bound (suc a / 2) (b / 2) (suc a / 2) a (omega arith) (omega arith) in
    let whole = bit_xor-bitwise (suc a) b in
    let half = bit_xor-bitwise (suc a / 2) (b / 2) in
    omega (arith, whole, half, same, differ-mod (suc a) b)

bit_xor_comm_below : (n a b : ℕ) → a ≤ n → b ≤ n → bit_xor a b ≡ bit_xor b a
bit_xor_comm_below zero zero zero p q = refl
bit_xor_comm_below zero zero (suc b) p q = absurd (omega arith)
bit_xor_comm_below zero (suc a) b p q = absurd (omega arith)
bit_xor_comm_below (suc n) a b p q = omega (
  arith,
  bit_xor_step a b,
  bit_xor_step b a,
  bit_xor_comm_below n (a / 2) (b / 2) (omega arith) (omega arith),
)

pub bit_xor_comm : (a b : ℕ) → bit_xor a b ≡ bit_xor b a
bit_xor_comm a b = bit_xor_comm_below (a + b) a b (omega arith) (omega arith)

half-bit_xor : (a b : ℕ) → bit_xor a b / 2 ≡ bit_xor (a / 2) (b / 2)
half-bit_xor a b = omega (arith, bit_xor_step a b)

parity-bit_xor : (a b : ℕ) → bit_xor a b % 2 ≡ (a % 2 + b % 2) % 2
parity-bit_xor a b = omega (arith, bit_xor_step a b)

bit_xor_assoc_below :
    (n a b c : ℕ) → a + b + c ≤ n → bit_xor (bit_xor a b) c ≡ bit_xor a (bit_xor b c)
bit_xor_assoc_below zero zero zero zero p = refl
bit_xor_assoc_below zero zero zero (suc c) p = absurd (omega arith)
bit_xor_assoc_below zero zero (suc b) c p = absurd (omega arith)
bit_xor_assoc_below zero (suc a) b c p = absurd (omega arith)
bit_xor_assoc_below (suc n) a b c p = omega (
  arith,
  bit_xor_step (bit_xor a b) c,
  bit_xor_step a (bit_xor b c),
  parity-bit_xor a b,
  parity-bit_xor b c,
  ap (λ (t : ℕ). bit_xor t (c / 2)) (half-bit_xor a b),
  ap (λ (t : ℕ). bit_xor (a / 2) t) (half-bit_xor b c),
  bit_xor_assoc_below n (a / 2) (b / 2) (c / 2) (omega arith),
)

pub bit_xor_assoc : (a b c : ℕ) → bit_xor (bit_xor a b) c ≡ bit_xor a (bit_xor b c)
bit_xor_assoc a b c = bit_xor_assoc_below (a + b + c) a b c (omega arith)

pub bit_xor-zero : (a : ℕ) → bit_xor a 0 ≡ a
bit_xor-zero a = bit_xor_comm a 0 ∙ zero-bit_xor a

bit_xor_self_below : (n a : ℕ) → a ≤ n → bit_xor a a ≡ 0
bit_xor_self_below zero zero p = refl
bit_xor_self_below zero (suc a) p = absurd (omega arith)
bit_xor_self_below (suc n) a p =
    omega (arith, bit_xor_step a a, bit_xor_self_below n (a / 2) (omega arith))

pub bit_xor_self : (a : ℕ) → bit_xor a a ≡ 0
bit_xor_self a = bit_xor_self_below a a (omega arith)

-- `k` bits give `k` bits.
pub bit_xor-lt : (k a b : ℕ) → a < 2 ^ k → b < 2 ^ k → bit_xor a b < 2 ^ k
bit_xor-lt zero zero zero p q = omega arith
bit_xor-lt zero (suc a) b p q = absurd (omega arith)
bit_xor-lt zero zero (suc b) p q = absurd (omega arith)
bit_xor-lt (suc k) a b p q = omega (
  arith,
  bit_xor_step a b,
  pow-suc 2 k,
  bit_xor-lt k (a / 2) (b / 2) (omega (arith, pow-suc 2 k)) (omega (arith, pow-suc 2 k)),
)

-- Doubling is a shift, so it distributes.
pub bit_xor_double : (a b : ℕ) → bit_xor a b * 2 ≡ bit_xor (a * 2) (b * 2)
bit_xor_double a b = omega (
  arith,
  bit_xor_step (a * 2) (b * 2),
  ap (λ (t : ℕ). bit_xor t (b * 2 / 2)) halved,
  ap (λ (t : ℕ). bit_xor a t) (halved' b),
)
  where
    halved : a * 2 / 2 ≡ a
    halved = omega arith

    halved' : (b : ℕ) → b * 2 / 2 ≡ b
    halved' b = omega arith
