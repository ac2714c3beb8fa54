-- ===== src/Gf256/Reference.antt =====
-- An independent description of the product of gf256.rs: the product of two polynomials over GF(2),
-- one term for each bit of the second factor, reduced modulo x^8 + x^4 + x^3 + x^2 + 1.
use Prim.Native.Nat.{bit_xor}
use native.Mathlib.Nat.{pow-suc}
use craftec_core.Gf256.{advance, mul}
use craftec_core.Gf256.Laws.{
  mul_at, value-mul, mul_at-bit_xor, mul_at-zero, mul_at_comm, mul_at-one, mul_at-advance,
}
use craftec_core.Gf256.LogExp.{passes, passes_sound, advance-lt}
use craftec_core.Gf256.Xor.{bit_xor_step, bit_xor-zero, bit_xor_comm}
use craftec_core.Prelude.{
  ℕ, zero, suc, ◌*◌, ◌/◌, ◌%◌, ◌^◌, ◌<◌, Bool, true, ◌==◌, ==_iff, ltb, if◌then◌else◌, Byte, arith,
  ◌≡◌, refl, sym, ap, ◌∙◌, ◌⊎◌, inl, inr, ap₂, subst,
}

-- `x` times a polynomial of degree below 8, reduced: 0x11D is subtracted where the degree is 8.
pub times_x : ℕ → ℕ
times_x a = if ltb a 128 then a * 2 else bit_xor (a * 2) 285

-- The product of `a` by the polynomial of the `bits` low bits of `b`.
pub polynomial_product : ℕ → ℕ → ℕ → ℕ
unfolding times_x
polynomial_product zero a b = 0
polynomial_product (suc bits) a b =
    bit_xor (if b % 2 == 0 then 0 else a) (polynomial_product bits (times_x a) (b / 2))

abbrev advance_test : ℕ → Bool
advance_test a = advance a == times_x a

advance_table : passes 256 advance_test ≡ true
unfolding passes advance times_x
advance_table = refl

advance-eq-times_x : (a : ℕ) → a < 256 → advance a ≡ times_x a
advance-eq-times_x a h = (==_iff _ _).0 (passes_sound 256 advance_test a advance_table h)

times_x-small : (a : ℕ) → a < 128 → times_x a ≡ a * 2
unfolding times_x
times_x-small a h = ground arith

-- The lowest bit, and the rest.
split_bits : (b : ℕ) → b ≡ bit_xor (b % 2) (b / 2 * 2)
split_bits b = omega (
  arith,
  bit_xor_step (b % 2) (b / 2 * 2),
  ap (λ (t : ℕ). bit_xor t (b / 2 * 2 / 2)) low,
  zero-xor (b / 2 * 2 / 2),
)
  where
    low : b % 2 / 2 ≡ 0
    low = omega arith

    zero-xor : (a : ℕ) → bit_xor 0 a ≡ a
    zero-xor a = bit_xor_comm 0 a ∙ bit_xor-zero a

mul_at-bit : (a b : ℕ) → a < 256 → mul_at a (b % 2) ≡ (if b % 2 == 0 then 0 else a)
mul_at-bit a b h = elim (bit b) [ inl e ↦ rw e (mul_at-zero a) | inr e ↦ rw e (mul_at-one a h) ]
  where
    bit : (b : ℕ) → (b % 2 ≡ 0) ⊎ (b % 2 ≡ 1)
    bit b = omega arith

mul_at-double : (a b : ℕ) → a < 256 → b < 128 → mul_at a (b * 2) ≡ mul_at (times_x a) b
mul_at-double a b p q =
    ap (mul_at a) (sym (times_x-small b q))
    ∙ ap (mul_at a) (sym (advance-eq-times_x b (omega arith)))
    ∙ mul_at-advance a b p (omega arith)
    ∙ ap advance (mul_at_comm a b)
    ∙ sym (mul_at-advance b a (omega arith) p)
    ∙ mul_at_comm b (advance a)
    ∙ ap (λ t. mul_at t b) (advance-eq-times_x a p)

mul_at-polynomial_product :
    (bits a b : ℕ) → a < 256 → b < 2 ^ bits → b < 256 → mul_at a b ≡ polynomial_product bits a b
unfolding polynomial_product
mul_at-polynomial_product zero a b p q r = ap (mul_at a) (omega arith) ∙ mul_at-zero a
mul_at-polynomial_product (suc bits) a b p q r =
    ap (mul_at a) (split_bits b)
    ∙ mul_at-bit_xor a (b % 2) (b / 2 * 2) p (omega arith) (omega arith)
    ∙ ap₂ bit_xor (mul_at-bit a b p) (
        mul_at-double a (b / 2) p (omega arith)
        ∙ mul_at-polynomial_product bits (times_x a) (b / 2)
            (subst (λ t. t < 256) (advance-eq-times_x a p) (advance-lt a p))
            (omega (arith, pow-suc 2 bits)) (omega arith))

-- `GF256::mul` is the product of polynomials over GF(2) modulo x^8 + x^4 + x^3 + x^2 + 1.
pub mul-polynomial_product : (a b : Byte) → (mul a b).value ≡ polynomial_product 8 a.value b.value
mul-polynomial_product a b =
    value-mul a b ∙ mul_at-polynomial_product 8 a.value b.value a.bound b.bound b.bound
