-- ===== src/Gf256/Laws.antt =====
-- The bytes under `add` and `mul` of gf256.rs are a field of characteristic 2.
use Prim.Native.Nat.{bit_xor}
use craftec_core.Gf256.{tables, entry, advance, add, mul, inv}
use craftec_core.Gf256.LogExp.{
  exp_at, log_at, exp-log, log-exp, exp-suc, exp-zero, log-one, advance-lt, advance-bit_xor,
}
use craftec_core.Gf256.Xor.{bit_xor-lt, bit_xor_comm, bit_xor_assoc, bit_xor-zero, bit_xor_self}
use craftec_core.Prelude.{
  ℕ, zero, suc, ◌+◌, ◌-◌, ◌%◌, ◌<◌, ◌||◌, ◌⊎◌, is_zero_iff, ◌==◌, if◌then◌else◌, none, some, Byte,
  u8, zero_byte, one_byte, is_zero, Byte_ext, value-u8, arith, ◌≡◌, ◌≢◌, refl, ◌∙◌, sym, ap, inl,
  inr, Bool-cases, ==_iff,
}

pub value-add : (a b : Byte) → (add a b).value ≡ bit_xor a.value b.value
unfolding add
value-add a b = value-u8 _ (bit_xor-lt 8 a.value b.value a.bound b.bound)

pub add_comm : (a b : Byte) → add a b ≡ add b a
add_comm a b = Byte_ext _ _ (rw (value-add a b, value-add b a) (bit_xor_comm a.value b.value))

pub add_assoc : (a b c : Byte) → add (add a b) c ≡ add a (add b c)
add_assoc a b c = Byte_ext _ _ (simp value-add (bit_xor_assoc a.value b.value c.value))

pub add-zero : (a : Byte) → add a zero_byte ≡ a
unfolding u8
add-zero a = Byte_ext _ _ (rw (value-add a zero_byte) (bit_xor-zero a.value))

pub zero-add : (a : Byte) → add zero_byte a ≡ a
zero-add a = add_comm zero_byte a ∙ add-zero a

-- Every element is its own negative.
pub add_self : (a : Byte) → add a a ≡ zero_byte
unfolding u8
add_self a = Byte_ext _ _ (rw (value-add a a) (bit_xor_self a.value))

-- `mul` on the values of bytes.
pub mul_at : ℕ → ℕ → ℕ
mul_at a b = if a == 0 || b == 0 then 0 else exp_at ((log_at a + log_at b) % 255)

pub value-mul : (a b : Byte) → (mul a b).value ≡ mul_at a.value b.value
unfolding mul mul_at exp_at log_at u8
value-mul a b = elim (Bool-cases (is_zero a || is_zero b)) [ inl e ↦ rw e | inr e ↦ rw e ]

pub mul_at_comm : (a b : ℕ) → mul_at a b ≡ mul_at b a
unfolding mul_at
mul_at_comm a b = ground arith

pub mul_comm : (a b : Byte) → mul a b ≡ mul b a
mul_comm a b = Byte_ext _ _ (value-mul a b ∙ mul_at_comm a.value b.value ∙ sym (value-mul b a))

pub mul_at-zero : (a : ℕ) → mul_at a 0 ≡ 0
unfolding mul_at
mul_at-zero a = ground arith

log-mul_at :
    (a b : ℕ)
    → a < 256
    → b < 256
    → a ≢ 0
    → b ≢ 0
    → (mul_at a b ≢ 0) × (log_at (mul_at a b) ≡ (log_at a + log_at b) % 255)
unfolding mul_at
log-mul_at a b p q na nb = ground (arith, log-exp ((log_at a + log_at b) % 255))

mul_at_assoc :
    (a b c : ℕ) → a < 256 → b < 256 → c < 256 → mul_at (mul_at a b) c ≡ mul_at a (mul_at b c)
unfolding mul_at
mul_at_assoc a b c p q r = ground (arith, log-mul_at a b p q, log-mul_at b c q r)

pub mul_assoc : (a b c : Byte) → mul (mul a b) c ≡ mul a (mul b c)
mul_assoc a b c =
    Byte_ext _ _ (simp value-mul (mul_at_assoc a.value b.value c.value a.bound b.bound c.bound))

pub mul-zero : (a : Byte) → mul a zero_byte ≡ zero_byte
unfolding u8
mul-zero a = Byte_ext _ _ (value-mul a zero_byte ∙ mul_at-zero a.value)

pub zero-mul : (a : Byte) → mul zero_byte a ≡ zero_byte
zero-mul a = mul_comm zero_byte a ∙ mul-zero a

-- Multiplying by `exp_at i` is advancing `i` times.
repeat_advance : ℕ → ℕ → ℕ
repeat_advance zero b = b
repeat_advance (suc i) b = advance (repeat_advance i b)

repeat_advance-lt : (i b : ℕ) → b < 256 → repeat_advance i b < 256
unfolding repeat_advance
repeat_advance-lt zero b h = h
repeat_advance-lt (suc i) b h = advance-lt _ (repeat_advance-lt i b h)

repeat_advance-bit_xor :
    (i b c : ℕ)
    → b < 256
    → c < 256
    → repeat_advance i (bit_xor b c) ≡ bit_xor (repeat_advance i b) (repeat_advance i c)
unfolding repeat_advance
repeat_advance-bit_xor zero b c p q = refl
repeat_advance-bit_xor (suc i) b c p q =
    ap advance (repeat_advance-bit_xor i b c p q)
    ∙ advance-bit_xor _ _ (repeat_advance-lt i b p) (repeat_advance-lt i c q)

repeat_advance-zero : (i : ℕ) → repeat_advance i 0 ≡ 0
unfolding repeat_advance advance
repeat_advance-zero zero = refl
repeat_advance-zero (suc i) = rw (repeat_advance-zero i)

repeat_advance-exp : (i k : ℕ) → k < 255 → repeat_advance i (exp_at k) ≡ exp_at ((i + k) % 255)
unfolding repeat_advance
repeat_advance-exp zero k h = ap exp_at (omega arith)
repeat_advance-exp (suc i) k h =
    ap advance (repeat_advance-exp i k h)
    ∙ sym (exp-suc ((i + k) % 255) (omega arith))
    ∙ ap exp_at (omega arith)

mul_at-repeat_advance :
    (a b : ℕ) → a < 256 → b < 256 → a ≢ 0 → mul_at a b ≡ repeat_advance (log_at a) b
unfolding mul_at
mul_at-repeat_advance a b p q ne =
    ground
      (arith, repeat_advance-zero (log_at a), repeat_advance-exp (log_at a) (log_at b), exp-log b q)

repeat_advance-suc : (i b : ℕ) → repeat_advance i (advance b) ≡ advance (repeat_advance i b)
unfolding repeat_advance
repeat_advance-suc zero b = refl
repeat_advance-suc (suc i) b = ap advance (repeat_advance-suc i b)

pub mul_at-advance : (a b : ℕ) → a < 256 → b < 256 → mul_at a (advance b) ≡ advance (mul_at a b)
mul_at-advance zero b p q = unfold mul_at advance in refl
mul_at-advance (suc a) b p q =
    mul_at-repeat_advance (suc a) (advance b) p (advance-lt b q) (omega arith)
    ∙ repeat_advance-suc (log_at (suc a)) b
    ∙ ap advance (sym (mul_at-repeat_advance (suc a) b p q (omega arith)))

pub mul_at-bit_xor :
    (a b c : ℕ)
    → a < 256
    → b < 256
    → c < 256
    → mul_at a (bit_xor b c) ≡ bit_xor (mul_at a b) (mul_at a c)
mul_at-bit_xor zero b c p q r = unfold mul_at in refl
mul_at-bit_xor (suc a) b c p q r =
    rw
      (
        mul_at-repeat_advance (suc a) b p q (omega arith),
        mul_at-repeat_advance (suc a) c p r (omega arith),
        mul_at-repeat_advance (suc a) (bit_xor b c) p (bit_xor-lt 8 b c q r) (omega arith),
      )
      (repeat_advance-bit_xor (log_at (suc a)) b c q r)

pub mul-add : (a b c : Byte) → mul a (add b c) ≡ add (mul a b) (mul a c)
mul-add a b c =
    Byte_ext _ _
      (simp (value-mul, value-add) (mul_at-bit_xor a.value b.value c.value a.bound b.bound c.bound))

pub add-mul : (a b c : Byte) → mul (add a b) c ≡ add (mul a c) (mul b c)
add-mul a b c = rw (mul_comm (add a b) c, mul_comm a c, mul_comm b c) (mul-add c a b)

pub mul_at-one : (a : ℕ) → a < 256 → mul_at a 1 ≡ a
unfolding mul_at
mul_at-one a h = ground (arith, log-one, exp-log a h)

pub one-mul : (a : Byte) → mul one_byte a ≡ a
unfolding u8
one-mul a = Byte_ext _ _ (value-mul one_byte a ∙ mul_at_comm 1 a.value ∙ mul_at-one a.value a.bound)

pub mul-one : (a : Byte) → mul a one_byte ≡ a
mul-one a = mul_comm a one_byte ∙ one-mul a

-- `inv` fails at 0 alone, and gives the inverse of any other byte.
pub inv-zero : inv zero_byte ≡ none
unfolding inv u8
inv-zero = refl

inverse_entry : Byte → Byte
inverse_entry a = entry tables.exp ((255 - log_at a.value) % 255)

value-inverse_entry : (a : Byte) → (inverse_entry a).value ≡ exp_at ((255 - log_at a.value) % 255)
unfolding inverse_entry exp_at
value-inverse_entry a = refl

inv_nonzero : (a : Byte) → a.value ≢ 0 → inv a ≡ some (inverse_entry a)
unfolding inv inverse_entry log_at
inv_nonzero a ne = elim (Bool-cases (is_zero a)) [
  | inl e ↦ absurd (ne ((==_iff a.value 0).0 e))
  | inr e ↦ rw e
]

mul_at-inverse : (a : ℕ) → a < 256 → a ≢ 0 → mul_at a (exp_at ((255 - log_at a) % 255)) ≡ 1
unfolding mul_at
mul_at-inverse a h ne =
    let k : ℕ = (255 - log_at a) % 255 in
    let at_zero : (log_at a + k) % 255 ≡ 0 = omega (arith, exp-log a h ne) in
    ground (
      arith,
      log-exp k (omega arith),
      exp-zero,
      ap (λ (t : ℕ). exp_at ((log_at a + t) % 255)) (log-exp k (omega arith)).0,
      ap exp_at at_zero,
    )

pub mul-inv : (a : Byte) → a.value ≢ 0 → (b : Byte) × (inv a ≡ some b) × (mul a b ≡ one_byte)
unfolding u8
mul-inv a ne = (
  inverse_entry a,
  inv_nonzero a ne,
  Byte_ext _ _ (
      value-mul a (inverse_entry a)
      ∙ ap (mul_at a.value) (value-inverse_entry a)
      ∙ mul_at-inverse a.value a.bound ne),
)

nonzero_value : (a : Byte) → a ≢ zero_byte → a.value ≢ 0
unfolding u8
nonzero_value a ne e = ne (Byte_ext a zero_byte e)

inv-cases :
    (a : Byte)
    → ((a ≡ zero_byte) × (inv a ≡ none))
      ⊎ ((a ≢ zero_byte) × ((i : Byte) × (inv a ≡ some i) × (mul a i ≡ one_byte)))
inv-cases a = elim (Bool-cases (is_zero a)) [
  | inl e ↦ let z = (is_zero_iff a).0 e in inl (z, ap inv z ∙ inv-zero)
  | inr e ↦
      let ne : a ≢ zero_byte = λ z. (let t = (is_zero_iff a).1 z in cc) in
      inr (ne, mul-inv a (nonzero_value a ne))
]

-- Addition and multiplication of bytes form a field of characteristic 2: both are associative and
-- commutative, 0 and 1 are neutral, every byte is its own negative, multiplication distributes over
-- addition, and `inv` fails at 0 alone and otherwise returns the multiplicative inverse.
pub field_laws :
    (a b c : Byte)
    → (add (add a b) c ≡ add a (add b c))
      × (add a b ≡ add b a)
      × (add a zero_byte ≡ a)
      × (add a a ≡ zero_byte)
      × (mul (mul a b) c ≡ mul a (mul b c))
      × (mul a b ≡ mul b a)
      × (mul a one_byte ≡ a)
      × (mul a (add b c) ≡ add (mul a b) (mul a c))
      × (((a ≡ zero_byte) × (inv a ≡ none))
          ⊎ ((a ≢ zero_byte) × ((i : Byte) × (inv a ≡ some i) × (mul a i ≡ one_byte))))
field_laws a b c = (
  add_assoc a b c,
  add_comm a b,
  add-zero a,
  add_self a,
  mul_assoc a b c,
  mul_comm a b,
  mul-one a,
  mul-add a b c,
  inv-cases a,
)
