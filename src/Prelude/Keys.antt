-- ===== src/Prelude/Keys.antt =====
-- Keys, hashes and messages are lists of bytes: their tests, and when a concatenation determines its
-- parts.
use Prim.Native.Nat.{ℕ, ◌^◌, ◌<◌}
use mathlib.Core.Path.{◌≡◌, refl, sym, ap, ap₂, ◌∙◌}
use mathlib.Core.Logic.{◌≢◌, ◌⊎◌, inl, inr}
use mathlib.Core.Bool.{Bool, true, false, ◌&&◌}
use mathlib.Core.List.{List, [], ◌∷◌, ◌++◌}
use native.Mathlib.Omega.{arith}
use craftec_core.Prelude.Bytes.{
  Byte, byte_eq, byte_eq_iff, to_le_bytes, from_le_bytes, from_le_bytes-to_le_bytes,
}
use craftec_core.Prelude.Lists.{length}
use craftec_core.Prelude.Tests.{ltb, if◌then◌else◌, Bool-cases}

-- `==` and `<` on arrays of bytes.
unfoldable pub key_eq : List Byte → List Byte → Bool
key_eq [] [] = true
key_eq [] (b ∷ bs) = false
key_eq (a ∷ as') [] = false
key_eq (a ∷ as') (b ∷ bs) = byte_eq a b && key_eq as' bs

unfoldable pub key_lt : List Byte → List Byte → Bool
key_lt as' [] = false
key_lt [] (b ∷ bs) = true
key_lt (a ∷ as') (b ∷ bs) =
    let rest = key_lt as' bs in if byte_eq a b then rest else ltb a.value b.value

pub key_eq_refl : (xs : List Byte) → key_eq xs xs ≡ true
unfolding key_eq
key_eq_refl [] = refl
key_eq_refl (x ∷ xs) = ground (arith, key_eq_refl xs)

pub key_eq_sound : (a b : List Byte) → key_eq a b ≡ true → a ≡ b
unfolding key_eq
key_eq_sound [] [] e = refl
key_eq_sound [] (b ∷ bs) e = cc
key_eq_sound (a ∷ as') [] e = cc
key_eq_sound (a ∷ as') (b ∷ bs) e = elim (Bool-cases (byte_eq a b)) [
  | inl same ↦ ap₂ ◌∷◌ ((byte_eq_iff a b).0 same) (key_eq_sound as' bs (ground arith))
  | inr differs ↦ absurd (ground arith)
]

pub key_ne : (a b : List Byte) → key_eq a b ≡ false → a ≢ b
key_ne a b differ e = let same = ap (key_eq a) e ∙ differ in let here = key_eq_refl a in cc

-- Two keys are equal or not.
pub key-cases : (a b : List Byte) → (a ≡ b) ⊎ (a ≢ b)
key-cases a b = elim (Bool-cases (key_eq a b)) [
  | inl same ↦ inl (key_eq_sound a b same)
  | inr differ ↦ inr (key_ne a b differ)
]

-- Parts of the same length are determined.
pub append-injective {ℓ} :
    {A : Type ℓ} (xs ys xs' ys' : List A)
    → length xs ≡ length xs'
    → xs ++ ys ≡ xs' ++ ys'
    → (xs ≡ xs') × (ys ≡ ys')
append-injective [] ys [] ys' e h = (refl, h)
append-injective [] ys (x ∷ xs') ys' e h = absurd (omega arith)
append-injective (x ∷ xs) ys [] ys' e h = absurd (omega arith)
append-injective (x ∷ xs) ys (x' ∷ xs') ys' e h =
    let first : x ≡ x' = cc in
    let (firsts, rest) = append-injective xs ys xs' ys' (omega arith) cc in
    (ap₂ ◌∷◌ first firsts, rest)

-- A number that fits the word is determined by its bytes.
pub to_le_bytes-injective :
    (width m n : ℕ)
    → m < 256 ^ width
    → n < 256 ^ width
    → to_le_bytes width m ≡ to_le_bytes width n
    → m ≡ n
to_le_bytes-injective width m n hm hn e =
    sym (from_le_bytes-to_le_bytes width m hm)
    ∙ ap from_le_bytes e
    ∙ from_le_bytes-to_le_bytes width n hn
