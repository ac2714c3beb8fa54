-- ===== src/Prelude/Bytes.antt =====
-- `u8`: a byte is a number with its bound, so that the laws of bytes hold with no side condition.
use Prim.Native.Nat.{ℕ, zero, suc, ◌+◌, ◌*◌, ◌/◌, ◌%◌, ◌^◌, ◌<◌}
use mathlib.Core.Path.{◌≡◌, refl, ap}
use mathlib.Core.Logic.{◌↔◌}
use mathlib.Core.Bool.{Bool, true}
use mathlib.Core.HLevel.{is_prop→PathP}
use mathlib.Core.List.{List, [], ◌∷◌}
use native.Mathlib.Nat.{pow-suc}
use native.Mathlib.Bridge.{le_prop}
use native.Mathlib.Omega.{arith}
use craftec_core.Prelude.Lists.{length}
use craftec_core.Prelude.Tests.{◌==◌, ==_iff}

pub record Byte : Type 0 where
  pub value : ℕ
  pub bound : value < 256

pub mod_byte-lt : (n : ℕ) → n % 256 < 256
mod_byte-lt n = omega arith

-- The cast `as u8`.
unfoldable pub u8 : ℕ → Byte
u8 n = record { value = n % 256; bound = mod_byte-lt n }

abbrev pub zero_byte : Byte
unfolding u8
zero_byte = u8 0

abbrev pub one_byte : Byte
unfolding u8
one_byte = u8 1

-- `x == 0`
abbrev pub is_zero : Byte → Bool
is_zero a = a.value == 0

-- `a == b`
abbrev pub byte_eq : Byte → Byte → Bool
byte_eq a b = a.value == b.value

-- Two bytes are equal when their values are.
pub Byte_ext : (a b : Byte) → a.value ≡ b.value → a ≡ b
Byte_ext a b e = λ i. record {
  value = e i;
  bound = is_prop→PathP (λ i. e i < 256) (λ i. le_prop) a.bound b.bound i;
}

pub byte_eq_iff : (a b : Byte) → (byte_eq a b ≡ true) ↔ (a ≡ b)
byte_eq_iff a b = (λ h. Byte_ext a b ((==_iff _ _).0 h), λ e. (==_iff _ _).1 (λ i. (e i).value))

pub is_zero_iff : (a : Byte) → (is_zero a ≡ true) ↔ (a ≡ zero_byte)
unfolding u8
is_zero_iff a = byte_eq_iff a zero_byte

pub value-u8 : (n : ℕ) → n < 256 → (u8 n).value ≡ n
unfolding u8
value-u8 n h = omega arith

-- `to_le_bytes` of a word of `width` bytes.
unfoldable pub to_le_bytes : ℕ → ℕ → List Byte
to_le_bytes zero n = []
to_le_bytes (suc width) n = u8 n ∷ to_le_bytes width (n / 256)

-- `from_le_bytes`
unfoldable pub from_le_bytes : List Byte → ℕ
from_le_bytes [] = 0
from_le_bytes (b ∷ bs) = b.value + 256 * from_le_bytes bs

pub length-to_le_bytes : (width n : ℕ) → length (to_le_bytes width n) ≡ width
unfolding to_le_bytes
length-to_le_bytes zero n = refl
length-to_le_bytes (suc width) n = ap suc (length-to_le_bytes width (n / 256))

-- A number that fits the word is read back.
pub from_le_bytes-to_le_bytes :
    (width n : ℕ) → n < 256 ^ width → from_le_bytes (to_le_bytes width n) ≡ n
unfolding to_le_bytes from_le_bytes u8
from_le_bytes-to_le_bytes zero n h = omega arith
from_le_bytes-to_le_bytes (suc width) n h =
    omega (arith, from_le_bytes-to_le_bytes width (n / 256) (omega (arith, pow-suc 256 width)))
