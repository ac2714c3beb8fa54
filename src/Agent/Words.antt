-- ===== src/Agent/Words.antt =====
-- The arguments of host functions: `i32` pointers and lengths into the memory of a guest, and texts.
use craftec_core.Settlement.Accounts.{ℤ, pos, negsuc}
use craftec_core.Prelude.{
  ℕ, zero, suc, ◌+◌, ◌-◌, ◌%◌, ◌^◌, ◌==◌, ltb, leb, if◌then◌else◌, Bool, true, false, ◌&&◌, Option,
  none, some, and_then, List, [], ◌∷◌, take, drop, length, Byte,
}

-- The sum of two `i32`; `none` is the panic of a debug build where it overflows.
unfoldable pub add_i32 : ℤ → ℤ → Option ℤ
add_i32 (pos a) (pos b) = if leb (a + b) 2147483647 then some (pos (a + b)) else none
add_i32 (pos a) (negsuc b) = if ltb b a then some (pos (a - b - 1)) else some (negsuc (b - a))
add_i32 (negsuc a) (pos b) = if ltb a b then some (pos (b - a - 1)) else some (negsuc (a - b))
add_i32 (negsuc a) (negsuc b) =
    if leb (a + b + 1) 2147483647 then some (negsuc (a + b + 1)) else none

-- `as usize`
abbrev pub as_usize : ℤ → ℕ
as_usize (pos n) = n
as_usize (negsuc n) = 18446744073709551615 - n

-- A number as a signed word of `width + 1` bits.
abbrev pub wrap_signed : ℕ → ℕ → ℤ
wrap_signed width n =
    if ltb (n % 2 ^ (width + 1)) (2 ^ width)
    then pos (n % 2 ^ (width + 1))
    else negsuc (2 ^ (width + 1) - 1 - n % 2 ^ (width + 1))

-- `as i32`, `as i64`
abbrev pub as_i32 : ℕ → ℤ
as_i32 n = wrap_signed 31 n

abbrev pub as_i64 : ℕ → ℤ
as_i64 n = wrap_signed 63 n

abbrev pub slice_to : List Byte → ℕ → ℕ → Option (List Byte)
slice_to data' start end =
    if leb start end
    then if leb end (length data') then some (take (end - start) (drop start data')) else none
    else none

-- `&data[ptr as usize..(ptr + len) as usize]`; `none` is a panic.
unfoldable pub slice_at : List Byte → ℤ → ℤ → Option (List Byte)
slice_at data' ptr len =
    and_then (add_i32 ptr len) (λ end. slice_to data' (as_usize ptr) (as_usize end))

-- What follows the first byte of a character: how many bytes, and the bounds of the first of them.
abbrev pub follow : ℕ → Option (ℕ × ℕ × ℕ)
follow b =
    if ltb b 128
    then some (0, 128, 191)
    else if ltb b 194
    then none
    else if ltb b 224
    then some (1, 128, 191)
    else if b == 224
    then some (2, 160, 191)
    else if b == 237
    then some (2, 128, 159)
    else if ltb b 240
    then some (2, 128, 191)
    else if b == 240
    then some (3, 144, 191)
    else if ltb b 244
    then some (3, 128, 191)
    else if b == 244
    then some (3, 128, 143)
    else none

-- UTF-8, with `count` bytes of a character still to come, the first of them within bounds.
unfoldable pub is_utf8_from : ℕ → ℕ → ℕ → List Byte → Bool
is_utf8_from zero low high [] = true
is_utf8_from (suc count) low high [] = false
is_utf8_from zero low high (b ∷ bs) = elim (follow b.value) [
  | none ↦ false
  | some next ↦ is_utf8_from next.0 next.1 next.2 bs
]
is_utf8_from (suc count) low high (b ∷ bs) =
    leb low b.value && leb b.value high && is_utf8_from count 128 191 bs

-- Whether `std::str::from_utf8` returns the text.
abbrev pub is_utf8 : List Byte → Bool
is_utf8 bytes = is_utf8_from 0 128 191 bytes
