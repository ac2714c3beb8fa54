-- ===== src/Gf256.antt =====
-- crates/erasure/src/gf256.rs: arithmetic in GF(2^8) over the polynomial 0x11D.
pub mod Xor
pub mod LogExp
pub mod Laws
pub mod MulTable
pub mod Reference
use Prim.Native.Nat.{bit_and, bit_xor}
use craftec_core.Prelude.{
  ℕ, zero, suc, ◌+◌, ◌-◌, ◌*◌, ◌%◌, ◌||◌, Option, none, some, List, ◌==◌, if◌then◌else◌, get_or,
  set, replicate, Byte, u8, zero_byte, is_zero,
}

abbrev polynomial : ℕ
polynomial = 0x11D

-- `a[i]` of an array of 256 bytes at an index that is a byte or a remainder by 255: never out of
-- range, so the default is not reached.
abbrev pub entry : List Byte → ℕ → Byte
entry table i = get_or table i zero_byte

-- `[0u8; 256]`
unfoldable pub blank_table : List Byte
blank_table = replicate 256 zero_byte

pub record Tables : Type 0 where
  pub log : List Byte
  pub exp : List Byte

-- `val <<= 1; if val & 0x100 != 0 { val ^= POLYNOMIAL }`.
unfoldable pub advance : ℕ → ℕ
advance val =
    let twice = val * 2 in if bit_and twice 0x100 == 0 then twice else bit_xor twice polynomial

-- The loop `for i in 0..255`, with `left` rounds to go.
unfoldable pub fill_tables : ℕ → ℕ → ℕ → Tables → Tables
unfolding u8 advance
fill_tables zero i val t = t
fill_tables (suc left) i val t =
    fill_tables left (i + 1) (advance val)
      (record { log = set t.log val (u8 i); exp = set t.exp i (u8 val) })

-- The static `TABLES`.
unfoldable pub tables : Tables
unfolding fill_tables blank_table
tables =
    let t = fill_tables 255 0 1 (record { log = blank_table; exp = blank_table }) in
    record t { exp = set t.exp 255 (entry t.exp 0) }

-- `a ^ b`, which is also what `sub` and every `^=` on bytes compute.
unfoldable pub add : Byte → Byte → Byte
unfolding u8
add a b = u8 (bit_xor a.value b.value)

abbrev pub sub : Byte → Byte → Byte
sub a b = add a b

unfoldable pub mul : Byte → Byte → Byte
unfolding tables
mul a b =
    if is_zero a || is_zero b
    then zero_byte
    else entry tables.exp
        (((entry tables.log a.value).value + (entry tables.log b.value).value) % 255)

-- The loop `for x in 1..=255`, with `left` rounds to go.
unfoldable pub fill_mul_table : ℕ → ℕ → ℕ → List Byte → List Byte
unfolding tables
fill_mul_table zero x log_a table = table
fill_mul_table (suc left) x log_a table =
    fill_mul_table left (x + 1) log_a
      (set table x (entry tables.exp ((log_a + (entry tables.log x).value) % 255)))

unfoldable pub mul_table : Byte → List Byte
unfolding fill_mul_table blank_table
mul_table a =
    if is_zero a
    then blank_table
    else fill_mul_table 255 1 (entry tables.log a.value).value blank_table

unfoldable pub inv : Byte → Option Byte
unfolding tables
inv a =
    if is_zero a
    then none
    else some (entry tables.exp ((255 - (entry tables.log a.value).value) % 255))
