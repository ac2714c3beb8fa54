-- ===== src/Gf256/MulTable.antt =====
-- `mul_table(a)` of gf256.rs holds the products of `a` by every byte.
use craftec_core.Gf256.{blank_table, tables, entry, mul, mul_table, fill_mul_table}
use craftec_core.Gf256.Laws.{zero-mul, mul-zero}
use native.Mathlib.Decide.{ℕ_discrete}
use craftec_core.Prelude.{
  ℕ, zero, suc, ◌+◌, ◌%◌, ◌≤◌, ◌<◌, List, length, length-set, set, length-replicate,
  get_or-replicate, get_or-set_self, get_or-set_ne, Byte, u8, zero_byte, is_zero, is_zero_iff,
  arith, ◌≡◌, refl, Bool-cases, inl, inr, ◌∙◌, sym, false, subst, ap,
}

product_entry : ℕ → ℕ → Byte
product_entry log_a x = entry tables.exp ((log_a + (entry tables.log x).value) % 255)

fill_mul_table-suc :
    (left x log_a : ℕ) (table : List Byte)
    → fill_mul_table (suc left) x log_a table
      ≡ fill_mul_table left (x + 1) log_a (set table x (product_entry log_a x))
unfolding fill_mul_table product_entry
fill_mul_table-suc left x log_a table = refl

-- The loop leaves the entries below `x`.
entry-fill_mul_table_below :
    (left x log_a : ℕ) (table : List Byte) (j : ℕ)
    → j < x
    → entry (fill_mul_table left x log_a table) j ≡ entry table j
entry-fill_mul_table_below zero x log_a table j h = unfold fill_mul_table in refl
entry-fill_mul_table_below (suc left) x log_a table j h =
    rw (fill_mul_table-suc left x log_a table) (
      entry-fill_mul_table_below left (x + 1) log_a _ j (omega arith)
      ∙ get_or-set_ne zero_byte table x j (product_entry log_a x) (omega arith))

-- The loop writes the entries from `x` on.
entry-fill_mul_table :
    (left x log_a : ℕ) (table : List Byte) (j : ℕ)
    → length table ≡ x + left
    → x ≤ j
    → j < x + left
    → entry (fill_mul_table left x log_a table) j ≡ product_entry log_a j
entry-fill_mul_table zero x log_a table j len low h = absurd (omega arith)
entry-fill_mul_table (suc left) x log_a table j len low h =
    let written = set table x (product_entry log_a x) in
    rw (fill_mul_table-suc left x log_a table) (elim (ℕ_discrete x j) [
      | yes e ↦
          entry-fill_mul_table_below left (x + 1) log_a written j (omega arith)
          ∙ subst (λ k. entry written k ≡ product_entry log_a k) e
              (get_or-set_self zero_byte table x (product_entry log_a x) (omega arith))
      | no ne ↦
          entry-fill_mul_table left (x + 1) log_a written j
            (omega (arith, length-set table x (product_entry log_a x))) (omega arith) (omega arith)
    ])

mul_nonzero :
    (a b : Byte)
    → is_zero a ≡ false
    → is_zero b ≡ false
    → mul a b ≡ product_entry (entry tables.log a.value).value b.value
unfolding mul product_entry
mul_nonzero a b p q = rw (p, q)

entry-blank_table : (i : ℕ) → entry blank_table i ≡ zero_byte
unfolding blank_table
entry-blank_table i = get_or-replicate 256 i zero_byte

length-blank_table : length blank_table ≡ 256
unfolding blank_table
length-blank_table = length-replicate 256 zero_byte

mul_table-zero : mul_table zero_byte ≡ blank_table
unfolding mul_table u8
mul_table-zero = refl

mul_table_nonzero :
    (a : Byte)
    → is_zero a ≡ false
    → mul_table a ≡ fill_mul_table 255 1 (entry tables.log a.value).value blank_table
unfolding mul_table
mul_table_nonzero a e = rw e

-- The entry at 0 is the initial one.
entry-mul_table-zero : (a : Byte) → is_zero a ≡ false → entry (mul_table a) 0 ≡ zero_byte
entry-mul_table-zero a e =
    ap (λ t. entry t 0) (mul_table_nonzero a e)
    ∙ entry-fill_mul_table_below 255 1 _ blank_table 0 (omega arith)
    ∙ entry-blank_table 0

entry-mul_table_at :
    (a b : Byte) → is_zero a ≡ false → is_zero b ≡ false → entry (mul_table a) b.value ≡ mul a b
entry-mul_table_at a b p q =
    ap (λ t. entry t b.value) (mul_table_nonzero a p)
    ∙ entry-fill_mul_table 255 1 _ blank_table b.value length-blank_table (ground arith)
        (omega (arith, b.bound))
    ∙ sym (mul_nonzero a b p q)

-- The entry of the table of `a` at `b` is the product of `a` and `b`, for all bytes.
pub entry-mul_table : (a b : Byte) → entry (mul_table a) b.value ≡ mul a b
unfolding u8
entry-mul_table a b = elim (Bool-cases (is_zero a)) [
  | inl p ↦
      subst (λ t. entry (mul_table t) b.value ≡ mul t b) (sym ((is_zero_iff a).0 p))
        (ap (λ t. entry t b.value) mul_table-zero ∙ entry-blank_table b.value ∙ sym (zero-mul b))
  | inr p ↦ elim (Bool-cases (is_zero b)) [
    | inl q ↦
        subst (λ t. entry (mul_table a) t.value ≡ mul a t) (sym ((is_zero_iff b).0 q))
          (entry-mul_table-zero a p ∙ sym (mul-zero a))
    | inr q ↦ entry-mul_table_at a b p q
  ]
]
