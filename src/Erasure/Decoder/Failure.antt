-- ===== src/Erasure/Decoder/Failure.antt =====
-- A column without a pivot shows that the coefficient vectors are dependent.
use craftec_core.Erasure.Config.{CodedPiece}
use craftec_core.Erasure.Decoder.Invariant.{IsReduced, delta, delta_self, delta_ne}
use craftec_core.Erasure.Decoder.Kernel.{IsKernel, IsDependent}
use craftec_core.Erasure.Decoder.Rows.{row_of, coefficient}
use craftec_core.Gf256.{add, mul}
use craftec_core.Gf256.Laws.{
  add_comm, add_assoc, add-zero, zero-add, add_self, mul-one, one-mul, zero-mul,
}
use craftec_core.Linear.{at, dot}
use craftec_core.Linear.Laws.{dot_comm, dot-zeros}
use craftec_core.Prelude.{
  ℕ, zero, suc, ◌+◌, ◌-◌, ◌≤◌, ◌<◌, ltb, leb, ◌&&◌, if◌then◌else◌, true, false, List, [], ◌∷◌,
  length, length-replicate, replicate, Byte, zero_byte, one_byte, u8, arith, ◌≡◌, ◌≢◌, refl, sym,
  ap, ap₂, ◌∙◌,
}
use native.Mathlib.Decide.{ℕ_discrete, dec_lt}

-- The entries of column `col` in the rows from `c` on, `n` of them, then 1, then zeros.
unfoldable pub kernel_vector : List CodedPiece → ℕ → ℕ → ℕ → ℕ → List Byte
kernel_vector rows col c zero rest = one_byte ∷ replicate rest zero_byte
kernel_vector rows col c (suc n) rest =
    coefficient (row_of rows c) col ∷ kernel_vector rows col (c + 1) n rest

length-kernel_vector :
    (rows : List CodedPiece) (col c n rest : ℕ)
    → length (kernel_vector rows col c n rest) ≡ n + 1 + rest
unfolding kernel_vector
length-kernel_vector rows col c zero rest = omega (arith, length-replicate rest zero_byte)
length-kernel_vector rows col c (suc n) rest =
    omega (arith, length-kernel_vector rows col (c + 1) n rest)

at-kernel_vector :
    (rows : List CodedPiece) (col c n rest : ℕ) → at (kernel_vector rows col c n rest) n ≡ one_byte
unfolding kernel_vector
at-kernel_vector rows col c zero rest = refl
at-kernel_vector rows col c (suc n) rest = at-kernel_vector rows col (c + 1) n rest

-- The entry of row `r`, if it is among the rows from `c` on.
abbrev chosen : List CodedPiece → ℕ → ℕ → ℕ → ℕ → Byte
chosen rows col c n r =
    if leb c r && ltb r (c + n) then coefficient (row_of rows r) col else zero_byte

chosen-suc :
    (rows : List CodedPiece) (col c n r : ℕ)
    → add (mul (delta r c) (coefficient (row_of rows c) col)) (chosen rows col (c + 1) n r)
      ≡ chosen rows col c (suc n) r
chosen-suc rows col c n r = elim (ℕ_discrete r c) [
  | yes same ↦
      ap₂
        (λ d t.
          add (mul d (coefficient (row_of rows c) col))
            (if t then coefficient (row_of rows r) col else zero_byte))
        (ap (delta r) (sym same) ∙ delta_self r) (outside r c n same)
      ∙ add-zero _
      ∙ one-mul (coefficient (row_of rows c) col)
      ∙ ap (λ t. coefficient (row_of rows t) col) (sym same)
      ∙ ap (λ t. if t then coefficient (row_of rows r) col else zero_byte) (sym (inside r c n same))
  | no differ ↦
      ap (λ d. add (mul d (coefficient (row_of rows c) col)) (chosen rows col (c + 1) n r))
        (delta_ne r c differ)
      ∙ ap (λ t. add t (chosen rows col (c + 1) n r)) (zero-mul (coefficient (row_of rows c) col))
      ∙ zero-add (chosen rows col (c + 1) n r)
      ∙ ap (λ t. if t then coefficient (row_of rows r) col else zero_byte) (shifted r c n differ)
]
  where
    outside : (r c n : ℕ) → r ≡ c → (leb (c + 1) r && ltb r (c + 1 + n)) ≡ false
    outside r c n e = ground arith

    inside : (r c n : ℕ) → r ≡ c → (leb c r && ltb r (c + suc n)) ≡ true
    inside r c n e = ground arith

    shifted :
        (r c n : ℕ) → r ≢ c → (leb (c + 1) r && ltb r (c + 1 + n)) ≡ (leb c r && ltb r (c + suc n))
    shifted r c n ne = ground arith

-- A row whose entries from `c` on are those of a unit vector, `n` of them.
dot-kernel_vector :
    (rows : List CodedPiece) (col r c n rest : ℕ) (xs : List Byte)
    → n < length xs
    → ((j : ℕ) → j < n → at xs j ≡ delta r (c + j))
    → dot xs (kernel_vector rows col c n rest) ≡ add (chosen rows col c n r) (at xs n)
unfolding kernel_vector dot
dot-kernel_vector rows col r c n rest [] h units = absurd (omega arith)
dot-kernel_vector rows col r c zero rest (x ∷ xs) h units =
    ap₂ add (mul-one x) (dot_comm xs (replicate rest zero_byte) ∙ dot-zeros rest xs)
    ∙ add_comm x zero_byte
    ∙ ap (λ t. add (if t then coefficient (row_of rows r) col else zero_byte) x) (sym (empty r c))
  where
    empty : (r c : ℕ) → (leb c r && ltb r (c + 0)) ≡ false
    empty r c = ground arith
dot-kernel_vector rows col r c (suc n) rest (x ∷ xs) h units =
    let origin : c + 0 ≡ c = omega arith in
    let ih = dot-kernel_vector rows col r (c + 1) n rest xs (omega arith) λ j lt.
      let e : c + suc j ≡ c + 1 + j = omega arith in units (suc j) (omega arith) ∙ ap (delta r) e in
    ap₂ (λ d t. add (mul d (coefficient (row_of rows c) col)) t)
      (units 0 (omega arith) ∙ ap (delta r) origin) ih
    ∙ sym (
        add_assoc (mul (delta r c) (coefficient (row_of rows c) col)) (chosen rows col (c + 1) n r)
          (at xs n))
    ∙ ap (λ t. add t (at xs n)) (chosen-suc rows col c n r)

one-ne-zero : one_byte ≢ zero_byte
unfolding u8
one-ne-zero e = omega (arith, ap (λ (b : Byte). b.value) e)

module _ (sources : List (List Byte)) (size k col : ℕ) (rows : List CodedPiece)
    (width : length sources ≡ k) (hc : col < k) (inv : IsReduced sources size k col rows)
    (no_pivot : (j : ℕ) → col ≤ j → j < k → coefficient (row_of rows j) col ≡ zero_byte) where
  failing_vector : List Byte
  failing_vector = kernel_vector rows col 0 col (k - col - 1)

  failing_vector-IsKernel : IsKernel k rows failing_vector
  unfolding failing_vector
  failing_vector-IsKernel r h =
      dot-kernel_vector rows col r 0 col (k - col - 1) (row_of rows r).coefficients
        (omega (arith, (inv.coded r h).coefficients_length))
        (λ j lt. inv.units r j h lt ∙ ap (delta r) (sym (zero_plus j)))
      ∙ elim (dec_lt r col) [
        | yes above ↦
            ap
              (λ t.
                add (if t then coefficient (row_of rows r) col else zero_byte)
                  (coefficient (row_of rows r) col))
              (among r col above)
            ∙ add_self (coefficient (row_of rows r) col)
        | no below ↦
            ap₂ (λ t b. add (if t then coefficient (row_of rows r) col else zero_byte) b)
              (not_among r col below) (no_pivot r (omega arith) h)
            ∙ add-zero zero_byte
      ]
    where
      among : (r col : ℕ) → r < col → (leb 0 r && ltb r (0 + col)) ≡ true
      among r col h = ground arith

      not_among : (r col : ℕ) → ¬ (r < col) → (leb 0 r && ltb r (0 + col)) ≡ false
      not_among r col h = ground arith

      zero_plus : (j : ℕ) → 0 + j ≡ j
      zero_plus j = omega arith

  pub no_pivot-IsDependent : IsDependent k rows
  unfolding failing_vector
  no_pivot-IsDependent = (
    failing_vector,
    omega (arith, length-kernel_vector rows col 0 col (k - col - 1)),
    (col, hc, λ e. one-ne-zero (sym (at-kernel_vector rows col 0 col (k - col - 1)) ∙ e)),
    failing_vector-IsKernel,
  )
