-- ===== src/Erasure/Decoder/Rows.antt =====
-- What the steps of the elimination do to each row, with the index tests gone.
use craftec_core.Erasure.Config.{CodedPiece, ok, err, linearly_dependent}
use craftec_core.Erasure.Decoder.{index, cell, find_pivot, scale_piece, eliminate_row, eliminate}
use craftec_core.Gf256.{mul, mul_table}
use craftec_core.Linear.{at, add_scaled}
use craftec_core.Linear.Laws.{xor_table-mul_table, scale_table-mul_table, add_scaled-zero}
use craftec_core.Prelude.{
  ℕ, zero, suc, ◌+◌, ◌≤◌, ◌<◌, ◌==◌, if◌then◌else◌, Bool-cases, inl, inr, ◌⊎◌, List, [], ◌∷◌, map,
  length, get_or, Byte, zero_byte, is_zero, is_zero_iff, arith, ◌≡◌, ◌≢◌, refl, sym, ap, ◌∙◌, subst,
}
use native.Mathlib.Decide.{ℕ_discrete}

abbrev pub no_piece : CodedPiece
no_piece = record { bytes = []; coefficients = [] }

-- Row `r` of the matrix, and its coefficient in a column.
abbrev pub row_of : List CodedPiece → ℕ → CodedPiece
row_of rows r = get_or rows r no_piece

abbrev pub coefficient : CodedPiece → ℕ → Byte
coefficient p c = at p.coefficients c

pub index_lem {ℓ} :
    {A : Type ℓ} (d : A) (xs : List A) (i : ℕ) → i < length xs → index xs i ≡ ok (get_or xs i d)
unfolding index
index_lem d [] i h = absurd (omega arith)
index_lem d (x ∷ xs) zero h = refl
index_lem d (x ∷ xs) (suc i) h = index_lem d xs i (omega arith)

-- The multiples and sums of rows that the elimination forms.
unfoldable pub scaled_row : Byte → CodedPiece → CodedPiece
scaled_row a p = record { bytes = map (mul a) p.bytes; coefficients = map (mul a) p.coefficients }

unfoldable pub added_row : Byte → CodedPiece → CodedPiece → CodedPiece
added_row a p q = record {
  bytes = add_scaled a p.bytes q.bytes;
  coefficients = add_scaled a p.coefficients q.coefficients;
}

CodedPiece_ext :
    {bs bs' cs cs' : List Byte}
    → bs ≡ bs'
    → cs ≡ cs'
    → ◌≡◌ {A = CodedPiece}
        (record { bytes = bs; coefficients = cs })
        (record { bytes = bs'; coefficients = cs' })
CodedPiece_ext p q = λ i. record { bytes = p i; coefficients = q i }

pub scale_piece_lem : (a : Byte) (p : CodedPiece) → scale_piece (mul_table a) p ≡ scaled_row a p
unfolding scale_piece scaled_row
scale_piece_lem a p =
    CodedPiece_ext (scale_table-mul_table a p.bytes) (scale_table-mul_table a p.coefficients)

eliminate_row_lem :
    (col : ℕ) (pivot row : CodedPiece)
    → col < length row.coefficients
    → eliminate_row col pivot row ≡ ok (added_row (coefficient row col) row pivot)
unfolding eliminate_row added_row
eliminate_row_lem col pivot row h =
    let factor = coefficient row col in
    rw (index_lem zero_byte row.coefficients col h) (elim (Bool-cases (is_zero factor)) [
      | inl e ↦ rw e (ap ok (sym (by_zero factor ((is_zero_iff factor).0 e))))
      | inr e ↦ rw e (
          ap ok (
            CodedPiece_ext (xor_table-mul_table factor row.bytes pivot.bytes)
              (xor_table-mul_table factor row.coefficients pivot.coefficients)))
    ])
  where
    by_zero : (a : Byte) → a ≡ zero_byte → added_row a row pivot ≡ row
    by_zero a e =
        unfold added_row in
        subst (λ t. added_row t row pivot ≡ row) (sym e)
          (CodedPiece_ext (add_scaled-zero row.bytes pivot.bytes)
            (add_scaled-zero row.coefficients pivot.coefficients))

-- The row at index `r` after the elimination of column `col`.
abbrev pub reduced : ℕ → CodedPiece → ℕ → CodedPiece → CodedPiece
reduced col pivot r row = if r == col then row else added_row (coefficient row col) row pivot

unfoldable pub eliminated : ℕ → CodedPiece → ℕ → List CodedPiece → List CodedPiece
eliminated col pivot r [] = []
eliminated col pivot r (row ∷ rows) = reduced col pivot r row ∷ eliminated col pivot (r + 1) rows

abbrev pub IsWide : ℕ → List CodedPiece → Type 0
IsWide k rows = (r : ℕ) → r < length rows → length (row_of rows r).coefficients ≡ k

pub eliminate_lem :
    (k col : ℕ) (pivot : CodedPiece) (r : ℕ) (rows : List CodedPiece)
    → col < k
    → IsWide k rows
    → eliminate col pivot r rows ≡ ok (eliminated col pivot r rows)
unfolding eliminate eliminated
eliminate_lem k col pivot r [] h wide = refl
eliminate_lem k col pivot r (row ∷ rows) h wide =
    let ih = eliminate_lem k col pivot (r + 1) rows h (λ j lt. wide (suc j) (omega arith)) in
    let here = eliminate_row_lem col pivot row (omega (arith, wide 0 (omega arith))) in
    elim (Bool-cases (r == col)) [ inl e ↦ rw (e, ih) refl | inr e ↦ rw (e, here, ih) refl ]

pub length-eliminated :
    (col : ℕ) (pivot : CodedPiece) (r : ℕ) (rows : List CodedPiece)
    → length (eliminated col pivot r rows) ≡ length rows
unfolding eliminated
length-eliminated col pivot r [] = refl
length-eliminated col pivot r (row ∷ rows) = ap suc (length-eliminated col pivot (r + 1) rows)

pub row_of-eliminated :
    (col : ℕ) (pivot : CodedPiece) (r : ℕ) (rows : List CodedPiece) (j : ℕ)
    → j < length rows
    → row_of (eliminated col pivot r rows) j ≡ reduced col pivot (r + j) (row_of rows j)
unfolding eliminated
row_of-eliminated col pivot r [] j h = absurd (omega arith)
row_of-eliminated col pivot r (row ∷ rows) zero h =
    let e : r ≡ r + 0 = omega arith in ap (λ t. reduced col pivot t row) e
row_of-eliminated col pivot r (row ∷ rows) (suc j) h =
    let e : r + 1 + j ≡ r + suc j = omega arith in
    row_of-eliminated col pivot (r + 1) rows j (omega arith)
    ∙ ap (λ t. reduced col pivot t (row_of rows j)) e

pub cell_lem :
    (k : ℕ) (rows : List CodedPiece) (r c : ℕ)
    → r < length rows
    → c < k
    → IsWide k rows
    → cell rows r c ≡ ok (coefficient (row_of rows r) c)
unfolding cell
cell_lem k rows r c h lt wide =
    rw (index_lem no_piece rows r h)
      (index_lem zero_byte (row_of rows r).coefficients c (omega (arith, wide r h)))

-- The search finds the first row from `r` on with a nonzero entry, or there is none.
pub find_pivot-cases :
    (k : ℕ) (rows : List CodedPiece) (col left r : ℕ)
    → r + left ≡ length rows
    → col < k
    → IsWide k rows
    → ((j : ℕ) → r ≤ j → j < length rows → coefficient (row_of rows j) col ≡ zero_byte)
        × (find_pivot rows col left r ≡ err linearly_dependent)
      ⊎ ((p : ℕ) × (r ≤ p)
          × (p < length rows)
          × ((coefficient (row_of rows p) col).value ≢ 0)
          × (find_pivot rows col left r ≡ ok p))
unfolding find_pivot
find_pivot-cases k rows col zero r e h wide = inl (λ j p q. absurd (omega arith), refl)
find_pivot-cases k rows col (suc left) r e h wide =
    let b = coefficient (row_of rows r) col in
    let later = find_pivot-cases k rows col left (r + 1) (omega arith) h wide in
    rw (cell_lem k rows r col (omega arith) h wide) (elim (Bool-cases (is_zero b)) [
      | inl zero_b ↦ elim later [
        | inl (zeros, none_found) ↦ inl (
          λ j p q. elim (ℕ_discrete r j) [
            | yes same ↦
                subst (λ t. coefficient (row_of rows t) col ≡ zero_byte) same
                  ((is_zero_iff b).0 zero_b)
            | no differ ↦ zeros j (omega arith) q
          ],
          rw zero_b none_found,
        )
        | inr (p, low, high, nonzero, found) ↦ inr (p, omega arith, high, nonzero, rw zero_b found)
      ]
      | inr nonzero_b ↦ inr (r, omega arith, omega arith, λ z. ground arith, rw nonzero_b)
    ])
