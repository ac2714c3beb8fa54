-- ===== src/Erasure/Decoder/Column.antt =====
-- One round of the elimination, as a relation between the rows before and after it.
use craftec_core.Erasure.Config.{CodedPiece, ok, err, ◌>>=◌, linearly_dependent}
use craftec_core.Erasure.Decoder.{inverse_or_fail, raise_pivot, clear_column, decode_column}
use craftec_core.Erasure.Decoder.Rows.{
  no_piece, row_of, coefficient, IsWide, scaled_row, added_row, reduced, eliminated, index_lem,
  scale_piece_lem, eliminate_lem, length-eliminated, row_of-eliminated, cell_lem, find_pivot-cases,
}
use craftec_core.Erasure.Decoder.Raise.{
  differ_test, raised, prior, raise_pivot_lem, length-raised, row_of-raised_pivot, row_of-raised,
  row_of-raised_cases,
}
use craftec_core.Gf256.{mul, inv}
use craftec_core.Gf256.Laws.{mul-inv}
use craftec_core.Prelude.{
  ℕ, ◌-◌, ◌≤◌, ◌<◌, ==_iff, inl, inr, ◌⊎◌, List, some, length, length-map, length-set,
  get_or-set_self, get_or-set_ne, set, Byte, zero_byte, one_byte, arith, ◌≡◌, ◌≢◌, refl, sym, ap,
  ap₂, ◌∙◌, subst,
}
use native.Mathlib.Nat.{zero-add}
use native.Mathlib.Decide.{ℕ_discrete}

-- `next` are the rows after the round for column `col`: the pivot row `p` is divided by its entry
-- and stands at `col`, and its multiples have been added to the other rows.
pub record IsColumnStep (k col : ℕ) (rows next : List CodedPiece) : Type 0 where
  pub p : ℕ
  pub i : Byte
  pub low : col ≤ p
  pub high : p < k
  pub nonzero : (coefficient (row_of rows p) col).value ≢ 0
  pub unit : mul (coefficient (row_of rows p) col) i ≡ one_byte
  pub count : length next ≡ k
  pub at_pivot : row_of next col ≡ scaled_row i (row_of rows p)
  pub elsewhere :
      (r : ℕ)
      → r < k
      → r ≢ col
      → row_of next r
        ≡ added_row
            (coefficient (prior rows col p r) col)
            (prior rows col p r)
            (scaled_row i (row_of rows p))

inverse_or_fail_lem : (b i : Byte) → inv b ≡ some i → inverse_or_fail b ≡ ok i
unfolding inverse_or_fail
inverse_or_fail_lem b i e = rw (e, inverse_or_fail) refl

length-scaled_row :
    (i : Byte) (p : CodedPiece) → length (scaled_row i p).coefficients ≡ length p.coefficients
unfolding scaled_row
length-scaled_row i p = length-map p.coefficients (mul i)

module _ (k col : ℕ) (rows : List CodedPiece) (hc : col < k) (count : length rows ≡ k)
    (wide : IsWide k rows) where
  abbrev pivot_of : Byte → CodedPiece
  pivot_of i = scaled_row i (row_of rows col)

  abbrev cleared : Byte → List CodedPiece
  cleared i = eliminated col (pivot_of i) 0 (set rows col (pivot_of i))

  set-IsWide : (i : Byte) → IsWide k (set rows col (pivot_of i))
  set-IsWide i r h = elim (ℕ_discrete col r) [
    | yes same ↦
        subst (λ t. length (row_of (set rows col (pivot_of i)) t).coefficients ≡ k) same
          (ap (λ t. length t.coefficients)
              (get_or-set_self no_piece rows col (pivot_of i) (omega arith))
            ∙ length-scaled_row i (row_of rows col)
            ∙ wide col (omega arith))
    | no differ ↦
        ap (λ t. length t.coefficients) (get_or-set_ne no_piece rows col r (pivot_of i) differ)
        ∙ wide r (omega (arith, length-set rows col (pivot_of i)))
  ]

  clear_column_lem :
      (i : Byte)
      → inv (coefficient (row_of rows col) col) ≡ some i
      → clear_column col rows ≡ ok (cleared i)
  unfolding clear_column
  clear_column_lem i e =
      rw
        (
          cell_lem k rows col col (omega arith) hc wide,
          inverse_or_fail_lem (coefficient (row_of rows col) col) i e,
          index_lem no_piece rows col (omega arith),
          scale_piece_lem i (row_of rows col),
        )
        (eliminate_lem k col (pivot_of i) 0 (set rows col (pivot_of i)) hc (set-IsWide i))

  length-cleared : (i : Byte) → length (cleared i) ≡ k
  length-cleared i =
      length-eliminated col (pivot_of i) 0 (set rows col (pivot_of i))
      ∙ length-set rows col (pivot_of i)
      ∙ count

  row_of-cleared :
      (i : Byte) (r : ℕ)
      → r < k
      → row_of (cleared i) r ≡ reduced col (pivot_of i) r (row_of (set rows col (pivot_of i)) r)
  row_of-cleared i r h =
      row_of-eliminated col (pivot_of i) 0 (set rows col (pivot_of i)) r
        (omega (arith, length-set rows col (pivot_of i)))
      ∙ ap (λ t. reduced col (pivot_of i) t (row_of (set rows col (pivot_of i)) r)) (zero-add r)

  row_of-cleared_pivot : (i : Byte) → row_of (cleared i) col ≡ pivot_of i
  row_of-cleared_pivot i =
      row_of-cleared i col hc
      ∙ rw ((==_iff col col).1 refl) (get_or-set_self no_piece rows col (pivot_of i) (omega arith))

  row_of-cleared_ne :
      (i : Byte) (r : ℕ)
      → r < k
      → r ≢ col
      → row_of (cleared i) r
        ≡ added_row (coefficient (row_of rows r) col) (row_of rows r) (pivot_of i)
  row_of-cleared_ne i r h ne =
      row_of-cleared i r h
      ∙ rw (differ_test r col ne) (
          ap (λ t. added_row (coefficient t col) t (pivot_of i))
            (get_or-set_ne no_piece rows col r (pivot_of i) (λ e. ne (sym e))))

module _ (k col : ℕ) (rows : List CodedPiece) (hc : col < k) (count : length rows ≡ k)
    (wide : IsWide k rows) (p : ℕ) (low : col ≤ p) (high : p < length rows)
    (nonzero : (coefficient (row_of rows p) col).value ≢ 0) where
  abbrev lifted : List CodedPiece
  lifted = raised rows col p

  col_in : col < length rows
  col_in = omega arith

  lifted-IsWide : IsWide k lifted
  lifted-IsWide = row_of-raised_cases rows col p col_in high (λ t. length t.coefficients ≡ k) wide

  after_pivot :
      (next : List CodedPiece) × ((raise_pivot rows col p >>= clear_column col) ≡ ok next)
      × IsColumnStep k col rows next
  after_pivot =
      let entry = coefficient (row_of rows p) col in
      let (i, found, unit) = mul-inv entry nonzero in
      let top : row_of lifted col ≡ row_of rows p = row_of-raised_pivot rows col p col_in high in
      let size : length lifted ≡ k = length-raised rows col p col_in high ∙ count in
      let inverse : inv (coefficient (row_of lifted col) col) ≡ some i =
        ap (λ t. inv (coefficient t col)) top ∙ found in
      (
        cleared k col lifted hc size lifted-IsWide i,
        rw (raise_pivot_lem rows col p col_in high)
            (clear_column_lem k col lifted hc size lifted-IsWide i inverse),
        record {
          p = p;
          i = i;
          low = low;
          high = omega arith;
          nonzero = nonzero;
          unit = unit;
          count = length-cleared k col lifted hc size lifted-IsWide i;
          at_pivot =
              row_of-cleared_pivot k col lifted hc size lifted-IsWide i ∙ ap (scaled_row i) top;
          elsewhere = λ r h ne.
              row_of-cleared_ne k col lifted hc size lifted-IsWide i r h ne
              ∙ ap₂ (λ a b. added_row (coefficient a col) a (scaled_row i b))
                  (row_of-raised rows col p col_in high r ne) top;
        },
      )

-- A round fails only where the column has no entry left to divide by; otherwise it is a step.
pub decode_column-cases :
    (k col : ℕ) (rows : List CodedPiece)
    → col < k
    → length rows ≡ k
    → IsWide k rows
    → (((j : ℕ) → col ≤ j → j < k → coefficient (row_of rows j) col ≡ zero_byte)
        × (decode_column k col rows ≡ err linearly_dependent))
      ⊎ ((next : List CodedPiece) × (decode_column k col rows ≡ ok next)
          × IsColumnStep k col rows next)
unfolding decode_column
decode_column-cases k col rows hc count wide =
    elim (find_pivot-cases k rows col (k - col) col (omega arith) hc wide) [
      | inl (zeros, failed) ↦ inl (λ j low high. zeros j low (omega arith), rw failed refl)
      | inr (p, low, high, nonzero, found) ↦
          let (next, done, step) = after_pivot k col rows hc count wide p low high nonzero in
          inr (next, rw found done, step)
    ]
