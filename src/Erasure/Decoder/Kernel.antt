-- ===== src/Erasure/Decoder/Kernel.antt =====
-- The vectors that all rows are orthogonal to: a round of the elimination neither adds nor loses
-- one, and a column without a pivot shows one that is not 0.
use craftec_core.Erasure.Config.{CodedPiece}
use craftec_core.Erasure.Decoder.Column.{IsColumnStep}
use craftec_core.Erasure.Decoder.Invariant.{
  IsReduced, value_at, value_at-scaled_row, value_at-added_row, prior-cases,
}
use craftec_core.Erasure.Decoder.Raise.{differ_test, prior}
use craftec_core.Erasure.Decoder.Rows.{row_of, coefficient, scaled_row}
use craftec_core.Gf256.{add, mul}
use craftec_core.Gf256.Laws.{add-zero, mul_assoc, one-mul, mul-zero}
use craftec_core.Linear.{at}
use craftec_core.Prelude.{
  ℕ, ◌<◌, ==_iff, List, length, length-map, Byte, zero_byte, arith, ◌≡◌, ◌≢◌, refl, sym, ap, ap₂,
  ◌∙◌,
}
use native.Mathlib.Decide.{ℕ_discrete}

-- The first `k` rows are orthogonal to `x`.
abbrev pub IsKernel : ℕ → List CodedPiece → List Byte → Type 0
IsKernel k rows x = (r : ℕ) → r < k → value_at x (row_of rows r) ≡ zero_byte

-- The coefficient vectors of the first `k` rows are linearly dependent: as a square matrix they
-- send some vector to 0 that is not 0.
abbrev pub IsDependent : ℕ → List CodedPiece → Type 0
IsDependent k rows =
    (x : List Byte) × (length x ≡ k)
    × ((i : ℕ) × (i < k) × (at x i ≢ zero_byte))
    × IsKernel k rows x

module _ (sources : List (List Byte)) (size k col : ℕ) (rows next : List CodedPiece)
    (width : length sources ≡ k) (hc : col < k) (inv : IsReduced sources size k col rows)
    (step : IsColumnStep k col rows next) where
  wide : (r : ℕ) → r < k → length (row_of rows r).coefficients ≡ k
  wide r h = (inv.coded r h).coefficients_length ∙ width

  prior_wide : (r : ℕ) → r < k → length (prior rows col step.p r).coefficients ≡ k
  prior_wide =
      prior-cases sources size k col rows next width hc inv step (λ t. length t.coefficients ≡ k)
        wide

  pivot_wide : length (scaled_row step.i (row_of rows step.p)).coefficients ≡ k
  unfolding scaled_row
  pivot_wide = length-map (row_of rows step.p).coefficients (mul step.i) ∙ wide step.p step.high

  -- The value of a row after the round, in terms of the rows before it.
  value_elsewhere :
      (x : List Byte) (r : ℕ)
      → r < k
      → r ≢ col
      → value_at x (row_of next r)
        ≡ add (value_at x (prior rows col step.p r)) (
            mul
              (coefficient (prior rows col step.p r) col)
              (mul step.i (value_at x (row_of rows step.p))))
  value_elsewhere x r h ne =
      let before = prior rows col step.p r in
      let f = coefficient before col in
      ap (value_at x) (step.elsewhere r h ne)
      ∙ value_at-added_row x f before (scaled_row step.i (row_of rows step.p))
          (omega (arith, prior_wide r h, pivot_wide))
      ∙ ap (λ t. add (value_at x before) (mul f t))
          (value_at-scaled_row x step.i (row_of rows step.p))

  value_pivot :
      (x : List Byte) → value_at x (row_of next col) ≡ mul step.i (value_at x (row_of rows step.p))
  value_pivot x = ap (value_at x) step.at_pivot ∙ value_at-scaled_row x step.i (row_of rows step.p)

  vanishes : (f v : Byte) → v ≡ zero_byte → mul f (mul step.i v) ≡ zero_byte
  vanishes f v e = ap (λ t. mul f (mul step.i t)) e ∙ ap (mul f) (mul-zero step.i) ∙ mul-zero f

  pub step-IsKernel : (x : List Byte) → IsKernel k rows x → IsKernel k next x
  step-IsKernel x ker r h = elim (ℕ_discrete r col) [
    | yes same ↦
        ap (λ t. value_at x (row_of next t)) same
        ∙ value_pivot x
        ∙ ap (mul step.i) (ker step.p step.high)
        ∙ mul-zero step.i
    | no differ ↦
        value_elsewhere x r h differ
        ∙ ap₂ add
            (prior-cases sources size k col rows next width hc inv step
              (λ t. value_at x t ≡ zero_byte) ker r h)
            (vanishes (coefficient (prior rows col step.p r) col) _ (ker step.p step.high))
        ∙ add-zero zero_byte
  ]

  -- Dividing the pivot row by its entry can be undone.
  pivot_value : (x : List Byte) → IsKernel k next x → value_at x (row_of rows step.p) ≡ zero_byte
  pivot_value x ker =
      let entry = coefficient (row_of rows step.p) col in
      let v = value_at x (row_of rows step.p) in
      sym (one-mul v)
      ∙ ap (λ t. mul t v) (sym step.unit)
      ∙ mul_assoc entry step.i v
      ∙ ap (mul entry) (sym (value_pivot x) ∙ ker col hc)
      ∙ mul-zero entry

  prior_value :
      (x : List Byte) (r : ℕ)
      → IsKernel k next x
      → r < k
      → r ≢ col
      → value_at x (prior rows col step.p r) ≡ zero_byte
  prior_value x r ker h ne =
      let before = prior rows col step.p r in
      sym (add-zero (value_at x before))
      ∙ ap (add (value_at x before)) (sym (vanishes (coefficient before col) _ (pivot_value x ker)))
      ∙ sym (value_elsewhere x r h ne)
      ∙ ker r h

  pub IsKernel-before : (x : List Byte) → IsKernel k next x → IsKernel k rows x
  IsKernel-before x ker r h = elim (ℕ_discrete r step.p) [
    | yes same ↦ ap (λ t. value_at x (row_of rows t)) same ∙ pivot_value x ker
    | no differ ↦ elim (ℕ_discrete r col) [
      | yes here ↦
          let apart : step.p ≢ col = λ e. differ (here ∙ sym e) in
          let lifted : prior rows col step.p step.p ≡ row_of rows col =
            rw ((==_iff step.p step.p).1 refl) in
          ap (λ t. value_at x (row_of rows t)) here
          ∙ ap (value_at x) (sym lifted)
          ∙ prior_value x step.p ker step.high apart
      | no there ↦
          let kept : prior rows col step.p r ≡ row_of rows r = rw (differ_test r step.p differ) in
          ap (value_at x) (sym kept) ∙ prior_value x r ker h there
    ]
  ]
