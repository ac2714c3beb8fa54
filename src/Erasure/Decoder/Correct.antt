-- ===== src/Erasure/Decoder/Correct.antt =====
-- `RlncDecoder::decode` gives back the source bytes exactly when the coefficient vectors of the
-- first k pieces are independent.
use craftec_core.Erasure.Config.{CodedPiece, ok, err, linearly_dependent}
use craftec_core.Erasure.Decoder.{RlncDecoder, decode_columns, decode}
use craftec_core.Erasure.Decoder.Column.{decode_column-cases}
use craftec_core.Erasure.Decoder.Failure.{no_pivot-IsDependent}
use craftec_core.Erasure.Decoder.Invariant.{IsReduced, step-IsReduced}
use craftec_core.Erasure.Decoder.Kernel.{IsKernel, IsDependent, step-IsKernel, IsKernel-before}
use craftec_core.Erasure.Decoder.Rows.{no_piece, row_of, IsWide}
use craftec_core.Erasure.Encoder.Laws.{IsCoded}
use craftec_core.Linear.{at, dot, column, unit_vector}
use craftec_core.Linear.Laws.{dot-unit_vector, at-column, length-unit_vector, at-unit_vector}
use craftec_core.Prelude.{
  ℕ, zero, suc, ◌+◌, ◌≤◌, ◌<◌, ltb, false, ◌⊎◌, inl, inr, List, [], map, length, length-map,
  length-take, take, flatten, get_or, get_or_ext, get_or_beyond, get_or-map, get_or-take,
  All-get_or, All, Byte, zero_byte, arith, ◌≡◌, refl, sym, ap, ◌∙◌, subst,
}
use native.Mathlib.Decide.{dec_lt}

module _ (sources : List (List Byte)) (size k : ℕ) (width : length sources ≡ k) where
  IsReduced-IsWide :
      {col : ℕ} {rows : List CodedPiece} → IsReduced sources size k col rows → IsWide k rows
  IsReduced-IsWide inv r h = (inv.coded r (omega (arith, inv.count))).coefficients_length ∙ width

  -- The rounds that are left end in unit columns only, or stop at dependent coefficients.
  decode_columns-cases :
      (left col : ℕ) (rows : List CodedPiece)
      → col + left ≡ k
      → IsReduced sources size k col rows
      → ((decode_columns k left col rows ≡ err linearly_dependent) × IsDependent k rows)
        ⊎ ((last : List CodedPiece) × (decode_columns k left col rows ≡ ok last)
            × IsReduced sources size k k last
            × ((x : List Byte) → IsKernel k rows x → IsKernel k last x))
  unfolding decode_columns
  decode_columns-cases zero col rows e inv =
      let done : col ≡ k = omega arith in
      inr (rows, refl, subst (λ t. IsReduced sources size k t rows) done inv, λ x ker. ker)
  decode_columns-cases (suc left) col rows e inv =
      elim (decode_column-cases k col rows (omega arith) inv.count (IsReduced-IsWide inv)) [
        | inl (no_pivot, failed) ↦ inl (
          rw failed refl,
          no_pivot-IsDependent sources size k col rows width (omega arith) inv no_pivot,
        )
        | inr (next, made, step) ↦
            let hc : col < k = omega arith in
            let inv' = step-IsReduced sources size k col rows next width hc inv step in
            elim (decode_columns-cases left (col + 1) next (omega arith) inv') [
              | inl (failed, dep) ↦ inl (
                rw made failed,
                (
                  dep.0,
                  dep.1,
                  dep.2,
                  IsKernel-before sources size k col rows next width hc inv step dep.0 dep.3,
                ),
              )
              | inr (last, done, reduced, kept) ↦ inr (
                last,
                rw made done,
                reduced,
                λ x ker.
                    kept x (step-IsKernel sources size k col rows next width hc inv step x ker),
              )
            ]
      ]

  -- Unit columns only: the coefficients of a row are a unit vector, and its bytes a source piece.
  module _ (last : List CodedPiece) (inv : IsReduced sources size k k last) where
    coefficients-unit_vector : (r : ℕ) → r < k → (row_of last r).coefficients ≡ unit_vector k r
    coefficients-unit_vector r h =
        get_or_ext zero_byte (row_of last r).coefficients (unit_vector k r)
          ((inv.coded r h).coefficients_length ∙ width ∙ sym (length-unit_vector k r))
          λ c. elim (dec_lt c k) [
            | yes inside ↦ inv.units r c h inside ∙ sym (at-unit_vector k r c inside)
            | no outside ↦
                get_or_beyond (row_of last r).coefficients c zero_byte
                  (omega (arith, (inv.coded r h).coefficients_length))
                ∙ sym (
                    get_or_beyond (unit_vector k r) c zero_byte
                      (omega (arith, length-unit_vector k r)))
          ]

    bytes-source :
        All (λ p. length p ≡ size) sources
        → (r : ℕ) → r < k
        → (row_of last r).bytes ≡ get_or sources r []
    bytes-source valid r h =
        let c = inv.coded r h in
        let len = All-get_or (λ p. length p ≡ size) [] sources r valid (omega arith) in
        get_or_ext zero_byte (row_of last r).bytes (get_or sources r []) (c.bytes_length ∙ sym len)
          λ j. elim (dec_lt j size) [
            | yes inside ↦
                c.bytes_at j inside
                ∙ ap (λ t. dot t (column j sources)) (coefficients-unit_vector r h)
                ∙ dot-unit_vector k r (column j sources) h
                ∙ at-column j r sources
            | no outside ↦
                get_or_beyond (row_of last r).bytes j zero_byte (omega (arith, c.bytes_length))
                ∙ sym (get_or_beyond (get_or sources r []) j zero_byte (omega (arith, len)))
          ]

    All-bytes : All (λ p. length p ≡ size) sources → map (λ p. p.bytes) last ≡ sources
    All-bytes valid =
        get_or_ext [] (map (λ p. p.bytes) last) sources
          (length-map last (λ p. p.bytes) ∙ inv.count ∙ sym width)
          λ r. get_or-map (λ (p : CodedPiece). p.bytes) no_piece last r ∙ elim (dec_lt r k) [
            | yes inside ↦ bytes-source valid r inside
            | no outside ↦
                ap (λ p. p.bytes) (get_or_beyond last r no_piece (omega (arith, inv.count)))
                ∙ sym (get_or_beyond sources r [] (omega arith))
          ]

    orthogonal_to_all : (x : List Byte) → IsKernel k last x → (i : ℕ) → i < k → at x i ≡ zero_byte
    orthogonal_to_all x ker i h =
        sym (ap (λ t. dot t x) (coefficients-unit_vector i h) ∙ dot-unit_vector k i x h) ∙ ker i h

  first_rows-IsReduced :
      (pieces : List CodedPiece)
      → All (IsCoded sources size) pieces
      → k ≤ length pieces
      → IsReduced sources size k 0 (take k pieces)
  first_rows-IsReduced pieces coded enough = record {
    count = omega (arith, length-take k pieces);
    coded = λ r h.
        subst (IsCoded sources size) (sym (get_or-take no_piece k pieces r h))
          (All-get_or (IsCoded sources size) no_piece pieces r coded (omega arith));
    units = λ r c h none_left. absurd (omega arith);
  }

-- Given at least k pieces coded over k source pieces of one size, `decode` returns the first
-- `original_size` bytes of the concatenated source pieces if the coefficient vectors of the first k
-- pieces are independent, and `LinearlyDependent` if they are dependent. It never panics, and never
-- reports another error.
pub decode-cases :
    (sources : List (List Byte)) (size : ℕ) (d : RlncDecoder) (pieces : List CodedPiece)
    → length sources ≡ d.k
    → All (λ p. length p ≡ size) sources
    → All (IsCoded sources size) pieces
    → d.k ≤ length pieces
    → ((decode d pieces ≡ ok (take d.original_size (flatten sources)))
        × (¬ IsDependent d.k (take d.k pieces)))
      ⊎ ((decode d pieces ≡ err linearly_dependent) × IsDependent d.k (take d.k pieces))
unfolding decode
decode-cases sources size d pieces width valid coded enough =
    let start = first_rows-IsReduced sources size d.k width pieces coded enough in
    rw (not_short (length pieces) d.k enough)
      (elim (decode_columns-cases sources size d.k width d.k 0 (take d.k pieces) (omega arith)
        start) [
          | inl (failed, dependent) ↦ inr (rw failed refl, dependent)
          | inr (last, done, reduced, kept) ↦ inl (
            rw done (
                ap (λ t. ok (take d.original_size (flatten t)))
                  (All-bytes sources size d.k width last reduced valid)),
            λ dep. dep.2.2 (
                orthogonal_to_all sources size d.k width last reduced dep.0 (kept dep.0 dep.3)
                  dep.2.0 dep.2.1),
          )
        ])
  where
    not_short : (a b : ℕ) → b ≤ a → ltb a b ≡ false
    not_short a b h = ground arith
