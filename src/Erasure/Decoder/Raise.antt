-- ===== src/Erasure/Decoder/Raise.antt =====
-- The exchange that brings the pivot row up, row by row.
use craftec_core.Erasure.Config.{CodedPiece, ok}
use craftec_core.Erasure.Decoder.{swap, raise_pivot}
use craftec_core.Erasure.Decoder.Rows.{no_piece, row_of, index_lem}
use craftec_core.Prelude.{
  ℕ, ◌<◌, ◌==◌, ==_iff, if◌then◌else◌, false, Bool-cases, inl, inr, List, length, length-set,
  get_or-set_self, get_or-set_ne, set, arith, ◌≡◌, ◌≢◌, refl, sym, ap, ◌∙◌, subst,
}
use native.Mathlib.Decide.{ℕ_discrete}

pub differ_test : (a b : ℕ) → a ≢ b → (a == b) ≡ false
differ_test a b ne = ground arith

-- The rows once the pivot row has been exchanged with row `col`.
unfoldable pub raised : List CodedPiece → ℕ → ℕ → List CodedPiece
raised rows col p =
    if p == col then rows else set (set rows col (row_of rows p)) p (row_of rows col)

-- The row that stands at `r`, other than `col`, once the pivot row `p` has gone up.
abbrev pub prior : List CodedPiece → ℕ → ℕ → ℕ → CodedPiece
prior rows col p r = if r == p then row_of rows col else row_of rows r

module _ (rows : List CodedPiece) (col p : ℕ) (hc : col < length rows) (hp : p < length rows) where
  pub raise_pivot_lem : raise_pivot rows col p ≡ ok (raised rows col p)
  unfolding raise_pivot raised swap
  raise_pivot_lem = elim (Bool-cases (p == col)) [
    | inl e ↦ rw e
    | inr e ↦ rw (e, index_lem no_piece rows col hc, index_lem no_piece rows p hp) refl
  ]

  pub length-raised : length (raised rows col p) ≡ length rows
  unfolding raised
  length-raised = elim (Bool-cases (p == col)) [
    | inl e ↦ rw e
    | inr e ↦ rw e (
        length-set (set rows col (row_of rows p)) p (row_of rows col)
        ∙ length-set rows col (row_of rows p))
  ]

  pub row_of-raised_pivot : row_of (raised rows col p) col ≡ row_of rows p
  unfolding raised
  row_of-raised_pivot = elim (Bool-cases (p == col)) [
    | inl e ↦ rw e (ap (row_of rows) (sym ((==_iff p col).0 e)))
    | inr e ↦ rw e (
        get_or-set_ne no_piece (set rows col (row_of rows p)) p col (row_of rows col)
          (λ same. ground arith)
        ∙ get_or-set_self no_piece rows col (row_of rows p) hc)
  ]

  pub row_of-raised : (r : ℕ) → r ≢ col → row_of (raised rows col p) r ≡ prior rows col p r
  unfolding raised
  row_of-raised r ne = elim (Bool-cases (p == col)) [
    | inl e ↦
        rw (e, (==_iff p col).0 e)
          (elim (Bool-cases (r == col)) [
            | inl same ↦ absurd (ne ((==_iff r col).0 same))
            | inr differ ↦ rw differ
          ])
    | inr e ↦ rw e (elim (ℕ_discrete r p) [
      | yes same ↦ rw ((==_iff r p).1 same) (
          rw same (
            get_or-set_self no_piece (set rows col (row_of rows p)) p (row_of rows col)
              (omega (arith, length-set rows col (row_of rows p)))))
      | no differ ↦ rw (differ_test r p differ) (
          get_or-set_ne no_piece (set rows col (row_of rows p)) p r (row_of rows col)
            (λ same. differ (sym same))
          ∙ get_or-set_ne no_piece rows col r (row_of rows p) (λ same. ne (sym same)))
    ])
  ]

  pub row_of-raised_cases :
      (P : CodedPiece → Type 0)
      → ((r : ℕ) → r < length rows → P (row_of rows r))
      → (r : ℕ) → r < length (raised rows col p)
      → P (row_of (raised rows col p) r)
  row_of-raised_cases P all r h = elim (ℕ_discrete r col) [
    | yes same ↦
        subst P (sym (ap (row_of (raised rows col p)) same ∙ row_of-raised_pivot)) (all p hp)
    | no differ ↦ subst P (sym (row_of-raised r differ)) (elim (Bool-cases (r == p)) [
      | inl e ↦ rw e (all col hc)
      | inr e ↦ rw e (all r (omega (arith, length-raised)))
    ])
  ]
