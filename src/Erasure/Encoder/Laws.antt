-- ===== src/Erasure/Encoder/Laws.antt =====
-- Every piece that the encoder makes carries the combination that its coefficients name.
use craftec_core.Erasure.Config.{CodedPiece}
use craftec_core.Erasure.Encoder.{RlncEncoder, combine_from, linear_combine}
use craftec_core.Gf256.{add, mul, mul_table}
use craftec_core.Gf256.Laws.{add_assoc, add-zero, zero-add}
use craftec_core.Linear.{at, xor_table, add_scaled, dot, column}
use craftec_core.Linear.Laws.{
  xor_table-mul_table, length-add_scaled, at-add_scaled, dot-nil, add_scaled-zero,
}
use craftec_core.Prelude.{
  ℕ, ◌<◌, if◌then◌else◌, Bool-cases, inl, inr, List, [], ◌∷◌, length, replicate, length-replicate,
  get_or-replicate, All, Byte, zero_byte, is_zero, is_zero_iff, arith, ◌≡◌, refl, sym, ap, ◌∙◌,
  subst,
}

-- `p` is the combination of the source pieces by its coefficients, one for each source piece.
pub record IsCoded (sources : List (List Byte)) (size : ℕ) (p : CodedPiece) : Type 0 where
  pub coefficients_length : length p.coefficients ≡ length sources
  pub bytes_length : length p.bytes ≡ size
  pub bytes_at : (j : ℕ) → j < size → at p.bytes j ≡ dot p.coefficients (column j sources)

-- Every source piece has the size of a piece.
abbrev pub IsValid : RlncEncoder → Type 0
IsValid e = All (λ p. length p ≡ e.piece_size) e.source_pieces

add_product :
    (c : Byte) (acc p : List Byte)
    → (if is_zero c then acc else xor_table (mul_table c) acc p) ≡ add_scaled c acc p
add_product c acc p = elim (Bool-cases (is_zero c)) [
  | inl e ↦ rw e (
      subst (λ c. acc ≡ add_scaled c acc p) (sym ((is_zero_iff c).0 e))
        (sym (add_scaled-zero acc p)))
  | inr e ↦ rw e (xor_table-mul_table c acc p)
]

pub combine_from-cons :
    (acc p : List Byte) (ps : List (List Byte)) (c : Byte) (cs : List Byte)
    → combine_from acc (p ∷ ps) (c ∷ cs) ≡ combine_from (add_scaled c acc p) ps cs
unfolding combine_from
combine_from-cons acc p ps c cs = ap (λ t. combine_from t ps cs) (add_product c acc p)

pub length-combine_from :
    (acc : List Byte) (ps : List (List Byte)) (cs : List Byte)
    → length (combine_from acc ps cs) ≡ length acc
length-combine_from acc [] cs = unfold combine_from in refl
length-combine_from acc (p ∷ ps) [] = unfold combine_from in refl
length-combine_from acc (p ∷ ps) (c ∷ cs) =
    ap length (combine_from-cons acc p ps c cs)
    ∙ length-combine_from (add_scaled c acc p) ps cs
    ∙ length-add_scaled c acc p

at-combine_from :
    (acc : List Byte) (ps : List (List Byte)) (cs : List Byte) (j : ℕ)
    → j < length acc
    → at (combine_from acc ps cs) j ≡ add (at acc j) (dot cs (column j ps))
at-combine_from acc [] cs j h =
    unfold combine_from in sym (ap (add (at acc j)) (dot-nil cs) ∙ add-zero (at acc j))
at-combine_from acc (p ∷ ps) [] j h = unfold combine_from dot in sym (add-zero (at acc j))
at-combine_from acc (p ∷ ps) (c ∷ cs) j h =
    ap (λ t. at t j) (combine_from-cons acc p ps c cs)
    ∙ at-combine_from (add_scaled c acc p) ps cs j (omega (arith, length-add_scaled c acc p))
    ∙ ap (λ t. add t (dot cs (column j ps))) (at-add_scaled c acc p j h)
    ∙ add_assoc (at acc j) (mul c (at p j)) (dot cs (column j ps))
    ∙ unfold dot in refl

-- `linear_combine` computes, at each position, the scalar product of the coefficients with the
-- bytes of the pieces at that position.
pub at-linear_combine :
    (ps : List (List Byte)) (cs : List Byte) (size j : ℕ)
    → j < size
    → at (linear_combine ps cs size) j ≡ dot cs (column j ps)
unfolding linear_combine
at-linear_combine ps cs size j h =
    at-combine_from (replicate size zero_byte) ps cs j
      (omega (arith, length-replicate size zero_byte))
    ∙ ap (λ t. add t (dot cs (column j ps))) (get_or-replicate size j zero_byte)
    ∙ zero-add (dot cs (column j ps))

pub length-linear_combine :
    (ps : List (List Byte)) (cs : List Byte) (size : ℕ) → length (linear_combine ps cs size) ≡ size
unfolding linear_combine
length-linear_combine ps cs size =
    length-combine_from (replicate size zero_byte) ps cs ∙ length-replicate size zero_byte
