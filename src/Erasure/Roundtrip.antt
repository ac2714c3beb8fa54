-- ===== src/Erasure/Roundtrip.antt =====
-- What `RlncEncoder` writes, `RlncDecoder` reads back.
use craftec_core.Erasure.Config.{CodedPiece, ok, div_ceil}
use craftec_core.Erasure.Decoder.{RlncDecoder, decode}
use craftec_core.Erasure.Decoder.Correct.{decode-cases}
use craftec_core.Erasure.Decoder.Kernel.{IsDependent}
use craftec_core.Erasure.Decoder.Rows.{no_piece, row_of}
use craftec_core.Erasure.Encoder.{RlncEncoder, k, new, source_pieces, identity_pieces, encode}
use craftec_core.Erasure.Encoder.Coded.{encode-IsCoded}
use craftec_core.Erasure.Encoder.Split.{new-IsValid}
use craftec_core.Linear.{dot, unit_vector}
use craftec_core.Linear.Laws.{dot-unit_vector}
use craftec_core.Prelude.{
  ℕ, zero, suc, ◌+◌, ◌*◌, ◌≤◌, ◌<◌, max, inl, inr, some, List, [], ◌∷◌, ◌++◌, length, take,
  get_or-take, Byte, arith, ◌≡◌, ◌≢◌, refl, sym, ap, ◌∙◌, subst,
}

row_of-identity_pieces :
    (count i : ℕ) (ps : List (List Byte)) (more : List CodedPiece) (r : ℕ)
    → r < length ps
    → (row_of (identity_pieces count i ps ++ more) r).coefficients ≡ unit_vector count (i + r)
unfolding identity_pieces
row_of-identity_pieces count i [] more r h = absurd (omega arith)
row_of-identity_pieces count i (p ∷ ps) more zero h =
    let e : i ≡ i + 0 = omega arith in ap (unit_vector count) e
row_of-identity_pieces count i (p ∷ ps) more (suc r) h =
    let e : i + 1 + r ≡ i + suc r = omega arith in
    row_of-identity_pieces count (i + 1) ps more r (omega arith) ∙ ap (unit_vector count) e

-- The source pieces are independent.
source_pieces-independent :
    (e : RlncEncoder) (more : List CodedPiece)
    → ¬ IsDependent (k e) (take (k e) (source_pieces e ++ more))
unfolding source_pieces
source_pieces-independent e more dep =
    let (x, len, nonzero, ker) = dep in
    let (i, h, differ) = nonzero in
    let origin : 0 + i ≡ i = omega arith in
    differ (
      sym (
        ap (λ t. dot t.coefficients x) (get_or-take no_piece (k e) (source_pieces e ++ more) i h)
        ∙ ap (λ t. dot t x)
            (row_of-identity_pieces (k e) 0 e.source_pieces more i h
              ∙ ap (unit_vector (k e)) origin)
        ∙ dot-unit_vector (k e) i x h)
      ∙ ker i h)

-- A segment that is not empty can be encoded with any number of parity pieces, and the decoder for
-- as many pieces and bytes gives it back.
pub decode-encode :
    (segment : List Byte) (size n : ℕ) (rng : List Byte)
    → segment ≢ []
    → 0 < size
    → n * max (div_ceil (length segment) size) 1 ≤ length rng
    → (e : RlncEncoder) × (pieces : List CodedPiece) × (new segment size ≡ ok e)
      × (encode e n rng ≡ some pieces)
      × (length pieces ≡ max (div_ceil (length segment) size) 1 + n)
      × (decode
            (record {
              k = max (div_ceil (length segment) size) 1;
              piece_size = size;
              original_size = length segment;
            })
            pieces
          ≡ ok segment)
decode-encode segment size n rng ne pos enough =
    let (e, made, valid, piece_size, count, content) = new-IsValid segment size ne pos in
    let (parity, encoded, number, coded) =
      encode-IsCoded e n rng valid (subst (λ t. n * t ≤ length rng) (sym count) enough) in
    let pieces : List CodedPiece = source_pieces e ++ parity in
    let d : RlncDecoder = record { k = k e; piece_size = size; original_size = length segment } in
    let decoded : decode d pieces ≡ ok segment =
      elim (decode-cases e.source_pieces e.piece_size d pieces refl valid coded (omega arith)) [
        | inl (good, independent) ↦ good ∙ ap ok content
        | inr (bad, dependent) ↦ absurd (source_pieces-independent e parity dependent)
      ] in
    (
      e,
      pieces,
      made,
      encoded,
      number ∙ ap (λ t. t + n) count,
      subst
          (λ t.
            decode (record { k = t; piece_size = size; original_size = length segment }) pieces
            ≡ ok segment)
          count decoded,
    )
