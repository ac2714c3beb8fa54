-- ===== src/Erasure/Encoder/Coded.antt =====
-- The pieces of `encode` and of `create_piece_from_existing` are coded over the source pieces.
use craftec_core.Erasure.Config.{CodedPiece, ok}
use craftec_core.Erasure.Encoder.{
  RlncEncoder, k, identity_pieces, source_pieces, linear_combine, generate_one_piece,
  generate_coded_pieces, encode, add_pieces, blank_piece, create_piece_from_existing,
}
use craftec_core.Erasure.Encoder.Laws.{IsCoded, IsValid, at-linear_combine, length-linear_combine}
use craftec_core.Erasure.Encoder.Recombined.{
  IsCombination, count_nonzero, draw_alphas_total, add_pieces-IsCombination,
}
use craftec_core.Gf256.{add, mul}
use craftec_core.Linear.{at, add_scaled, column, unit_vector}
use craftec_core.Linear.Laws.{
  length-add_scaled, at-add_scaled, dot-add_scaled, dot-zeros, dot-unit_vector, at-column,
  length-unit_vector,
}
use craftec_core.Prelude.{
  ℕ, zero, suc, ◌+◌, ◌≤◌, ◌<◌, ltb, false, some, List, [], ◌∷◌, ◌++◌, length, length-append, take,
  drop, length-replicate, length-take, get_or, get_or-replicate, All, Byte, zero_byte, arith, ◌≡◌,
  ◌≢◌, refl, sym, ap, ap₂, ◌∙◌, ◌*◌, length-drop,
}

All-append {ℓ κ} :
    {A : Type ℓ} (P : A → Type κ) (xs ys : List A) → All P xs → All P ys → All P (xs ++ ys)
All-append P [] ys p q = q
All-append P (x ∷ xs) ys p q = (p.0, All-append P xs ys p.1 q)

module _ (sources : List (List Byte)) (size : ℕ) where
  identity_piece-IsCoded :
      (i : ℕ) (p : List Byte)
      → i < length sources
      → length p ≡ size
      → get_or sources i [] ≡ p
      → IsCoded sources size (record { bytes = p; coefficients = unit_vector (length sources) i })
  identity_piece-IsCoded i p h len e = record {
    coefficients_length = length-unit_vector (length sources) i;
    bytes_length = len;
    bytes_at = λ j lt. sym (
        dot-unit_vector (length sources) i (column j sources) h
        ∙ at-column j i sources
        ∙ ap (λ t. at t j) e);
  }

  identity_pieces-IsCoded :
      (i : ℕ) (ps : List (List Byte))
      → i + length ps ≡ length sources
      → ((j : ℕ) → get_or sources (i + j) [] ≡ get_or ps j [])
      → All (λ p. length p ≡ size) ps
      → All (IsCoded sources size) (identity_pieces (length sources) i ps)
  unfolding identity_pieces
  identity_pieces-IsCoded i [] len e v = tt
  identity_pieces-IsCoded i (p ∷ ps) len e v = (
    identity_piece-IsCoded i p (omega arith) v.0
        (ap (λ t. get_or sources t []) (omega arith) ∙ e 0),
    identity_pieces-IsCoded (i + 1) ps (omega arith)
        (λ j. ap (λ t. get_or sources t []) (omega arith) ∙ e (suc j)) v.1,
  )

  blank_piece-IsCoded : IsCoded sources size (blank_piece size (length sources))
  blank_piece-IsCoded = record {
    coefficients_length = length-replicate (length sources) zero_byte;
    bytes_length = length-replicate size zero_byte;
    bytes_at = λ j h.
        get_or-replicate size j zero_byte ∙ sym (dot-zeros (length sources) (column j sources));
  }

  -- A multiple of a coded piece can be added to a coded piece.
  pub add_scaled-IsCoded :
      (a : Byte) (p q : CodedPiece)
      → IsCoded sources size p
      → IsCoded sources size q
      → IsCoded sources size (record {
        bytes = add_scaled a p.bytes q.bytes;
        coefficients = add_scaled a p.coefficients q.coefficients;
      })
  add_scaled-IsCoded a p q cp cq = record {
    coefficients_length =
        length-add_scaled a p.coefficients q.coefficients ∙ cp.coefficients_length;
    bytes_length = length-add_scaled a p.bytes q.bytes ∙ cp.bytes_length;
    bytes_at = λ j h.
        at-add_scaled a p.bytes q.bytes j (omega (arith, cp.bytes_length))
        ∙ ap₂ add (cp.bytes_at j h) (ap (mul a) (cq.bytes_at j h))
        ∙ sym (
            dot-add_scaled a p.coefficients q.coefficients (column j sources)
              (omega (arith, cp.coefficients_length, cq.coefficients_length)));
  }

  pub add_pieces-IsCoded :
      (acc : CodedPiece) (ps : List CodedPiece) (alphas : List Byte)
      → IsCoded sources size acc
      → All (IsCoded sources size) ps
      → IsCoded sources size (add_pieces acc ps alphas)
  unfolding add_pieces
  add_pieces-IsCoded acc [] alphas c v = c
  add_pieces-IsCoded acc (p ∷ ps) [] c v = c
  add_pieces-IsCoded acc (p ∷ ps) (a ∷ alphas) c v =
      let next : CodedPiece = record {
        bytes = add_scaled a acc.bytes p.bytes;
        coefficients = add_scaled a acc.coefficients p.coefficients;
      } in
      add_pieces-IsCoded next ps alphas (add_scaled-IsCoded a acc p c v.0) v.1

module _ (e : RlncEncoder) (valid : IsValid e) where
  pub source_pieces-IsCoded : All (IsCoded e.source_pieces e.piece_size) (source_pieces e)
  unfolding source_pieces
  source_pieces-IsCoded =
      identity_pieces-IsCoded e.source_pieces e.piece_size 0 e.source_pieces (omega arith)
        (λ j. ap (λ t. get_or e.source_pieces t []) (omega arith)) valid

coded_by : RlncEncoder → List Byte → CodedPiece
coded_by e coeffs = record {
  bytes = linear_combine e.source_pieces coeffs e.piece_size;
  coefficients = coeffs;
}

coded_by-IsCoded :
    (e : RlncEncoder) (coeffs : List Byte)
    → length coeffs ≡ k e
    → IsCoded e.source_pieces e.piece_size (coded_by e coeffs)
unfolding coded_by
coded_by-IsCoded e coeffs h = record {
  coefficients_length = h;
  bytes_length = length-linear_combine e.source_pieces coeffs e.piece_size;
  bytes_at = λ j lt. at-linear_combine e.source_pieces coeffs e.piece_size j lt;
}

generate_one_piece_lem :
    (e : RlncEncoder) (rng : List Byte)
    → k e ≤ length rng
    → generate_one_piece e rng ≡ some (coded_by e (take (k e) rng), drop (k e) rng)
unfolding generate_one_piece coded_by
generate_one_piece_lem e rng h = rw (not_short (length rng) (k e) h)
  where
    not_short : (a b : ℕ) → b ≤ a → ltb a b ≡ false
    not_short a b h = ground arith

generate_coded_pieces-IsCoded :
    (e : RlncEncoder) (n : ℕ) (rng : List Byte)
    → n * k e ≤ length rng
    → (ps : List CodedPiece) × (generate_coded_pieces e n rng ≡ some ps)
      × (length ps ≡ n)
      × All (IsCoded e.source_pieces e.piece_size) ps
unfolding generate_coded_pieces
generate_coded_pieces-IsCoded e zero rng h = ([], refl, refl, tt)
generate_coded_pieces-IsCoded e (suc n) rng h =
    let enough : k e ≤ length rng = omega arith in
    let coeffs : List Byte = take (k e) rng in
    let (ps, made, count, coded) =
      generate_coded_pieces-IsCoded e n (drop (k e) rng) (omega (arith, length-drop (k e) rng)) in
    (
      coded_by e coeffs ∷ ps,
      rw (generate_one_piece_lem e rng enough, made) refl,
      omega arith,
      (coded_by-IsCoded e coeffs (omega (arith, length-take (k e) rng)), coded),
    )

length-identity_pieces :
    (count i : ℕ) (ps : List (List Byte)) → length (identity_pieces count i ps) ≡ length ps
unfolding identity_pieces
length-identity_pieces count i [] = refl
length-identity_pieces count i (p ∷ ps) = ap suc (length-identity_pieces count (i + 1) ps)

pub length-source_pieces : (e : RlncEncoder) → length (source_pieces e) ≡ k e
unfolding source_pieces
length-source_pieces e = length-identity_pieces (k e) 0 e.source_pieces

-- `encode` returns the source pieces followed by `n` more, all coded over the source pieces, for
-- every random stream with a byte for each coefficient.
pub encode-IsCoded :
    (e : RlncEncoder) (n : ℕ) (rng : List Byte)
    → IsValid e
    → n * k e ≤ length rng
    → (parity : List CodedPiece) × (encode e n rng ≡ some (source_pieces e ++ parity))
      × (length (source_pieces e ++ parity) ≡ k e + n)
      × All (IsCoded e.source_pieces e.piece_size) (source_pieces e ++ parity)
unfolding encode
encode-IsCoded e n rng valid h =
    let (ps, made, count, coded) = generate_coded_pieces-IsCoded e n rng h in
    (
      ps,
      rw made refl,
      omega (arith, length-append (source_pieces e) ps, length-source_pieces e),
      All-append (IsCoded e.source_pieces e.piece_size) (source_pieces e) ps
          (source_pieces-IsCoded e valid) coded,
    )

-- A piece made from at least two coded pieces, once the random stream holds a nonzero byte for each
-- of them, is coded over the same source pieces. Its bytes and coefficients are the combination
-- of those of all the given pieces, by the same nonzero factors, one for each piece.
pub create_piece_from_existing-IsCoded :
    (sources : List (List Byte)) (size : ℕ) (pieces : List CodedPiece) (rng : List Byte)
    → 2 ≤ length pieces
    → All (IsCoded sources size) pieces
    → length pieces ≤ count_nonzero rng
    → (p : CodedPiece) × (create_piece_from_existing pieces rng ≡ some (ok p))
      × IsCoded sources size p
      × ((alphas : List Byte) × All (λ a. a ≢ zero_byte) alphas
          × IsCombination size (length sources) pieces alphas p)
unfolding create_piece_from_existing
create_piece_from_existing-IsCoded sources size [] rng two v h = absurd (omega arith)
create_piece_from_existing-IsCoded sources size (q ∷ []) rng two v h = absurd (omega arith)
create_piece_from_existing-IsCoded sources size (q ∷ r ∷ ps) rng two v h =
    let (alphas, drawn, len, nonzero) = draw_alphas_total (length (q ∷ r ∷ ps)) rng h in
    let blank = blank_piece (length q.bytes) (length q.coefficients) in
    (
      add_pieces blank (q ∷ r ∷ ps) alphas,
      rw drawn refl,
      add_pieces-IsCoded sources size blank (q ∷ r ∷ ps) alphas
          (rw (v.0.bytes_length, v.0.coefficients_length) (blank_piece-IsCoded sources size)) v,
      (
        alphas,
        nonzero,
        rw (v.0.bytes_length, v.0.coefficients_length)
            (add_pieces-IsCombination size (length sources) (q ∷ r ∷ ps) alphas len),
      ),
    )
