-- ===== src/Erasure/Homomorphic/Verify.antt =====
-- `verify_piece` of homomorphic.rs accepts a piece exactly when its error, the sum of its bytes and
-- of the combination that its coefficients name, is orthogonal to every projection.
use craftec_core.Erasure.Config.{CodedPiece, ok}
use craftec_core.Erasure.Encoder.{combine_from, linear_combine}
use craftec_core.Erasure.Encoder.Laws.{
  IsCoded, combine_from-cons, at-linear_combine, length-linear_combine,
}
use craftec_core.Erasure.Homomorphic.{
  SegmentHashes, hash_projections, gf256_dot, generate_projection, generate_segment_hashes,
  expected_from, check_projections, verify_piece,
}
use craftec_core.Erasure.Homomorphic.Laws.{
  gf256_dot_lem, length-generate_projection, expected_from-dot, hashes_of, column-hashes_of,
  generate_segment_hashes_lem, length-hashes_of,
}
use craftec_core.Gf256.{add, mul}
use craftec_core.Gf256.Laws.{add_assoc, add-zero, zero-add, add_self, one-mul}
use craftec_core.Linear.{add_scaled, dot, column}
use craftec_core.Linear.Laws.{length-add_scaled, dot-nil, dot-add_scaled, dot-zeros}
use craftec_core.Prelude.{
  ℕ, zero, suc, ◌+◌, ◌≤◌, ◌<◌, ◌==◌, ==_iff, Bool, true, false, Bool-cases, ◌⊎◌, inl, inr, List, [],
  ◌∷◌, map, length, length-map, length-replicate, replicate, get_or_ext, get_or_beyond, All, Byte,
  zero_byte, one_byte, byte_eq, byte_eq_iff, arith, ◌≡◌, ◌≢◌, refl, sym, ap, ap₂, ◌∙◌, subst,
}
use native.Mathlib.Decide.{ℕ_discrete, dec_lt}

dot-combine_from :
    (acc : List Byte) (ps : List (List Byte)) (cs v : List Byte)
    → All (λ p. length p ≡ length acc) ps
    → dot (combine_from acc ps cs) v ≡ add (dot acc v) (dot cs (map (λ p. dot p v) ps))
dot-combine_from acc [] cs v sizes =
    unfold combine_from in sym (ap (add (dot acc v)) (dot-nil cs) ∙ add-zero (dot acc v))
dot-combine_from acc (p ∷ ps) [] v sizes = unfold combine_from dot in sym (add-zero (dot acc v))
dot-combine_from acc (p ∷ ps) (c ∷ cs) v sizes =
    ap (λ t. dot t v) (combine_from-cons acc p ps c cs)
    ∙ dot-combine_from (add_scaled c acc p) ps cs v
        (subst (λ n. All (λ p. length p ≡ n) ps) (sym (length-add_scaled c acc p)) sizes.1)
    ∙ ap (λ t. add t (dot cs (map (λ p. dot p v) ps)))
        (dot-add_scaled c acc p v (omega (arith, sizes.0)))
    ∙ add_assoc (dot acc v) (mul c (dot p v)) (dot cs (map (λ p. dot p v) ps))
    ∙ unfold dot in refl

-- The projection of a combination is the combination of the projections.
pub dot-linear_combine :
    (ps : List (List Byte)) (cs v : List Byte) (size : ℕ)
    → All (λ p. length p ≡ size) ps
    → dot (linear_combine ps cs size) v ≡ dot cs (map (λ p. dot p v) ps)
unfolding linear_combine
dot-linear_combine ps cs v size sizes =
    dot-combine_from (replicate size zero_byte) ps cs v
      (subst (λ n. All (λ p. length p ≡ n) ps) (sym (length-replicate size zero_byte)) sizes)
    ∙ ap (λ t. add t (dot cs (map (λ p. dot p v) ps))) (dot-zeros size v)
    ∙ zero-add _

-- The error of a piece over the original pieces.
abbrev pub discrepancy : List (List Byte) → ℕ → CodedPiece → List Byte
discrepancy sources size p =
    add_scaled one_byte p.bytes (linear_combine sources p.coefficients size)

module _ (blake3 : List Byte → List Byte) (digest : (m : List Byte) → length (blake3 m) ≡ 32)
    (seed : List Byte) (size : ℕ) (hashes : SegmentHashes) (same_seed : hashes.seed ≡ seed)
    (piece : CodedPiece) (fits : length piece.bytes ≡ size) where
  abbrev actual : ℕ → Byte
  actual index = dot piece.bytes (generate_projection blake3 seed index size)

  abbrev expected : ℕ → Byte
  expected index = dot piece.coefficients (column index hashes.piece_hashes)

  actual_lem :
      (index : ℕ)
      → gf256_dot piece.bytes (generate_projection blake3 hashes.seed index (length piece.bytes))
        ≡ ok (actual index)
  actual_lem index =
      ap₂ (λ s n. gf256_dot piece.bytes (generate_projection blake3 s index n)) same_seed fits
      ∙ gf256_dot_lem piece.bytes _
          (fits ∙ sym (length-generate_projection blake3 digest seed index size))

  check_projections-cases :
      (left index : ℕ)
      → ((check_projections blake3 piece hashes left index ≡ ok true)
          × ((j : ℕ) → index ≤ j → j < index + left → actual j ≡ expected j))
        ⊎ ((check_projections blake3 piece hashes left index ≡ ok false)
            × ((j : ℕ) × (index ≤ j) × (j < index + left) × (actual j ≢ expected j)))
  unfolding check_projections
  check_projections-cases zero index = inl (refl, λ j low high. absurd (omega arith))
  check_projections-cases (suc left) index =
      let here : expected_from hashes.piece_hashes index zero_byte 0 piece.coefficients
          ≡ expected index =
        expected_from-dot hashes.piece_hashes index zero_byte 0 piece.coefficients ∙ zero-add _ in
      let later = check_projections-cases left (index + 1) in
      rw (actual_lem index, here)
        (elim (Bool-cases (byte_eq (actual index) (expected index))) [
          | inl e ↦ elim later [
            | inl (passed, all) ↦ inl (
              rw e passed,
              λ j low high. elim (ℕ_discrete index j) [
                | yes same ↦
                    subst (λ t. actual t ≡ expected t) same
                      ((byte_eq_iff (actual index) (expected index)).0 e)
                | no differ ↦ all j (omega arith) (omega arith)
              ],
            )
            | inr (failed, found) ↦
                inr
                  (rw e failed, (found.0, omega (arith, found.1), omega (arith, found.2), found.3))
          ]
          | inr e ↦ inr (
            rw e refl,
            (
              index,
              omega arith,
              omega arith,
              λ same.
                  true_false (byte_eq (actual index) (expected index))
                    ((byte_eq_iff (actual index) (expected index)).1 same) e,
            ),
          )
        ])
    where
      true_false : (b : Bool) → b ≡ true → b ≡ false → ⊥
      true_false b p q = cc

module _ (blake3 : List Byte → List Byte) (digest : (m : List Byte) → length (blake3 m) ≡ 32)
    (seed : List Byte) (originals : List CodedPiece) (size : ℕ) (nonempty : originals ≢ [])
    (sizes : All (λ p. length p.bytes ≡ size) originals) where
  abbrev sources : List (List Byte)
  sources = map (λ p. p.bytes) originals

  abbrev projection : ℕ → List Byte
  projection index = generate_projection blake3 seed index size

  sources_sizes :
      (ps : List CodedPiece)
      → All (λ p. length p.bytes ≡ size) ps
      → All (λ p. length p ≡ size) (map (λ p. p.bytes) ps)
  sources_sizes [] all = tt
  sources_sizes (p ∷ ps) all = (all.0, sources_sizes ps all.1)

  map-bytes :
      (ps : List CodedPiece) (v : List Byte)
      → map (λ p. dot p.bytes v) ps ≡ map (λ p. dot p v) (map (λ p. p.bytes) ps)
  map-bytes [] v = refl
  map-bytes (p ∷ ps) v = ap (◌∷◌ (dot p.bytes v)) (map-bytes ps v)

  -- What the hashes predict for a projection is the projection of the combination.
  expected_lem :
      (piece : CodedPiece) (index : ℕ)
      → index < hash_projections
      → dot piece.coefficients (column index (hashes_of blake3 digest seed size originals))
        ≡ dot (linear_combine sources piece.coefficients size) (projection index)
  expected_lem piece index h =
      ap (dot piece.coefficients) (
        column-hashes_of blake3 digest seed size originals index h
        ∙ map-bytes originals (projection index))
      ∙ sym (
          dot-linear_combine sources piece.coefficients (projection index) size
            (sources_sizes originals sizes))

  error_lem :
      (piece : CodedPiece) (v : List Byte)
      → length piece.bytes ≡ size
      → dot (discrepancy sources size piece) v
        ≡ add (dot piece.bytes v) (dot (linear_combine sources piece.coefficients size) v)
  error_lem piece v fits =
      dot-add_scaled one_byte piece.bytes (linear_combine sources piece.coefficients size) v
        (omega (arith, length-linear_combine sources piece.coefficients size))
      ∙ ap (add (dot piece.bytes v)) (one-mul _)

  abbrev segment_hashes : SegmentHashes
  segment_hashes = record {
    seed = seed;
    piece_hashes = hashes_of blake3 digest seed size originals;
  }

  length-nonzero : (ps : List CodedPiece) → ps ≢ [] → (length ps == 0) ≡ false
  length-nonzero [] ne = absurd (ne refl)
  length-nonzero (p ∷ ps) ne = ground arith

  verify_piece_lem :
      (piece : CodedPiece)
      → length piece.coefficients ≡ length originals
      → verify_piece blake3 piece segment_hashes
        ≡ check_projections blake3 piece segment_hashes hash_projections 0
  unfolding verify_piece
  verify_piece_lem piece shape =
      rw
        (
          length-hashes_of blake3 digest seed size originals,
          (==_iff (length piece.coefficients) (length originals)).1 shape,
          length-nonzero originals nonempty,
        )
        refl

  eq_of_add-zero : (a b : Byte) → add a b ≡ zero_byte → a ≡ b
  eq_of_add-zero a b e =
      sym (add-zero a)
      ∙ ap (add a) (sym (add_self b))
      ∙ sym (add_assoc a b b)
      ∙ ap (λ t. add t b) e
      ∙ zero-add b

  combination_lem :
      (piece : CodedPiece)
      → IsCoded sources size piece
      → linear_combine sources piece.coefficients size ≡ piece.bytes
  combination_lem piece coded =
      let made = length-linear_combine sources piece.coefficients size in
      get_or_ext zero_byte (linear_combine sources piece.coefficients size) piece.bytes
        (made ∙ sym coded.bytes_length)
        λ j. elim (dec_lt j size) [
          | yes inside ↦
              at-linear_combine sources piece.coefficients size j inside
              ∙ sym (coded.bytes_at j inside)
          | no outside ↦
              get_or_beyond (linear_combine sources piece.coefficients size) j zero_byte
                (omega (arith, made))
              ∙ sym (get_or_beyond piece.bytes j zero_byte (omega (arith, coded.bytes_length)))
        ]

  -- Hashing the original pieces succeeds, and a piece of the right shape is then accepted if its
  -- error is orthogonal to every projection, and refused if it is not.
  pub verify_piece-cases :
      (piece : CodedPiece)
      → length piece.bytes ≡ size
      → length piece.coefficients ≡ length originals
      → (hashes : SegmentHashes) × (generate_segment_hashes blake3 seed originals ≡ ok hashes)
        × (((verify_piece blake3 piece hashes ≡ ok true)
              × ((index : ℕ)
                  → index < hash_projections
                  → dot (discrepancy sources size piece) (projection index) ≡ zero_byte))
            ⊎ ((verify_piece blake3 piece hashes ≡ ok false)
                × ((index : ℕ) × (index < hash_projections)
                    × (dot (discrepancy sources size piece) (projection index) ≢ zero_byte))))
  verify_piece-cases piece fits shape =
      let combined : ℕ → Byte =
        λ index. dot (linear_combine sources piece.coefficients size) (projection index) in
      (
        segment_hashes,
        generate_segment_hashes_lem blake3 digest seed size originals sizes,
        elim (check_projections-cases blake3 digest seed size segment_hashes refl piece fits
            hash_projections 0) [
              | inl (passed, all) ↦ inl (
                verify_piece_lem piece shape ∙ passed,
                λ index h.
                    error_lem piece (projection index) fits
                    ∙ ap (λ t. add t (combined index))
                        (all index (omega arith) (omega arith) ∙ expected_lem piece index h)
                    ∙ add_self (combined index),
              )
              | inr (failed, found) ↦
                  let h : found.0 < hash_projections = omega (arith, found.2) in
                  inr (
                    verify_piece_lem piece shape ∙ failed,
                    (
                      found.0,
                      h,
                      λ e. found.3 (
                          eq_of_add-zero (dot piece.bytes (projection found.0)) (combined found.0)
                            (sym (error_lem piece (projection found.0) fits) ∙ e)
                          ∙ sym (expected_lem piece found.0 h)),
                    ),
                  )
            ],
      )

  -- A piece that is coded over the original pieces is accepted, whichever projections the hash
  -- function gives.
  pub verify_piece-IsCoded :
      (piece : CodedPiece)
      → IsCoded sources size piece
      → (hashes : SegmentHashes) × (generate_segment_hashes blake3 seed originals ≡ ok hashes)
        × (verify_piece blake3 piece hashes ≡ ok true)
  verify_piece-IsCoded piece coded =
      let count : length sources ≡ length originals = length-map originals (λ p. p.bytes) in
      let (hashes, made, verdict) =
        verify_piece-cases piece coded.bytes_length (coded.coefficients_length ∙ count) in
      (
        hashes,
        made,
        elim verdict [
          | inl (accepted, all) ↦ accepted
          | inr (refused, found) ↦ absurd (
              found.2 (
                error_lem piece (projection found.0) coded.bytes_length
                ∙ ap (λ t. add (dot piece.bytes (projection found.0)) (dot t (projection found.0)))
                    (combination_lem piece coded)
                ∙ add_self (dot piece.bytes (projection found.0))))
        ],
      )
