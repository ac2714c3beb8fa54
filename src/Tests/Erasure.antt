-- ===== src/Tests/Erasure.antt =====
-- Inputs for the theorems on gf256.rs, lib.rs and homomorphic.rs of crates/erasure.
use craftec_core.Erasure.Config.{CodedPiece, ok, err, linearly_dependent, div_ceil}
use craftec_core.Erasure.Decoder.{RlncDecoder, decode}
use craftec_core.Erasure.Decoder.Correct.{decode-cases}
use craftec_core.Erasure.Decoder.Kernel.{IsDependent}
use craftec_core.Erasure.Encoder.{
  RlncEncoder, k, new, source_pieces, identity_pieces, linear_combine, encode,
  create_piece_from_existing,
}
use craftec_core.Erasure.Encoder.Coded.{
  source_pieces-IsCoded, encode-IsCoded, create_piece_from_existing-IsCoded,
}
use craftec_core.Erasure.Encoder.Recombined.{IsCombination, count_nonzero}
use craftec_core.Erasure.Encoder.Laws.{IsCoded, IsValid, at-linear_combine, length-linear_combine}
use craftec_core.Erasure.Encoder.Split.{new-IsValid}
use craftec_core.Erasure.Homomorphic.{
  SegmentHashes, hash_projections, generate_projection, generate_segment_hashes, verify_piece,
}
use craftec_core.Erasure.Homomorphic.Verify.{discrepancy, verify_piece-cases, verify_piece-IsCoded}
use craftec_core.Erasure.Roundtrip.{decode-encode}
use craftec_core.Gf256.{add, mul, mul_table, inv, entry}
use craftec_core.Gf256.Laws.{field_laws}
use craftec_core.Gf256.MulTable.{entry-mul_table}
use craftec_core.Gf256.Reference.{polynomial_product, mul-polynomial_product}
use craftec_core.Linear.{dot}
use craftec_core.Prelude.{
  ℕ, ◌+◌, ◌≤◌, ◌<◌, max, ◌⊎◌, true, false, none, some, List, [], ◌∷◌, ◌++◌, map, length,
  length-replicate, take, flatten, replicate, All, Byte, u8, zero_byte, one_byte, arith, ◌≡◌, ◌≢◌,
  refl, ap,
}

abbrev segment : List Byte
segment = u8 10 ∷ u8 20 ∷ u8 30 ∷ []

abbrev stream : List Byte
stream = u8 3 ∷ u8 0 ∷ u8 5 ∷ u8 7 ∷ u8 9 ∷ []

abbrev encoder : RlncEncoder
encoder = record { source_pieces = (u8 10 ∷ u8 20 ∷ []) ∷ (u8 30 ∷ u8 0 ∷ []) ∷ []; piece_size = 2 }

abbrev decoder : RlncDecoder
decoder = record { k = 2; piece_size = 2; original_size = 3 }

encoder-IsValid : IsValid encoder
encoder-IsValid = (refl, (refl, tt))

segment_ne : segment ≢ []
segment_ne e = omega (arith, ap (λ (xs : List Byte). length xs) e)

mul-polynomial_product_example :
    (mul (u8 0x53) (u8 0xCA)).value ≡ polynomial_product 8 (u8 0x53).value (u8 0xCA).value
mul-polynomial_product_example = mul-polynomial_product (u8 0x53) (u8 0xCA)

entry-mul_table_example : entry (mul_table (u8 0x53)) (u8 0xCA).value ≡ mul (u8 0x53) (u8 0xCA)
entry-mul_table_example = entry-mul_table (u8 0x53) (u8 0xCA)

field_laws_example :
    (add (add (u8 1) (u8 2)) (u8 7) ≡ add (u8 1) (add (u8 2) (u8 7)))
    × (add (u8 1) (u8 2) ≡ add (u8 2) (u8 1))
    × (add (u8 1) zero_byte ≡ u8 1)
    × (add (u8 1) (u8 1) ≡ zero_byte)
    × (mul (mul (u8 1) (u8 2)) (u8 7) ≡ mul (u8 1) (mul (u8 2) (u8 7)))
    × (mul (u8 1) (u8 2) ≡ mul (u8 2) (u8 1))
    × (mul (u8 1) one_byte ≡ u8 1)
    × (mul (u8 1) (add (u8 2) (u8 7)) ≡ add (mul (u8 1) (u8 2)) (mul (u8 1) (u8 7)))
    × (((u8 1 ≡ zero_byte) × (inv (u8 1) ≡ none))
        ⊎ ((u8 1 ≢ zero_byte) × ((i : Byte) × (inv (u8 1) ≡ some i) × (mul (u8 1) i ≡ one_byte))))
field_laws_example = field_laws (u8 1) (u8 2) (u8 7)

new-IsValid_example :
    (e : RlncEncoder) × (new segment 2 ≡ ok e)
    × IsValid e
    × (e.piece_size ≡ 2)
    × (k e ≡ max (div_ceil (length segment) 2) 1)
    × (take (length segment) (flatten e.source_pieces) ≡ segment)
new-IsValid_example = new-IsValid segment 2 segment_ne (omega arith)

encode-IsCoded_example :
    (parity : List CodedPiece) × (encode encoder 2 stream ≡ some (source_pieces encoder ++ parity))
    × (length (source_pieces encoder ++ parity) ≡ k encoder + 2)
    × All (IsCoded encoder.source_pieces encoder.piece_size) (source_pieces encoder ++ parity)
encode-IsCoded_example = encode-IsCoded encoder 2 stream encoder-IsValid (omega arith)

decode-encode_example :
    (e : RlncEncoder) × (pieces : List CodedPiece) × (new segment 2 ≡ ok e)
    × (encode e 2 stream ≡ some pieces)
    × (length pieces ≡ max (div_ceil (length segment) 2) 1 + 2)
    × (decode
          (record {
            k = max (div_ceil (length segment) 2) 1;
            piece_size = 2;
            original_size = length segment;
          })
          pieces
        ≡ ok segment)
decode-encode_example = decode-encode segment 2 2 stream segment_ne (omega arith) (omega arith)

pieces-IsCoded : All (IsCoded encoder.source_pieces 2) (source_pieces encoder)
pieces-IsCoded = source_pieces-IsCoded encoder encoder-IsValid

two_pieces : 2 ≤ length (source_pieces encoder)
unfolding source_pieces identity_pieces
two_pieces = omega arith

decode-cases_example :
    ((decode decoder (source_pieces encoder) ≡ ok (take 3 (flatten encoder.source_pieces)))
      × (¬ IsDependent 2 (take 2 (source_pieces encoder))))
    ⊎ ((decode decoder (source_pieces encoder) ≡ err linearly_dependent)
        × IsDependent 2 (take 2 (source_pieces encoder)))
decode-cases_example =
    decode-cases encoder.source_pieces 2 decoder (source_pieces encoder) refl encoder-IsValid
      pieces-IsCoded two_pieces

nonzero_stream : length (source_pieces encoder) ≤ count_nonzero stream
unfolding source_pieces identity_pieces count_nonzero u8
nonzero_stream = omega arith

create_piece_from_existing-IsCoded_example :
    (p : CodedPiece) × (create_piece_from_existing (source_pieces encoder) stream ≡ some (ok p))
    × IsCoded encoder.source_pieces 2 p
    × ((alphas : List Byte) × All (λ a. a ≢ zero_byte) alphas
        × IsCombination 2 (length encoder.source_pieces) (source_pieces encoder) alphas p)
create_piece_from_existing-IsCoded_example =
    create_piece_from_existing-IsCoded encoder.source_pieces 2 (source_pieces encoder) stream
      two_pieces pieces-IsCoded nonzero_stream

-- A stand-in for the hash function: 32 bytes that depend on the message's last byte's position.
abbrev digest_of : List Byte → List Byte
digest_of m = replicate 32 (u8 (length m + 7))

length-digest_of : (m : List Byte) → length (digest_of m) ≡ 32
length-digest_of m = length-replicate 32 (u8 (length m + 7))

abbrev originals : List CodedPiece
originals =
    record { bytes = u8 10 ∷ u8 20 ∷ []; coefficients = u8 1 ∷ u8 0 ∷ [] }
    ∷ record { bytes = u8 30 ∷ u8 0 ∷ []; coefficients = u8 0 ∷ u8 1 ∷ [] }
    ∷ []

abbrev forged : CodedPiece
forged = record { bytes = u8 11 ∷ u8 20 ∷ []; coefficients = u8 1 ∷ u8 0 ∷ [] }

originals_ne : originals ≢ []
originals_ne e = omega (arith, ap (λ (xs : List CodedPiece). length xs) e)

verify_piece-cases_example :
    (hashes : SegmentHashes) × (generate_segment_hashes digest_of segment originals ≡ ok hashes)
    × (((verify_piece digest_of forged hashes ≡ ok true)
          × ((index : ℕ)
              → index < hash_projections
              → dot
                  (discrepancy (map (λ p. p.bytes) originals) 2 forged)
                  (generate_projection digest_of segment index 2)
                ≡ zero_byte))
        ⊎ ((verify_piece digest_of forged hashes ≡ ok false)
            × ((index : ℕ) × (index < hash_projections)
                × (dot
                      (discrepancy (map (λ p. p.bytes) originals) 2 forged)
                      (generate_projection digest_of segment index 2)
                    ≢ zero_byte))))
verify_piece-cases_example =
    verify_piece-cases digest_of length-digest_of segment originals 2 originals_ne
      (refl, (refl, tt)) forged refl refl

coded_piece : CodedPiece
coded_piece = record {
  bytes = linear_combine encoder.source_pieces (u8 3 ∷ u8 5 ∷ []) 2;
  coefficients = u8 3 ∷ u8 5 ∷ [];
}

coded_piece-IsCoded : IsCoded encoder.source_pieces 2 coded_piece
unfolding coded_piece
coded_piece-IsCoded = record {
  coefficients_length = refl;
  bytes_length = length-linear_combine encoder.source_pieces (u8 3 ∷ u8 5 ∷ []) 2;
  bytes_at = λ j h. at-linear_combine encoder.source_pieces (u8 3 ∷ u8 5 ∷ []) 2 j h;
}

verify_piece-IsCoded_example :
    (hashes : SegmentHashes) × (generate_segment_hashes digest_of segment originals ≡ ok hashes)
    × (verify_piece digest_of coded_piece hashes ≡ ok true)
verify_piece-IsCoded_example =
    verify_piece-IsCoded digest_of length-digest_of segment originals 2 originals_ne
      (refl, (refl, tt)) coded_piece coded_piece-IsCoded
