-- ===== src/Erasure/Homomorphic.antt =====
-- crates/erasure/src/homomorphic.rs: hashes of pieces by random projections, which combine as the
-- pieces do. `blake3` is not part of the repository and is a parameter.
pub mod Laws
pub mod Verify
use craftec_core.Erasure.Config.{
  CodedPiece, Outcome, ok, err, panic, ◌>>=◌, div_ceil, default_segment_size, default_piece_size,
}
use craftec_core.Gf256.{add, mul}
use craftec_core.Prelude.{
  ℕ, zero, suc, ◌+◌, ◌-◌, ◌*◌, ◌/◌, ◌==◌, ltb, leb, if◌then◌else◌, min, max, Bool, true, false,
  ◌&&◌, List, [], ◌∷◌, ◌++◌, none, some, length, take, get_elem?, get_or, Byte, u8, zero_byte,
  is_zero, byte_eq, to_le_bytes,
}

abbrev pub hash_projections : ℕ
hash_projections = 16

pub record SegmentHashes : Type 0 where
  pub seed : List Byte
  pub piece_hashes : List (List Byte)

pub record ContentVerificationRecord : Type 0 where
  pub file_size : ℕ
  pub segment_hashes : List SegmentHashes

-- `ContentVerificationRecord::segment_count`
unfoldable pub segment_count : ContentVerificationRecord → ℕ
segment_count r = if r.file_size == 0 then 0 else div_ceil r.file_size default_segment_size

-- `ContentVerificationRecord::k_for_segment`. The subtraction panics below 0 in a debug build.
unfoldable pub k_for_segment : ContentVerificationRecord → ℕ → Outcome ℕ
k_for_segment r segment_index =
    let seg_count = segment_count r in
    if seg_count == 0
    then ok 0
    else if ltb (segment_index + 1) seg_count
    then ok (default_segment_size / default_piece_size)
    else if ltb r.file_size (segment_index * default_segment_size)
    then panic
    else let remaining = r.file_size - segment_index * default_segment_size in
      ok (max (div_ceil remaining default_piece_size) 1)

-- The loop of `gf256_dot`.
unfoldable pub dot_from : Byte → List Byte → List Byte → Byte
dot_from result [] bs = result
dot_from result (a ∷ as') [] = result
dot_from result (a ∷ as') (b ∷ bs) = dot_from (add result (mul a b)) as' bs

-- `gf256_dot`, which asserts that the lengths are equal.
unfoldable pub gf256_dot : List Byte → List Byte → Outcome Byte
gf256_dot a b = if length a == length b then ok (dot_from zero_byte a b) else panic

-- The loop that computes `expected`, from coefficient `i` on.
unfoldable pub expected_from : List (List Byte) → ℕ → Byte → ℕ → List Byte → Byte
expected_from hashes projection_index expected i [] = expected
expected_from hashes projection_index expected i (c ∷ cs) =
    let next : Byte = elim (get_elem? hashes i) [
      | none ↦ expected
      | some h ↦
          if is_zero c then expected else add expected (mul c (get_or h projection_index zero_byte))
    ] in
    expected_from hashes projection_index next (i + 1) cs

module _ (blake3 : List Byte → List Byte) where
  -- The loop over the chunks, with `left` to go; it breaks when the projection is long enough.
  unfoldable pub projection_chunks : List Byte → ℕ → ℕ → ℕ → ℕ → List Byte → List Byte
  projection_chunks seed projection_index piece_size zero chunk_index projection = projection
  projection_chunks seed projection_index piece_size (suc left) chunk_index projection =
      let input = seed ++ u8 projection_index ∷ to_le_bytes 4 chunk_index in
      let bytes_needed = min (piece_size - length projection) 32 in
      let longer = projection ++ take bytes_needed (blake3 input) in
      let rest = projection_chunks seed projection_index piece_size left (chunk_index + 1) longer in
      if leb piece_size (length longer) then longer else rest

  -- `generate_projection`
  unfoldable pub generate_projection : List Byte → ℕ → ℕ → List Byte
  generate_projection seed projection_index piece_size =
      take piece_size
        (projection_chunks seed projection_index piece_size (div_ceil piece_size 32) 0 [])

  -- The inner loop of `generate_segment_hashes`, from a projection index on.
  unfoldable pub hash_piece : List Byte → ℕ → ℕ → ℕ → List Byte → Outcome (List Byte)
  hash_piece seed piece_size zero index piece = ok []
  hash_piece seed piece_size (suc left) index piece = do
    h ← gf256_dot piece (generate_projection seed index piece_size)
    hs ← hash_piece seed piece_size left (index + 1) piece
    ok (h ∷ hs)

  -- The loop over the pieces.
  unfoldable pub hash_pieces : List Byte → ℕ → List CodedPiece → Outcome (List (List Byte))
  hash_pieces seed piece_size [] = ok []
  hash_pieces seed piece_size (p ∷ ps) = do
    h ← hash_piece seed piece_size hash_projections 0 p.bytes
    hs ← hash_pieces seed piece_size ps
    ok (h ∷ hs)

  -- `generate_segment_hashes`
  unfoldable pub generate_segment_hashes : List Byte → List CodedPiece → Outcome SegmentHashes
  generate_segment_hashes seed [] = ok (record { seed = seed; piece_hashes = [] })
  generate_segment_hashes seed (p ∷ ps) = do
    hashes ← hash_pieces seed (length p.bytes) (p ∷ ps)
    ok (record { seed = seed; piece_hashes = hashes })

  -- The loop over the projections, with `left` to go.
  unfoldable pub check_projections : CodedPiece → SegmentHashes → ℕ → ℕ → Outcome Bool
  check_projections piece hashes zero index = ok true
  check_projections piece hashes (suc left) index = do
    actual ← gf256_dot piece.bytes (generate_projection hashes.seed index (length piece.bytes))
    let expected = expected_from hashes.piece_hashes index zero_byte 0 piece.coefficients
    if byte_eq actual expected then check_projections piece hashes left (index + 1) else ok false

  -- `verify_piece`
  unfoldable pub verify_piece : CodedPiece → SegmentHashes → Outcome Bool
  verify_piece piece hashes =
      if length piece.coefficients == length hashes.piece_hashes
      then (if length hashes.piece_hashes == 0
          then ok (length piece.bytes == 0 && length piece.coefficients == 0)
          else check_projections piece hashes hash_projections 0)
      else ok false
