-- ===== src/Erasure/Encoder.antt =====
-- `RlncEncoder` and `create_piece_from_existing` of crates/erasure/src/lib.rs. A random generator is
-- the list of the bytes that it will return; `none` means that the list is too short.
pub mod Laws
pub mod Recombined
pub mod Coded
pub mod Split
use craftec_core.Erasure.Config.{
  CodedPiece, Outcome, ok, err, empty_data, invalid_config, encoding_failed, div_ceil,
}
use craftec_core.Gf256.{mul_table}
use craftec_core.Linear.{xor_table, add_scaled, unit_vector}
use craftec_core.Prelude.{
  ℕ, zero, suc, ◌+◌, ◌-◌, ◌*◌, ◌==◌, ltb, if◌then◌else◌, min, max, Bool, true, false, Option, none,
  some, List, [], ◌∷◌, ◌++◌, map, length, take, drop, replicate, get_or, Byte, zero_byte, is_zero,
}

pub record RlncEncoder : Type 0 where
  pub source_pieces : List (List Byte)
  pub piece_size : ℕ

-- `segment_data[start..end]`
abbrev pub slice : ℕ → ℕ → List Byte → List Byte
slice start end xs = take (end - start) (drop start xs)

-- The body of the loop of `new` at `i`: the piece, padded with zeros.
unfoldable pub source_piece : List Byte → ℕ → ℕ → List Byte
source_piece segment_data piece_size i =
    let start = i * piece_size in
    let end = min (start + piece_size) (length segment_data) in
    if ltb start (length segment_data)
    then slice start end segment_data ++ replicate (piece_size - (end - start)) zero_byte
    else replicate piece_size zero_byte

-- `for i in 0..k`, with `left` rounds to go.
unfoldable pub source_pieces_from : List Byte → ℕ → ℕ → ℕ → List (List Byte)
source_pieces_from segment_data piece_size zero i = []
source_pieces_from segment_data piece_size (suc left) i =
    source_piece segment_data piece_size i ∷ source_pieces_from segment_data piece_size left (i + 1)

-- `RlncEncoder::new`
unfoldable pub new : List Byte → ℕ → Outcome RlncEncoder
new segment_data piece_size =
    if length segment_data == 0
    then err empty_data
    else if piece_size == 0
    then err invalid_config
    else let count = max (div_ceil (length segment_data) piece_size) 1 in
      ok (record {
        source_pieces = source_pieces_from segment_data piece_size count 0;
        piece_size = piece_size;
      })

-- `RlncEncoder::k`
abbrev pub k : RlncEncoder → ℕ
k e = length e.source_pieces

-- The closure of `source_pieces` over `0..k`, with the pieces that are left from `i` on.
unfoldable pub identity_pieces : ℕ → ℕ → List (List Byte) → List CodedPiece
identity_pieces count i [] = []
identity_pieces count i (p ∷ ps) =
    record { bytes = p; coefficients = unit_vector count i } ∷ identity_pieces count (i + 1) ps

-- `RlncEncoder::source_pieces`
unfoldable pub source_pieces : RlncEncoder → List CodedPiece
source_pieces e = identity_pieces (k e) 0 e.source_pieces

-- The loop of `linear_combine`.
unfoldable pub combine_from : List Byte → List (List Byte) → List Byte → List Byte
combine_from result [] coeffs = result
combine_from result (p ∷ ps) [] = result
combine_from result (p ∷ ps) (c ∷ cs) =
    combine_from (if is_zero c then result else xor_table (mul_table c) result p) ps cs

-- `RlncEncoder::linear_combine`
unfoldable pub linear_combine : List (List Byte) → List Byte → ℕ → List Byte
linear_combine pieces coeffs piece_size =
    combine_from (replicate piece_size zero_byte) pieces coeffs

-- `RlncEncoder::generate_one_piece` on the bytes that `rng` returns, and the bytes that are left.
unfoldable pub generate_one_piece : RlncEncoder → List Byte → Option (CodedPiece × List Byte)
generate_one_piece e rng =
    if ltb (length rng) (k e)
    then none
    else let coeffs = take (k e) rng in
      some (
        record {
          bytes = linear_combine e.source_pieces coeffs e.piece_size;
          coefficients = coeffs;
        },
        drop (k e) rng,
      )

infixl 5 ◌>>=◌
abbrev ◌>>=◌ {ℓ κ} : {A : Type ℓ} {B : Type κ} → Option A → (A → Option B) → Option B
none >>= f = none
some a >>= f = f a

-- `RlncEncoder::generate_coded_pieces`
unfoldable pub generate_coded_pieces : RlncEncoder → ℕ → List Byte → Option (List CodedPiece)
generate_coded_pieces e zero rng = some []
generate_coded_pieces e (suc n) rng = do
  (piece, rest) ← generate_one_piece e rng
  pieces ← generate_coded_pieces e n rest
  some (piece ∷ pieces)

-- `RlncEncoder::encode`
unfoldable pub encode : RlncEncoder → ℕ → List Byte → Option (List CodedPiece)
encode e initial_parity_count rng = do
  parity ← generate_coded_pieces e initial_parity_count rng
  some (source_pieces e ++ parity)

-- The inner `loop` of `create_piece_from_existing`: the next byte that is not 0.
unfoldable pub draw_nonzero : List Byte → Option (Byte × List Byte)
draw_nonzero [] = none
draw_nonzero (v ∷ rng) = if is_zero v then draw_nonzero rng else some (v, rng)

unfoldable pub draw_alphas : ℕ → List Byte → Option (List Byte)
draw_alphas zero rng = some []
draw_alphas (suc n) rng = do
  (alpha, rest) ← draw_nonzero rng
  alphas ← draw_alphas n rest
  some (alpha ∷ alphas)

-- `for (piece, &alpha) in pieces.iter().zip(alphas.iter())`
unfoldable pub add_pieces : CodedPiece → List CodedPiece → List Byte → CodedPiece
add_pieces acc [] alphas = acc
add_pieces acc (p ∷ ps) [] = acc
add_pieces acc (p ∷ ps) (alpha ∷ alphas) =
    add_pieces
      (record {
        bytes = add_scaled alpha acc.bytes p.bytes;
        coefficients = add_scaled alpha acc.coefficients p.coefficients;
      })
      ps alphas

-- `vec![0u8; piece_size]` and `vec![0u8; k]`
abbrev pub blank_piece : ℕ → ℕ → CodedPiece
blank_piece piece_size count = record {
  bytes = replicate piece_size zero_byte;
  coefficients = replicate count zero_byte;
}

-- `create_piece_from_existing`
unfoldable pub create_piece_from_existing :
    List CodedPiece → List Byte → Option (Outcome CodedPiece)
create_piece_from_existing [] rng = some (err encoding_failed)
create_piece_from_existing (p ∷ []) rng = some (err encoding_failed)
create_piece_from_existing (p ∷ q ∷ ps) rng = do
  alphas ← draw_alphas (length (p ∷ q ∷ ps)) rng
  some (ok (add_pieces (blank_piece (length p.bytes) (length p.coefficients)) (p ∷ q ∷ ps) alphas))
