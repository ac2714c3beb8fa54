-- ===== src/Erasure/Decoder.antt =====
-- `RlncDecoder` of crates/erasure/src/lib.rs: Gaussian elimination on the rows [coefficients | data].
-- The source keeps the two halves in two vectors and does the same to both; here a row is a piece.
pub mod Rows
pub mod Raise
pub mod Column
pub mod Invariant
pub mod Kernel
pub mod Failure
pub mod Correct
use craftec_core.Erasure.Config.{
  CodedPiece, Outcome, ok, err, panic, ◌>>=◌, insufficient_pieces, linearly_dependent,
  decoding_failed,
}
use craftec_core.Gf256.{inv, mul_table}
use craftec_core.Linear.{scale_table, xor_table}
use craftec_core.Prelude.{
  ℕ, zero, suc, ◌+◌, ◌-◌, ◌==◌, ltb, if◌then◌else◌, Option, none, some, List, [], ◌∷◌, map, length,
  take, flatten, get_elem?, set, Byte, is_zero,
}

pub record RlncDecoder : Type 0 where
  pub k : ℕ
  pub piece_size : ℕ
  pub original_size : ℕ

-- `v[i]`
unfoldable pub index {ℓ} : {A : Type ℓ} → List A → ℕ → Outcome A
index xs i = elim (get_elem? xs i) [ none ↦ panic | some x ↦ ok x ]

-- `coeffs[r][col]`
unfoldable pub cell : List CodedPiece → ℕ → ℕ → Outcome Byte
cell rows r col = do row ← index rows r; index row.coefficients col

-- `(col..k).find(|&r| coeffs[r][col] != 0).ok_or(LinearlyDependent)`, with `left` rows to go.
unfoldable pub find_pivot : List CodedPiece → ℕ → ℕ → ℕ → Outcome ℕ
find_pivot rows col zero r = err linearly_dependent
find_pivot rows col (suc left) r = do
  b ← cell rows r col
  if is_zero b then find_pivot rows col left (r + 1) else ok r

-- `coeffs.swap(i, j); data.swap(i, j)`
unfoldable pub swap : List CodedPiece → ℕ → ℕ → Outcome (List CodedPiece)
swap rows i j = do a ← index rows i; b ← index rows j; ok (set (set rows i b) j a)

-- `.ok_or_else(...)`
unfoldable pub inverse_or_fail : Byte → Outcome Byte
inverse_or_fail b = elim (inv b) [ none ↦ err decoding_failed | some i ↦ ok i ]

-- The two loops that scale the pivot row.
unfoldable pub scale_piece : List Byte → CodedPiece → CodedPiece
scale_piece table p = record {
  bytes = scale_table table p.bytes;
  coefficients = scale_table table p.coefficients;
}

-- The body of the loop over the rows, at a row that is not the pivot's.
unfoldable pub eliminate_row : ℕ → CodedPiece → CodedPiece → Outcome CodedPiece
eliminate_row col pivot row = do
  factor ← index row.coefficients col
  if is_zero factor
      then ok row
      else ok (record {
        bytes = xor_table (mul_table factor) row.bytes pivot.bytes;
        coefficients = xor_table (mul_table factor) row.coefficients pivot.coefficients;
      })

-- `for row in 0..k`, on the rows that are left from `r` on.
unfoldable pub eliminate : ℕ → CodedPiece → ℕ → List CodedPiece → Outcome (List CodedPiece)
eliminate col pivot r [] = ok []
eliminate col pivot r (row ∷ rows) = do
  row' ← if r == col then ok row else eliminate_row col pivot row
  rest ← eliminate col pivot (r + 1) rows
  ok (row' ∷ rest)

-- The swap that brings the pivot up.
unfoldable pub raise_pivot : List CodedPiece → ℕ → ℕ → Outcome (List CodedPiece)
raise_pivot rows col pivot_row = if pivot_row == col then ok rows else swap rows col pivot_row

-- The rest of the body of the loop over the columns, once the pivot stands at `col`.
unfoldable pub clear_column : ℕ → List CodedPiece → Outcome (List CodedPiece)
clear_column col rows = do
  b ← cell rows col col
  i ← inverse_or_fail b
  row ← index rows col
  let pivot = scale_piece (mul_table i) row
  eliminate col pivot 0 (set rows col pivot)

-- The body of the loop over the columns.
unfoldable pub decode_column : ℕ → ℕ → List CodedPiece → Outcome (List CodedPiece)
decode_column k col rows = do
  pivot_row ← find_pivot rows col (k - col) col
  raised ← raise_pivot rows col pivot_row
  clear_column col raised

-- `for col in 0..k`, with `left` columns to go.
unfoldable pub decode_columns : ℕ → ℕ → ℕ → List CodedPiece → Outcome (List CodedPiece)
decode_columns k zero col rows = ok rows
decode_columns k (suc left) col rows = do
  next ← decode_column k col rows
  decode_columns k left (col + 1) next

-- `RlncDecoder::decode`
unfoldable pub decode : RlncDecoder → List CodedPiece → Outcome (List Byte)
decode d pieces =
    if ltb (length pieces) d.k then err (insufficient_pieces (length pieces) d.k) else do
      rows ← decode_columns d.k d.k 0 (take d.k pieces)
      ok (take d.original_size (flatten (map (λ p. p.bytes) rows)))
