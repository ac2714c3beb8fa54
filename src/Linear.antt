-- ===== src/Linear.antt =====
-- Vectors of bytes over GF(2^8): the row loops that crates/erasure/src/lib.rs and homomorphic.rs
-- share, and the scalar product in which their results are described.
pub mod Laws
use craftec_core.Gf256.{add, mul, mul_table, entry}
use craftec_core.Prelude.{
  ℕ, zero, suc, List, [], ◌∷◌, map, Byte, zero_byte, one_byte, get_or, set, replicate,
}

-- The component at `j`, and 0 beyond the end.
abbrev pub at : List Byte → ℕ → Byte
at xs j = get_or xs j zero_byte

-- `for (r, &p) in result.iter_mut().zip(piece.iter()) { *r ^= table[p as usize]; }`
unfoldable pub xor_table : List Byte → List Byte → List Byte → List Byte
xor_table table [] src = []
xor_table table (r ∷ rs) [] = r ∷ rs
xor_table table (r ∷ rs) (p ∷ ps) = add r (entry table p.value) ∷ xor_table table rs ps

-- `for (nd, &pd) in dst.iter_mut().zip(src.iter()) { *nd = GF256::add(*nd, GF256::mul(alpha, pd)); }`
unfoldable pub add_scaled : Byte → List Byte → List Byte → List Byte
add_scaled alpha [] src = []
add_scaled alpha (d ∷ ds) [] = d ∷ ds
add_scaled alpha (d ∷ ds) (s ∷ ss) = add d (mul alpha s) ∷ add_scaled alpha ds ss

-- `for v in row.iter_mut() { *v = table[*v as usize]; }`
abbrev pub scale_table : List Byte → List Byte → List Byte
scale_table table row = map (λ v. entry table v.value) row

-- The scalar product over the common length.
unfoldable pub dot : List Byte → List Byte → Byte
dot [] bs = zero_byte
dot (a ∷ as') [] = zero_byte
dot (a ∷ as') (b ∷ bs) = add (mul a b) (dot as' bs)

-- Component `j` of each of the vectors.
abbrev pub column : ℕ → List (List Byte) → List Byte
column j vs = map (λ v. at v j) vs

-- `let mut v = vec![0u8; k]; v[i] = 1;`
unfoldable pub unit_vector : ℕ → ℕ → List Byte
unit_vector k i = set (replicate k zero_byte) i one_byte
