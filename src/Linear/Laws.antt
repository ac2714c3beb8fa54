-- ===== src/Linear/Laws.antt =====
-- Laws of the row loops: what they do to a component and to a scalar product.
use craftec_core.Gf256.{add, mul, mul_table}
use craftec_core.Gf256.Laws.{
  add_comm, add_assoc, add-zero, zero-add, mul_comm, mul_assoc, mul-add, add-mul, mul-zero,
  zero-mul, one-mul,
}
use craftec_core.Gf256.MulTable.{entry-mul_table}
use craftec_core.Linear.{at, xor_table, add_scaled, scale_table, dot, column, unit_vector}
use native.Mathlib.Decide.{ℕ_discrete}
use craftec_core.Prelude.{
  ℕ, zero, suc, ◌≤◌, ◌<◌, List, [], ◌∷◌, map, length, replicate, set, Byte, zero_byte, one_byte,
  arith, ◌≡◌, refl, sym, ap, ap₂, ◌∙◌, get_or, length-set, length-replicate, get_or-set_self,
  get_or-set_ne, get_or-replicate, ◌==◌, ==_iff, if◌then◌else◌, ◌≢◌, false,
}

-- The table is that of the products by `a`.
pub xor_table-mul_table :
    (a : Byte) (ds ss : List Byte) → xor_table (mul_table a) ds ss ≡ add_scaled a ds ss
unfolding xor_table add_scaled
xor_table-mul_table a [] ss = refl
xor_table-mul_table a (d ∷ ds) [] = refl
xor_table-mul_table a (d ∷ ds) (s ∷ ss) =
    ap₂ ◌∷◌ (ap (add d) (entry-mul_table a s)) (xor_table-mul_table a ds ss)

pub scale_table-mul_table :
    (a : Byte) (xs : List Byte) → scale_table (mul_table a) xs ≡ map (mul a) xs
scale_table-mul_table a [] = refl
scale_table-mul_table a (x ∷ xs) = ap₂ ◌∷◌ (entry-mul_table a x) (scale_table-mul_table a xs)

pub length-add_scaled : (a : Byte) (ds ss : List Byte) → length (add_scaled a ds ss) ≡ length ds
unfolding add_scaled
length-add_scaled a [] ss = refl
length-add_scaled a (d ∷ ds) [] = refl
length-add_scaled a (d ∷ ds) (s ∷ ss) = ap suc (length-add_scaled a ds ss)

pub at-add_scaled :
    (a : Byte) (ds ss : List Byte) (j : ℕ)
    → j < length ds
    → at (add_scaled a ds ss) j ≡ add (at ds j) (mul a (at ss j))
unfolding add_scaled
at-add_scaled a [] ss j h = absurd (omega arith)
at-add_scaled a (d ∷ ds) [] j h = sym (ap (add (at (d ∷ ds) j)) (mul-zero a) ∙ add-zero _)
at-add_scaled a (d ∷ ds) (s ∷ ss) zero h = refl
at-add_scaled a (d ∷ ds) (s ∷ ss) (suc j) h = at-add_scaled a ds ss j (omega arith)

pub at-map-mul : (a : Byte) (xs : List Byte) (j : ℕ) → at (map (mul a) xs) j ≡ mul a (at xs j)
at-map-mul a [] j = sym (mul-zero a)
at-map-mul a (x ∷ xs) zero = refl
at-map-mul a (x ∷ xs) (suc j) = at-map-mul a xs j

add_interchange : (a b c d : Byte) → add (add a b) (add c d) ≡ add (add a c) (add b d)
add_interchange a b c d =
    add_assoc a b (add c d)
    ∙ ap (add a) (sym (add_assoc b c d) ∙ ap (λ t. add t d) (add_comm b c) ∙ add_assoc c b d)
    ∙ sym (add_assoc a c (add b d))

pub dot-nil : (xs : List Byte) → dot xs [] ≡ zero_byte
unfolding dot
dot-nil [] = refl
dot-nil (x ∷ xs) = refl

pub dot-map-mul : (a : Byte) (xs vs : List Byte) → dot (map (mul a) xs) vs ≡ mul a (dot xs vs)
unfolding dot
dot-map-mul a [] vs = sym (mul-zero a)
dot-map-mul a (x ∷ xs) [] = sym (mul-zero a)
dot-map-mul a (x ∷ xs) (v ∷ vs) =
    ap₂ add (mul_assoc a x v) (dot-map-mul a xs vs) ∙ sym (mul-add a (mul x v) (dot xs vs))

pub dot-add_scaled :
    (a : Byte) (ds ss vs : List Byte)
    → length ss ≤ length ds
    → dot (add_scaled a ds ss) vs ≡ add (dot ds vs) (mul a (dot ss vs))
unfolding dot add_scaled
dot-add_scaled a [] [] vs h = sym (ap (add zero_byte) (mul-zero a) ∙ add-zero zero_byte)
dot-add_scaled a [] (s ∷ ss) vs h = absurd (omega arith)
dot-add_scaled a (d ∷ ds) [] vs h = sym (ap (add (dot (d ∷ ds) vs)) (mul-zero a) ∙ add-zero _)
dot-add_scaled a (d ∷ ds) (s ∷ ss) [] h = sym (ap (add zero_byte) (mul-zero a) ∙ add-zero zero_byte)
dot-add_scaled a (d ∷ ds) (s ∷ ss) (v ∷ vs) h =
    ap₂ add (add-mul d (mul a s) v ∙ ap (add (mul d v)) (mul_assoc a s v))
      (dot-add_scaled a ds ss vs (omega arith))
    ∙ add_interchange (mul d v) (mul a (mul s v)) (dot ds vs) (mul a (dot ss vs))
    ∙ ap (add (add (mul d v) (dot ds vs))) (sym (mul-add a (mul s v) (dot ss vs)))

pub dot_comm : (xs ys : List Byte) → dot xs ys ≡ dot ys xs
unfolding dot
dot_comm [] [] = refl
dot_comm [] (y ∷ ys) = refl
dot_comm (x ∷ xs) [] = refl
dot_comm (x ∷ xs) (y ∷ ys) = ap₂ add (mul_comm x y) (dot_comm xs ys)

pub dot-zeros : (n : ℕ) (vs : List Byte) → dot (replicate n zero_byte) vs ≡ zero_byte
unfolding dot
dot-zeros zero vs = refl
dot-zeros (suc n) [] = refl
dot-zeros (suc n) (v ∷ vs) = ap₂ add (zero-mul v) (dot-zeros n vs) ∙ add-zero zero_byte

-- A unit vector picks a component.
pub dot-unit_vector : (k i : ℕ) (vs : List Byte) → i < k → dot (unit_vector k i) vs ≡ at vs i
unfolding dot unit_vector
dot-unit_vector zero i vs h = absurd (omega arith)
dot-unit_vector (suc k) zero [] h = refl
dot-unit_vector (suc k) (suc i) [] h = refl
dot-unit_vector (suc k) zero (v ∷ vs) h = ap₂ add (one-mul v) (dot-zeros k vs) ∙ add-zero v
dot-unit_vector (suc k) (suc i) (v ∷ vs) h =
    ap₂ add (zero-mul v) (dot-unit_vector k i vs (omega arith)) ∙ zero-add _

pub at-column : (j i : ℕ) (vs : List (List Byte)) → at (column j vs) i ≡ at (get_or vs i []) j
at-column j i [] = refl
at-column j zero (v ∷ vs) = refl
at-column j (suc i) (v ∷ vs) = at-column j i vs

pub length-unit_vector : (k i : ℕ) → length (unit_vector k i) ≡ k
unfolding unit_vector
length-unit_vector k i =
    length-set (replicate k zero_byte) i one_byte ∙ length-replicate k zero_byte

pub add_scaled-zero : (ds ss : List Byte) → add_scaled zero_byte ds ss ≡ ds
unfolding add_scaled
add_scaled-zero [] ss = refl
add_scaled-zero (d ∷ ds) [] = refl
add_scaled-zero (d ∷ ds) (s ∷ ss) =
    ap₂ ◌∷◌ (ap (add d) (zero-mul s) ∙ add-zero d) (add_scaled-zero ds ss)

pub at-unit_vector :
    (k i c : ℕ) → c < k → at (unit_vector k i) c ≡ (if i == c then one_byte else zero_byte)
unfolding unit_vector
at-unit_vector k i c h = elim (ℕ_discrete i c) [
  | yes same ↦ rw ((==_iff i c).1 same) (
      ap (at (set (replicate k zero_byte) i one_byte)) (sym same)
      ∙ get_or-set_self zero_byte (replicate k zero_byte) i one_byte
          (omega (arith, length-replicate k zero_byte)))
  | no differ ↦ rw (differ_test i c differ) (
      get_or-set_ne zero_byte (replicate k zero_byte) i c one_byte differ
      ∙ get_or-replicate k c zero_byte)
]
  where
    differ_test : (a b : ℕ) → a ≢ b → (a == b) ≡ false
    differ_test a b ne = ground arith
