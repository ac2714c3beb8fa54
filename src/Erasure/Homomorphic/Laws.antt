-- ===== src/Erasure/Homomorphic/Laws.antt =====
-- What the loops of homomorphic.rs compute, as scalar products.
use craftec_core.Erasure.Config.{CodedPiece, ok, ◌>>=◌, div_ceil}
use craftec_core.Erasure.Homomorphic.{
  hash_projections, dot_from, gf256_dot, projection_chunks, generate_projection, hash_piece,
  hash_pieces, generate_segment_hashes, expected_from,
}
use craftec_core.Gf256.{add, mul}
use craftec_core.Gf256.Laws.{add_assoc, add-zero, zero-add, zero-mul}
use craftec_core.Linear.{at, dot, column}
use craftec_core.Linear.Laws.{dot-nil}
use craftec_core.Prelude.{
  ℕ, zero, suc, ◌+◌, ◌-◌, ◌*◌, ◌≤◌, ◌<◌, ==_iff, leb, leb→le, if◌then◌else◌, min, false, Bool-cases,
  Option-cases, inl, inr, List, [], ◌∷◌, ◌++◌, none, some, map, length, length-append, length-take,
  take, drop, get_elem?, All, Byte, u8, zero_byte, is_zero, is_zero_iff, to_le_bytes, arith, ◌≡◌,
  refl, sym, ap, ap₂, ◌∙◌,
}

dot_from-dot : (acc : Byte) (xs ys : List Byte) → dot_from acc xs ys ≡ add acc (dot xs ys)
unfolding dot_from dot
dot_from-dot acc [] ys = sym (add-zero acc)
dot_from-dot acc (x ∷ xs) [] = sym (add-zero acc)
dot_from-dot acc (x ∷ xs) (y ∷ ys) =
    dot_from-dot (add acc (mul x y)) xs ys ∙ add_assoc acc (mul x y) (dot xs ys)

pub gf256_dot_lem : (xs ys : List Byte) → length xs ≡ length ys → gf256_dot xs ys ≡ ok (dot xs ys)
unfolding gf256_dot
gf256_dot_lem xs ys e =
    rw ((==_iff (length xs) (length ys)).1 e) (ap ok (dot_from-dot zero_byte xs ys ∙ zero-add _))

module _ (blake3 : List Byte → List Byte) (digest : (m : List Byte) → length (blake3 m) ≡ 32) where
  length-projection_chunks :
      (seed : List Byte) (index size left chunk : ℕ) (projection : List Byte)
      → length projection ≤ size
      → size ≤ length projection + 32 * left
      → length (projection_chunks blake3 seed index size left chunk projection) ≡ size
  unfolding projection_chunks
  length-projection_chunks seed index size zero chunk projection low high = omega arith
  length-projection_chunks seed index size (suc left) chunk projection low high =
      let input = seed ++ u8 index ∷ to_le_bytes 4 chunk in
      let needed = min (size - length projection) 32 in
      let longer : List Byte = projection ++ take needed (blake3 input) in
      let grown : length longer ≡ length projection + needed = omega (
        arith,
        length-append projection (take needed (blake3 input)),
        length-take needed (blake3 input),
        digest input,
      ) in
      elim (Bool-cases (leb size (length longer))) [
        | inl e ↦ rw e (omega (arith, leb→le size (length longer) e))
        | inr e ↦ rw e (
            length-projection_chunks seed index size left (chunk + 1) longer (omega arith)
              (omega (arith, more size (length longer) e)))
      ]
    where
      more : (a b : ℕ) → leb a b ≡ false → b < a
      more a b e = ground arith

  -- A projection has a byte for each byte of a piece.
  pub length-generate_projection :
      (seed : List Byte) (index size : ℕ)
      → length (generate_projection blake3 seed index size) ≡ size
  unfolding generate_projection
  length-generate_projection seed index size = omega (
    arith,
    length-take size (projection_chunks blake3 seed index size (div_ceil size 32) 0 []),
    length-projection_chunks seed index size (div_ceil size 32) 0 [] (omega arith) (omega arith),
  )

get_elem?-drop-none {ℓ} :
    {A : Type ℓ} (xs : List A) (i : ℕ) → get_elem? xs i ≡ none → drop i xs ≡ []
get_elem?-drop-none [] zero e = refl
get_elem?-drop-none [] (suc i) e = refl
get_elem?-drop-none (x ∷ xs) zero e = cc
get_elem?-drop-none (x ∷ xs) (suc i) e = get_elem?-drop-none xs i e

get_elem?-drop-some {ℓ} :
    {A : Type ℓ} (xs : List A) (i : ℕ) (x : A)
    → get_elem? xs i ≡ some x
    → drop i xs ≡ x ∷ drop (suc i) xs
get_elem?-drop-some [] i x e = cc
get_elem?-drop-some (y ∷ ys) zero x e = cc
get_elem?-drop-some (y ∷ ys) (suc i) x e = get_elem?-drop-some ys i x e

get_elem?-none_suc {ℓ} :
    {A : Type ℓ} (xs : List A) (i : ℕ) → get_elem? xs i ≡ none → get_elem? xs (i + 1) ≡ none
get_elem?-none_suc [] i e = refl
get_elem?-none_suc (x ∷ xs) zero e = cc
get_elem?-none_suc (x ∷ xs) (suc i) e =
    let shift : suc i + 1 ≡ suc (i + 1) = omega arith in
    ap (get_elem? (x ∷ xs)) shift ∙ get_elem?-none_suc xs i e

add_unless_zero :
    (c h acc : Byte) → (if is_zero c then acc else add acc (mul c h)) ≡ add acc (mul c h)
add_unless_zero c h acc = elim (Bool-cases (is_zero c)) [
  | inl e ↦ rw e (
      sym (
        ap (λ t. add acc (mul t h)) ((is_zero_iff c).0 e)
        ∙ ap (add acc) (zero-mul h)
        ∙ add-zero acc))
  | inr e ↦ rw e
]

-- The loop for `expected` is a scalar product with one column of the hashes.
pub expected_from-dot :
    (hashes : List (List Byte)) (index : ℕ) (acc : Byte) (i : ℕ) (cs : List Byte)
    → expected_from hashes index acc i cs ≡ add acc (dot cs (column index (drop i hashes)))
unfolding expected_from dot
expected_from-dot hashes index acc i [] = sym (add-zero acc)
expected_from-dot hashes index acc i (c ∷ cs) = elim (Option-cases (get_elem? hashes i)) [
  | inl e ↦ rw e (
      expected_from-dot hashes index acc (i + 1) cs
      ∙ ap (λ t. add acc (dot cs (column index t)))
          (get_elem?-drop-none hashes (i + 1) (get_elem?-none_suc hashes i e))
      ∙ ap (add acc) (dot-nil cs)
      ∙ ap (λ t. add acc (dot (c ∷ cs) (column index t))) (sym (get_elem?-drop-none hashes i e)))
  | inr (h, e) ↦
      let next : suc i ≡ i + 1 = omega arith in
      rw e (
        ap (λ t. expected_from hashes index t (i + 1) cs) (add_unless_zero c (at h index) acc)
        ∙ expected_from-dot hashes index (add acc (mul c (at h index))) (i + 1) cs
        ∙ add_assoc acc (mul c (at h index)) (dot cs (column index (drop (i + 1) hashes)))
        ∙ ap (λ t. add acc (add (mul c (at h index)) (dot cs (column index (drop t hashes)))))
            (sym next)
        ∙ ap (λ t. add acc (dot (c ∷ cs) (column index t)))
            (sym (get_elem?-drop-some hashes i h e)))
]

-- The value of each projection of a piece.
pub projected : (ℕ → List Byte) → List Byte → ℕ → ℕ → List Byte
projected projection piece zero index = []
projected projection piece (suc left) index =
    dot piece (projection index) ∷ projected projection piece left (index + 1)

at-projected :
    (projection : ℕ → List Byte) (piece : List Byte) (left index j : ℕ)
    → j < left
    → at (projected projection piece left index) j ≡ dot piece (projection (index + j))
unfolding projected
at-projected projection piece zero index j h = absurd (omega arith)
at-projected projection piece (suc left) index zero h =
    let e : index ≡ index + 0 = omega arith in ap (λ t. dot piece (projection t)) e
at-projected projection piece (suc left) index (suc j) h =
    let e : index + 1 + j ≡ index + suc j = omega arith in
    at-projected projection piece left (index + 1) j (omega arith)
    ∙ ap (λ t. dot piece (projection t)) e

module _ (blake3 : List Byte → List Byte) (digest : (m : List Byte) → length (blake3 m) ≡ 32)
    (seed : List Byte) (size : ℕ) where
  abbrev pub projection_of : ℕ → List Byte
  projection_of index = generate_projection blake3 seed index size

  hash_piece_lem :
      (left index : ℕ) (piece : List Byte)
      → length piece ≡ size
      → hash_piece blake3 seed size left index piece ≡ ok (projected projection_of piece left index)
  unfolding hash_piece projected
  hash_piece_lem zero index piece e = refl
  hash_piece_lem (suc left) index piece e =
      rw
        (
          gf256_dot_lem piece (projection_of index)
              (e ∙ sym (length-generate_projection blake3 digest seed index size)),
          hash_piece_lem left (index + 1) piece e,
        )
        refl

  pub hashes_of : List CodedPiece → List (List Byte)
  hashes_of = map (λ p. projected projection_of p.bytes hash_projections 0)

  hash_pieces_lem :
      (ps : List CodedPiece)
      → All (λ p. length p.bytes ≡ size) ps
      → hash_pieces blake3 seed size ps ≡ ok (hashes_of ps)
  unfolding hash_pieces hashes_of
  hash_pieces_lem [] sizes = refl
  hash_pieces_lem (p ∷ ps) sizes =
      rw (hash_piece_lem hash_projections 0 p.bytes sizes.0, hash_pieces_lem ps sizes.1) refl

  -- Pieces of one size are hashed with no failure.
  pub generate_segment_hashes_lem :
      (ps : List CodedPiece)
      → All (λ p. length p.bytes ≡ size) ps
      → generate_segment_hashes blake3 seed ps
        ≡ ok (record { seed = seed; piece_hashes = hashes_of ps })
  unfolding generate_segment_hashes hashes_of
  generate_segment_hashes_lem [] sizes = refl
  generate_segment_hashes_lem (p ∷ ps) sizes =
      ap
        (λ (n : ℕ). hash_pieces blake3 seed n (p ∷ ps) >>= λ hashes.
          ok (record { seed = seed; piece_hashes = hashes }))
        sizes.0
      ∙ rw (hash_pieces_lem (p ∷ ps) sizes) refl

  pub column-hashes_of :
      (ps : List CodedPiece) (index : ℕ)
      → index < hash_projections
      → column index (hashes_of ps) ≡ map (λ p. dot p.bytes (projection_of index)) ps
  unfolding hashes_of
  column-hashes_of [] index h = refl
  column-hashes_of (p ∷ ps) index h =
      let e : 0 + index ≡ index = omega arith in
      ap₂ ◌∷◌
        (at-projected projection_of p.bytes hash_projections 0 index h
          ∙ ap (λ t. dot p.bytes (projection_of t)) e)
        (column-hashes_of ps index h)

  pub length-hashes_of : (ps : List CodedPiece) → length (hashes_of ps) ≡ length ps
  unfolding hashes_of
  length-hashes_of [] = refl
  length-hashes_of (p ∷ ps) = ap suc (length-hashes_of ps)
