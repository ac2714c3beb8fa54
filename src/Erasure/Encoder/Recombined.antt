-- ===== src/Erasure/Encoder/Recombined.antt =====
-- The draws of `create_piece_from_existing` of crates/erasure/src/lib.rs, and its sum of multiples of
-- the pieces, byte by byte.
use craftec_core.Erasure.Config.{CodedPiece}
use craftec_core.Erasure.Encoder.{add_pieces, blank_piece, draw_nonzero, draw_alphas}
use craftec_core.Erasure.Encoder.Laws.{IsCoded}
use craftec_core.Gf256.{add, mul}
use craftec_core.Gf256.Laws.{add_assoc, add-zero, zero-add}
use craftec_core.Linear.{at, add_scaled, column, dot}
use craftec_core.Linear.Laws.{length-add_scaled, at-add_scaled}
use craftec_core.Prelude.{
  ℕ, zero, suc, ◌≤◌, ◌<◌, if◌then◌else◌, Bool-cases, inl, inr, some, List, [], ◌∷◌, map, length,
  length-map, length-replicate, replicate, get_or-replicate, All, Byte, zero_byte, is_zero,
  is_zero_iff, arith, ◌≡◌, ◌≢◌, refl, sym, ap, ◌∙◌,
}

-- The nonzero bytes of a random stream.
unfoldable pub count_nonzero : List Byte → ℕ
count_nonzero [] = 0
count_nonzero (v ∷ rng) = if is_zero v then count_nonzero rng else suc (count_nonzero rng)

draw_nonzero_total :
    (rng : List Byte)
    → 0 < count_nonzero rng
    → (r : Byte × List Byte) × (draw_nonzero rng ≡ some r)
      × (count_nonzero rng ≡ suc (count_nonzero r.1))
      × (r.0 ≢ zero_byte)
unfolding count_nonzero draw_nonzero
draw_nonzero_total [] h = absurd (omega arith)
draw_nonzero_total (v ∷ rng) h = elim (Bool-cases (is_zero v)) [
  | inl e ↦ rw e (draw_nonzero_total rng (rw e at h))
  | inr e ↦
      let ne : v ≢ zero_byte = λ z. (let t = (is_zero_iff v).1 z in cc) in
      ((v, rng), rw e, rw e, ne)
]

-- The rejection loop ends for each of `n` draws once the stream holds `n` nonzero bytes.
pub draw_alphas_total :
    (n : ℕ) (rng : List Byte)
    → n ≤ count_nonzero rng
    → (alphas : List Byte) × (draw_alphas n rng ≡ some alphas)
      × (length alphas ≡ n)
      × All (λ a. a ≢ zero_byte) alphas
unfolding draw_alphas
draw_alphas_total zero rng h = ([], refl, refl, tt)
draw_alphas_total (suc n) rng h =
    let (r, drawn, count, ne) = draw_nonzero_total rng (omega arith) in
    let (alphas, rest, len, all) = draw_alphas_total n r.1 (omega arith) in
    (r.0 ∷ alphas, rw (drawn, rest) refl, omega arith, (ne, all))

-- The loop of `create_piece_from_existing` on the bytes, or on the coefficients, alone.
add_rows : List Byte → List (List Byte) → List Byte → List Byte
add_rows acc [] alphas = acc
add_rows acc (r ∷ rows) [] = acc
add_rows acc (r ∷ rows) (a ∷ alphas) = add_rows (add_scaled a acc r) rows alphas

add_pieces-rows :
    (acc : CodedPiece) (ps : List CodedPiece) (alphas : List Byte)
    → ((add_pieces acc ps alphas).bytes ≡ add_rows acc.bytes (map (λ p. p.bytes) ps) alphas)
      × ((add_pieces acc ps alphas).coefficients
          ≡ add_rows acc.coefficients (map (λ p. p.coefficients) ps) alphas)
unfolding add_pieces add_rows
add_pieces-rows acc [] alphas = (refl, refl)
add_pieces-rows acc (p ∷ ps) [] = (refl, refl)
add_pieces-rows acc (p ∷ ps) (a ∷ alphas) =
    add_pieces-rows
      (record {
        bytes = add_scaled a acc.bytes p.bytes;
        coefficients = add_scaled a acc.coefficients p.coefficients;
      })
      ps alphas

length-add_rows :
    (acc : List Byte) (rows : List (List Byte)) (alphas : List Byte)
    → length (add_rows acc rows alphas) ≡ length acc
unfolding add_rows
length-add_rows acc [] alphas = refl
length-add_rows acc (r ∷ rows) [] = refl
length-add_rows acc (r ∷ rows) (a ∷ alphas) =
    length-add_rows (add_scaled a acc r) rows alphas ∙ length-add_scaled a acc r

at-add_rows :
    (acc : List Byte) (rows : List (List Byte)) (alphas : List Byte) (j : ℕ)
    → j < length acc
    → at (add_rows acc rows alphas) j ≡ add (at acc j) (dot alphas (column j rows))
unfolding add_rows dot
at-add_rows acc [] [] j h = sym (add-zero _)
at-add_rows acc [] (a ∷ alphas) j h = sym (add-zero _)
at-add_rows acc (r ∷ rows) [] j h = sym (add-zero _)
at-add_rows acc (r ∷ rows) (a ∷ alphas) j h =
    at-add_rows (add_scaled a acc r) rows alphas j (omega (arith, length-add_scaled a acc r))
    ∙ ap (λ t. add t (dot alphas (column j rows))) (at-add_scaled a acc r j h)
    ∙ add_assoc (at acc j) (mul a (at r j)) (dot alphas (column j rows))

-- From zeros, the loop computes the combination of the rows by the alphas.
add_rows-IsCoded :
    (size : ℕ) (rows : List (List Byte)) (alphas : List Byte)
    → length alphas ≡ length rows
    → IsCoded rows size
        (record { bytes = add_rows (replicate size zero_byte) rows alphas; coefficients = alphas })
add_rows-IsCoded size rows alphas len = record {
  coefficients_length = len;
  bytes_length =
      length-add_rows (replicate size zero_byte) rows alphas ∙ length-replicate size zero_byte;
  bytes_at = λ j h.
      at-add_rows (replicate size zero_byte) rows alphas j
        (omega (arith, length-replicate size zero_byte))
      ∙ ap (λ t. add t (dot alphas (column j rows))) (get_or-replicate size j zero_byte)
      ∙ zero-add _;
}

-- A piece whose bytes and coefficients are both the combination, by the same factors, of those of
-- the given pieces.
pub record IsCombination (size count : ℕ) (pieces : List CodedPiece) (alphas : List Byte)
    (p : CodedPiece) : Type 0 where
  pub of_bytes :
      IsCoded (map (λ q. q.bytes) pieces) size (record { bytes = p.bytes; coefficients = alphas })
  pub of_coefficients :
      IsCoded
        (map (λ q. q.coefficients) pieces)
        count
        (record { bytes = p.coefficients; coefficients = alphas })

pub add_pieces-IsCombination :
    (size count : ℕ) (ps : List CodedPiece) (alphas : List Byte)
    → length alphas ≡ length ps
    → IsCombination size count ps alphas (add_pieces (blank_piece size count) ps alphas)
add_pieces-IsCombination size count ps alphas len =
    let (bytes, coefficients) = add_pieces-rows (blank_piece size count) ps alphas in
    record {
      of_bytes = rw bytes (
          add_rows-IsCoded size (map (λ p. p.bytes) ps) alphas
            (len ∙ sym (length-map ps (λ p. p.bytes))));
      of_coefficients = rw coefficients (
          add_rows-IsCoded count (map (λ p. p.coefficients) ps) alphas
            (len ∙ sym (length-map ps (λ p. p.coefficients))));
    }
