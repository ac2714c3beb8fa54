-- ===== src/Erasure/Encoder/Split.antt =====
-- `RlncEncoder::new` cuts the segment into pieces of one size and loses nothing.
use craftec_core.Erasure.Config.{ok, div_ceil}
use craftec_core.Erasure.Encoder.{RlncEncoder, k, source_piece, source_pieces_from, new}
use craftec_core.Erasure.Encoder.Laws.{IsValid}
use craftec_core.Prelude.{
  ℕ, zero, suc, ◌+◌, ◌-◌, ◌*◌, ◌≤◌, ◌<◌, ◌==◌, ltb, min, max, false, List, [], ◌∷◌, ◌++◌,
  append-nil, append_assoc, length, length-append, take, drop, length-take, length-drop,
  take-append-drop, take-length-append, drop-drop, drop_of_length-le, take_of_length-le, replicate,
  length-replicate, flatten, All, Byte, zero_byte, arith, ◌≡◌, refl, sym, ap, ap₂, ◌∙◌, lt→ltb, ◌≢◌,
}
use native.Mathlib.Nat.{div-add-mod', mod-lt}
use native.Mathlib.Decide.{dec_le, dec_lt}

module _ (segment : List Byte) (size : ℕ) where
  -- A piece that begins in the segment holds the `n` bytes that are there.
  source_piece_inside :
      (i n : ℕ)
      → i * size < length segment
      → min (i * size + size) (length segment) - i * size ≡ n
      → source_piece segment size i
        ≡ take n (drop (i * size) segment) ++ replicate (size - n) zero_byte
  unfolding source_piece
  source_piece_inside i n h e = rw (lt→ltb _ _ h, e) refl

  source_piece_beyond :
      (i : ℕ) → length segment ≤ i * size → source_piece segment size i ≡ replicate size zero_byte
  unfolding source_piece
  source_piece_beyond i h = rw (not_below (i * size) (length segment) h)
    where
      not_below : (a b : ℕ) → b ≤ a → ltb a b ≡ false
      not_below a b h = ground arith

  source_piece_full :
      (i : ℕ)
      → 0 < size
      → i * size + size ≤ length segment
      → source_piece segment size i ≡ take size (drop (i * size) segment)
  source_piece_full i pos h =
      source_piece_inside i size (omega arith) (omega arith)
      ∙ ap (λ t. take size (drop (i * size) segment) ++ replicate t zero_byte) (zero-sub size)
      ∙ append-nil _
    where
      zero-sub : (n : ℕ) → n - n ≡ 0
      zero-sub n = omega arith

  source_piece_last :
      (i : ℕ)
      → i * size < length segment
      → length segment < i * size + size
      → source_piece segment size i
        ≡ drop (i * size) segment ++ replicate (size - (length segment - i * size)) zero_byte
  source_piece_last i h g =
      source_piece_inside i (length segment - i * size) h (omega arith)
      ∙ ap (λ t. t ++ replicate (size - (length segment - i * size)) zero_byte)
          (take_of_length-le _ _ (omega (arith, length-drop (i * size) segment)))

  length-source_piece : (i : ℕ) → 0 < size → length (source_piece segment size i) ≡ size
  length-source_piece i pos = elim (dec_le (i * size + size) (length segment)) [
    | yes full ↦
        ap length (source_piece_full i pos full)
        ∙ omega (arith, length-take size (drop (i * size) segment), length-drop (i * size) segment)
    | no short ↦ elim (dec_lt (i * size) (length segment)) [
      | yes last ↦
          ap length (source_piece_last i last (omega arith))
          ∙ omega (
            arith,
            length-append (drop (i * size) segment)
                (replicate (size - (length segment - i * size)) zero_byte),
            length-drop (i * size) segment,
            length-replicate (size - (length segment - i * size)) zero_byte,
          )
      | no beyond ↦
          ap length (source_piece_beyond i (omega arith)) ∙ length-replicate size zero_byte
    ]
  ]

  source_pieces_from-length :
      (left i : ℕ)
      → 0 < size
      → All (λ p. length p ≡ size) (source_pieces_from segment size left i)
        × (length (source_pieces_from segment size left i) ≡ left)
  unfolding source_pieces_from
  source_pieces_from-length zero i pos = (tt, refl)
  source_pieces_from-length (suc left) i pos =
      let (sizes, count) = source_pieces_from-length left (i + 1) pos in
      ((length-source_piece i pos, sizes), ap suc count)

  -- A full piece, and then pieces that begin with what is left.
  begins_full :
      (i : ℕ) (rest : List Byte)
      → 0 < size
      → i * size + size ≤ length segment
      → take (length segment - (i + 1) * size) rest ≡ drop ((i + 1) * size) segment
      → take (length segment - i * size) (source_piece segment size i ++ rest)
        ≡ drop (i * size) segment
  begins_full i rest pos full ih =
      let left : List Byte = drop (i * size) segment in
      let n : ℕ = length segment - (i + 1) * size in
      let size_of_piece : length (take size left) ≡ size =
        omega (arith, length-take size left, length-drop (i * size) segment) in
      let count : length segment - i * size ≡ length (take size left) + n = omega arith in
      let next : i * size + size ≡ (i + 1) * size = omega arith in
      ap₂ (λ a b. take a (b ++ rest)) count (source_piece_full i pos full)
      ∙ take-length-append (take size left) rest n
      ∙ ap (λ t. take size left ++ t)
          (ih ∙ ap (λ t. drop t segment) (sym next) ∙ sym (drop-drop size (i * size) segment))
      ∙ take-append-drop size left

  -- The last piece holds all that is left.
  begins_last :
      (i : ℕ) (rest : List Byte)
      → i * size < length segment
      → length segment < i * size + size
      → take (length segment - i * size) (source_piece segment size i ++ rest)
        ≡ drop (i * size) segment
  begins_last i rest h g =
      let left : List Byte = drop (i * size) segment in
      let padding = replicate (size - (length segment - i * size)) zero_byte in
      let count : length segment - i * size ≡ length left + 0 =
        omega (arith, length-drop (i * size) segment) in
      ap₂ (λ a b. take a (b ++ rest)) count (source_piece_last i h g)
      ∙ ap (take (length left + 0)) (append_assoc left padding rest)
      ∙ take-length-append left (padding ++ rest) 0
      ∙ append-nil left

  -- The pieces from `i` on begin with what is left of the segment there.
  flatten-source_pieces_from :
      (left i : ℕ)
      → 0 < size
      → length segment ≤ (i + left) * size
      → take (length segment - i * size) (flatten (source_pieces_from segment size left i))
        ≡ drop (i * size) segment
  unfolding source_pieces_from
  flatten-source_pieces_from zero i pos h =
      let none_left : length segment - i * size ≡ 0 = omega arith in
      ap (λ t. take t []) none_left ∙ sym (drop_of_length-le (i * size) segment (omega arith))
  flatten-source_pieces_from (suc left) i pos h = elim (dec_lt (i * size) (length segment)) [
    | yes inside ↦ elim (dec_le (i * size + size) (length segment)) [
      | yes full ↦
          begins_full i (flatten (source_pieces_from segment size left (i + 1))) pos full
            (flatten-source_pieces_from left (i + 1) pos (omega arith))
      | no short ↦
          begins_last i (flatten (source_pieces_from segment size left (i + 1))) inside
            (omega arith)
    ]
    | no beyond ↦
        let none_left : length segment - i * size ≡ 0 = omega arith in
        ap (λ t. take t (flatten (source_pieces_from segment size (suc left) i))) none_left
        ∙ sym (drop_of_length-le (i * size) segment (omega arith))
  ]

pub div_ceil-mul : (a b : ℕ) → 0 < b → a ≤ div_ceil a b * b
div_ceil-mul a b pos = omega (arith, div-add-mod' (a + b - 1) b, mod-lt (a + b - 1) pos)

pub not_zero : (n : ℕ) → 0 < n → (n == 0) ≡ false
not_zero n h = ground arith

pub length-pos : (xs : List Byte) → xs ≢ [] → 0 < length xs
length-pos [] ne = absurd (ne refl)
length-pos (x ∷ xs) ne = omega arith

-- A new encoder for a segment that is not empty has the number of pieces that cover it, all of
-- one size, and their concatenation begins with the segment.
pub new-IsValid :
    (segment : List Byte) (size : ℕ)
    → segment ≢ []
    → 0 < size
    → (e : RlncEncoder) × (new segment size ≡ ok e)
      × IsValid e
      × (e.piece_size ≡ size)
      × (k e ≡ max (div_ceil (length segment) size) 1)
      × (take (length segment) (flatten e.source_pieces) ≡ segment)
unfolding new
new-IsValid segment size ne pos =
    let count : ℕ = max (div_ceil (length segment) size) 1 in
    let (sizes, number) = source_pieces_from-length segment size count 0 pos in
    let covered : length segment ≤ (0 + count) * size =
      grind (arith, div_ceil-mul (length segment) size pos) in
    let start : length segment - 0 * size ≡ length segment = omega arith in
    let origin : 0 * size ≡ 0 = omega arith in
    (
      record { source_pieces = source_pieces_from segment size count 0; piece_size = size },
      rw (not_zero (length segment) (length-pos segment ne), not_zero size pos) refl,
      sizes,
      refl,
      number,
      ap (λ t. take t (flatten (source_pieces_from segment size count 0))) (sym start)
          ∙ flatten-source_pieces_from segment size count 0 pos covered
          ∙ ap (λ t. drop t segment) origin,
    )
