-- ===== src/Erasure/Segmenter/Roundtrip.antt =====
-- What `segment_and_encode` writes, `decode_and_reassemble` reads back.
use craftec_core.Erasure.Config.{
  ErasureConfig, k_for_segment, parity_count, CodedPiece, Outcome, ok, div_ceil, ◌>>=◌,
}
use craftec_core.Erasure.Decoder.{RlncDecoder, decode}
use craftec_core.Erasure.Encoder.{RlncEncoder, slice, k, encode}
use craftec_core.Erasure.Encoder.Split.{new-IsValid, length-pos, not_zero, div_ceil-mul}
use craftec_core.Erasure.Roundtrip.{decode-encode}
use craftec_core.Erasure.Segmenter.{
  segment_at, numbered, encode_with, cons_results, encode_segment, encode_segments, collect,
  num_segments, segment_and_encode, get, decode_found, decode_segment, decode_segments,
  decode_and_reassemble,
}
use mathlib.Core.Option
use native.Mathlib.Nat.{mul-le-mul_right, div-mul-le_self}
use craftec_core.Prelude.{
  ℕ, zero, suc, ◌+◌, ◌-◌, ◌*◌, ◌%◌, ◌==◌, ==_iff, ltb, ◌≤◌, ◌<◌, min, max, some, List, [], ◌∷◌,
  ◌++◌, map, length, take, drop, flatten, Byte, arith, ◌≡◌, ◌≢◌, refl, sym, subst, ap, ap₂, ◌∙◌,
  inl, inr, Bool-cases, false, length-take, length-drop, take-append-drop, drop-drop,
  drop_of_length-le, take_of_length-le, leb, leb→le,
}

collect-ok {ℓ} : {A : Type ℓ} (xs : List A) → collect (map ok xs) ≡ ok xs
unfolding collect
collect-ok [] = refl
collect-ok (x ∷ xs) = rw (collect-ok xs) refl

-- The decoder that `decode_and_reassemble` makes for a segment of some length.
abbrev decoder_for : ErasureConfig → ℕ → RlncDecoder
decoder_for c len = record {
  k = k_for_segment c len;
  piece_size = c.piece_size;
  original_size = len;
}

encoded_k : (o : Outcome RlncEncoder) → ℕ
encoded_k o = elim o [ ok e ↦ k e | _ ↦ 0 ]

-- One segment.
decode-encode_segment :
    (c : ErasureConfig) (i : ℕ) (segment rng : List Byte)
    → segment ≢ []
    → 0 < c.piece_size
    → parity_count c (k_for_segment c (length segment)) * k_for_segment c (length segment)
      ≤ length rng
    → (pieces : List CodedPiece) × (encode_segment c i segment rng
        ≡ some (ok (i % 4294967296, pieces)))
      × (decode (decoder_for c (length segment)) pieces ≡ ok segment)
unfolding encode_segment k_for_segment encoded_k
decode-encode_segment c i segment rng ne pos enough =
    let count : ℕ = max (div_ceil (length segment) c.piece_size) 1 in
    let (e, pieces, made, coded, number, back) =
      decode-encode segment c.piece_size (parity_count c count) rng ne pos enough in
    let (e', made', valid, size, k_is, covers) = new-IsValid segment c.piece_size ne pos in
    let same : k e ≡ count = ap encoded_k (sym made ∙ made') ∙ k_is in
    (
      pieces,
      ap (encode_with c i rng) made
          ∙ ap (λ t. numbered i (encode e (parity_count c t) rng)) same
          ∙ ap (numbered i) coded,
      back,
    )

drop-end :
    {A : Type 0} (a n : ℕ) (xs : List A)
    → drop (a + (min (a + n) (length xs) - a)) xs ≡ drop (a + n) xs
drop-end a n xs = elim (Bool-cases (leb (length xs) (a + n))) [
  | inl e ↦
      drop_of_length-le (a + (min (a + n) (length xs) - a)) xs (omega (arith, leb→le _ _ e))
      ∙ sym (drop_of_length-le (a + n) xs (leb→le _ _ e))
  | inr e ↦
      let same : a + (min (a + n) (length xs) - a) ≡ a + n = ground arith in
      ap (λ t. drop t xs) same
]

slice-append-drop :
    (a n : ℕ) (xs : List Byte) → slice a (min (a + n) (length xs)) xs ++ drop (a + n) xs ≡ drop a xs
slice-append-drop a n xs =
    let m : ℕ = min (a + n) (length xs) - a in
    ap (take m (drop a xs) ++◌) (sym (drop-drop m a xs ∙ drop-end a n xs))
    ∙ take-append-drop m (drop a xs)

module _ (content : List Byte) (c : ErasureConfig) (positive : 0 < c.segment_size) where
  -- Segment `i` ends where the next one starts, or with the content.
  length-segment_at :
      (i : ℕ)
      → length (segment_at content c i)
        ≡ min ((i + 1) * c.segment_size) (length content) - i * c.segment_size
  length-segment_at i = grind (
    arith,
    length-take (min (i * c.segment_size + c.segment_size) (length content) - i * c.segment_size)
        (drop (i * c.segment_size) content),
    length-drop (i * c.segment_size) content,
  )

  segment_at-ne : (i : ℕ) → i * c.segment_size < length content → segment_at content c i ≢ []
  segment_at-ne i inside e =
      let none_left : length (segment_at content c i) ≡ 0 = ap (λ xs. length xs) e in
      grind (arith, length-segment_at i)

  -- From segment `i` on, the segments make up the content from there on.
  segments_from : ℕ → ℕ → List (List Byte)
  segments_from zero i = []
  segments_from (suc left) i = segment_at content c i ∷ segments_from left (i + 1)

  step_mul : (i : ℕ) → (i + 1) * c.segment_size ≡ i * c.segment_size + c.segment_size
  step_mul i = grind arith

  flatten-segments_from :
      (left i : ℕ)
      → length content ≤ (i + left) * c.segment_size
      → flatten (segments_from left i) ≡ drop (i * c.segment_size) content
  unfolding segments_from
  flatten-segments_from zero i covered =
      sym (drop_of_length-le (i * c.segment_size) content (grind arith))
  flatten-segments_from (suc left) i covered =
      ap (segment_at content c i ++◌) (flatten-segments_from left (i + 1) (grind arith))
      ∙ ap (λ t. segment_at content c i ++ drop t content) (step_mul i)
      ∙ slice-append-drop (i * c.segment_size) c.segment_size content

  segment_inside : (j : ℕ) → j < num_segments content c → j * c.segment_size < length content
  segment_inside j h = grind (
    arith,
    step_mul j,
    mul-le-mul_right {m = j + 1} {n = num_segments content c} c.segment_size (omega arith),
    div-mul-le_self (length content + c.segment_size - 1) c.segment_size,
  )

  -- The pieces stored for the segments from `i` on, `left` of them, are decoded to the segments.
  IsDecodable : List (ℕ × List CodedPiece) → ℕ → ℕ → Type 0
  IsDecodable entries left i =
      (j : ℕ)
      → i ≤ j
      → j < i + left
      → (pieces : List CodedPiece) × (get entries j ≡ some pieces)
        × (decode (decoder_for c (length (segment_at content c j))) pieces
            ≡ ok (segment_at content c j))

  get-IsDecodable :
      (entries : List (ℕ × List CodedPiece)) (i left : ℕ) (pieces : List CodedPiece)
      → decode (decoder_for c (length (segment_at content c i))) pieces
        ≡ ok (segment_at content c i)
      → IsDecodable entries left (i + 1)
      → IsDecodable ((i, pieces) ∷ entries) (suc left) i
  unfolding IsDecodable get
  get-IsDecodable entries i left pieces here later j low high = elim (Bool-cases (i == j)) [
    | inl e ↦
        let same : i ≡ j = (==_iff i j).0 e in
        (
          pieces,
          rw e refl,
          subst
              (λ t.
                decode (decoder_for c (length (segment_at content c t))) pieces
                ≡ ok (segment_at content c t))
              same here,
        )
    | inr e ↦
        let (found, got, back) = later j (ground arith) (omega arith) in (found, rw e got, back)
  ]

  module _ (rngs : ℕ → List Byte) (total : ℕ) (sized : 0 < c.piece_size)
      (small : total < 4294967296)
      (inside : (j : ℕ) → j < total → j * c.segment_size < length content)
      (enough : (j : ℕ)
        → j < total
        → parity_count c (k_for_segment c (length (segment_at content c j)))
            * k_for_segment c (length (segment_at content c j))
          ≤ length (rngs j)) where
    encode_segments-IsDecodable :
        (left i : ℕ)
        → i + left ≡ total
        → (entries : List (ℕ × List CodedPiece)) × (encode_segments content c rngs left i
            ≡ some (map ok entries))
          × IsDecodable entries left i
    unfolding encode_segments IsDecodable
    encode_segments-IsDecodable zero i e = ([], refl, λ j low high. absurd (omega arith))
    encode_segments-IsDecodable (suc left) i e =
        let here : i < total = omega arith in
        let (pieces, made, back) =
          decode-encode_segment c i (segment_at content c i) (rngs i)
            (segment_at-ne i (inside i here)) sized (enough i here) in
        let (entries, rest, later) = encode_segments-IsDecodable left (i + 1) (omega arith) in
        let index : i % 4294967296 ≡ i = omega arith in
        (
          (i, pieces) ∷ entries,
          ap₂ cons_results made rest ∙ ap (λ t. some (ok (t, pieces) ∷ map ok entries)) index,
          get-IsDecodable entries i left pieces back later,
        )

    decode_segments-segments_from :
        (entries : List (ℕ × List CodedPiece)) (left i : ℕ)
        → i + left ≡ total
        → IsDecodable entries left i
        → decode_segments entries c (length content) left i ≡ map ok (segments_from left i)
    unfolding decode_segments segments_from IsDecodable decode_segment
    decode_segments-segments_from entries zero i e decodable = refl
    decode_segments-segments_from entries (suc left) i e decodable =
        let (pieces, got, back) = decodable i (omega arith) (omega arith) in
        let started : i * c.segment_size < length content = inside i (omega arith) in
        let start : ℕ = i * c.segment_size in
        let end : ℕ = min ((i + 1) * c.segment_size) (length content) in
        let in_order : ltb end start ≡ false = grind (arith, step_mul i) in
        let rest =
          decode_segments-segments_from entries left (i + 1) (omega arith)
            (λ j low high. decodable j (omega arith) (omega arith)) in
        ap₂ ◌∷◌
          (ap (decode_found c start end) got
            ∙ (rw in_order (ap (λ t. decode (decoder_for c t) pieces) (sym (length-segment_at i))))
            ∙ back)
          rest

-- Content that is not empty, with positive sizes, fewer than 2^32 segments and a random byte for
-- each coefficient of each segment, is encoded, and decoding the result gives it back.
pub decode_and_reassemble-segment_and_encode :
    (content : List Byte) (c : ErasureConfig) (rngs : ℕ → List Byte)
    → content ≢ []
    → 0 < c.piece_size
    → 0 < c.segment_size
    → num_segments content c < 4294967296
    → ((j : ℕ)
        → j < num_segments content c
        → parity_count c (k_for_segment c (length (segment_at content c j)))
            * k_for_segment c (length (segment_at content c j))
          ≤ length (rngs j))
    → (segments : List (ℕ × List CodedPiece)) × (segment_and_encode content c rngs
        ≡ some (ok segments))
      × (decode_and_reassemble segments (num_segments content c) c (length content) ≡ ok content)
unfolding segment_and_encode decode_and_reassemble
decode_and_reassemble-segment_and_encode content c rngs ne sized positive small enough =
    let total : ℕ = num_segments content c in
    let inside = segment_inside content c positive in
    let (entries, made, decodable) =
      encode_segments-IsDecodable content c positive rngs total sized small inside enough total 0
        (omega arith) in
    let decoded =
      decode_segments-segments_from content c positive rngs total sized small inside enough entries
        total 0 (omega arith) decodable in
    let start : 0 * c.segment_size ≡ 0 = omega arith in
    let covered =
      flatten-segments_from content c positive total 0
        (grind (arith, div_ceil-mul (length content) c.segment_size positive)) in
    (
      entries,
      rw (not_zero (length content) (length-pos content ne))
          (ap (Option.map collect) made ∙ ap some (collect-ok entries)),
      ap (λ o. o >>= λ segments. ok (take (length content) (flatten segments)))
            (ap collect decoded ∙ collect-ok (segments_from content c positive total 0))
          ∙ ap (λ xs. ok (take (length content) xs)) (covered ∙ ap (λ t. drop t content) start)
          ∙ ap ok (take_of_length-le (length content) content (omega arith)),
    )
