-- ===== src/Erasure/Segmenter.antt =====
-- crates/erasure/src/segmenter.rs: content is cut into segments, each coded on its own.
-- The parallel iterators are lists in the order of their indices, and the random generator of each
-- segment is a list of bytes.
pub mod Roundtrip
use craftec_core.Erasure.Config.{
  ErasureConfig, k_for_segment, parity_count, CodedPiece, Outcome, ok, err, panic, ◌>>=◌,
  empty_data, decoding_failed, div_ceil,
}
use craftec_core.Erasure.Decoder.{RlncDecoder, decode}
use craftec_core.Erasure.Encoder.{RlncEncoder, slice, new, k, encode}
use mathlib.Core.Option
use craftec_core.Prelude.{
  ℕ, zero, suc, ◌+◌, ◌-◌, ◌*◌, ◌%◌, ◌==◌, ltb, if◌then◌else◌, min, Option, none, some, List, [],
  ◌∷◌, length, take, flatten, Byte,
}

-- `&data[start..end]` for segment `i`.
abbrev pub segment_at : List Byte → ErasureConfig → ℕ → List Byte
segment_at content c i =
    slice (i * c.segment_size) (min (i * c.segment_size + c.segment_size) (length content)) content

-- `Ok((i as u32, pieces))`
abbrev pub numbered : ℕ → Option (List CodedPiece) → Option (Outcome (ℕ × List CodedPiece))
numbered i none = none
numbered i (some pieces) = some (ok (i % 4294967296, pieces))

-- The rest of the closure of `segment_and_encode`, once it has an encoder; `none` means that the
-- random bytes run out.
abbrev pub encode_with :
    ErasureConfig → ℕ → List Byte → Outcome RlncEncoder → Option (Outcome (ℕ × List CodedPiece))
encode_with c i rng (ok encoder) = numbered i (encode encoder (parity_count c (k encoder)) rng)
encode_with c i rng (err e) = some (err e)
encode_with c i rng panic = some panic

-- The closure of `segment_and_encode`.
unfoldable pub encode_segment :
    ErasureConfig → ℕ → List Byte → List Byte → Option (Outcome (ℕ × List CodedPiece))
encode_segment c i segment_data rng = encode_with c i rng (new segment_data c.piece_size)

abbrev pub cons_results {ℓ} : {A : Type ℓ} → Option A → Option (List A) → Option (List A)
cons_results (some r) (some rs) = some (r ∷ rs)
cons_results (some r) none = none
cons_results none rest = none

-- The map over `0..num_segments`, with `left` segments to go.
unfoldable pub encode_segments :
    List Byte
    → ErasureConfig
    → (ℕ → List Byte)
    → ℕ
    → ℕ
    → Option (List (Outcome (ℕ × List CodedPiece)))
encode_segments content c rngs zero i = some []
encode_segments content c rngs (suc left) i =
    let rest = encode_segments content c rngs left (i + 1) in
    cons_results (encode_segment c i (segment_at content c i) (rngs i)) rest

-- `collect` into a result: the first error, unless a closure panics.
unfoldable pub collect {ℓ} : {A : Type ℓ} → List (Outcome A) → Outcome (List A)
collect [] = ok []
collect (r ∷ rs) =
    let rest = collect rs in
    elim r [
      | ok a ↦ rest >>= λ as'. ok (a ∷ as')
      | err e ↦ elim rest [ panic ↦ panic | _ ↦ err e ]
      | panic ↦ panic
    ]

abbrev pub num_segments : List Byte → ErasureConfig → ℕ
num_segments content c = div_ceil (length content) c.segment_size

-- `segment_and_encode`. A `segment_size` of 0 panics in the source, and is outside the domain here.
unfoldable pub segment_and_encode :
    List Byte → ErasureConfig → (ℕ → List Byte) → Option (Outcome (List (ℕ × List CodedPiece)))
segment_and_encode content c rngs =
    if length content == 0
    then some (err empty_data)
    else Option.map collect (encode_segments content c rngs (num_segments content c) 0)

-- `segments.get(&i)`
unfoldable pub get : List (ℕ × List CodedPiece) → ℕ → Option (List CodedPiece)
get [] i = none
get (entry ∷ segments) i = if entry.0 == i then some entry.1 else get segments i

-- The rest of the closure of `decode_and_reassemble`, on what the map holds for the segment. The
-- subtraction panics below 0 in a debug build.
abbrev pub decode_found : ErasureConfig → ℕ → ℕ → Option (List CodedPiece) → Outcome (List Byte)
decode_found c segment_start segment_end none = err decoding_failed
decode_found c segment_start segment_end (some pieces) =
    let segment_len = segment_end - segment_start in
    if ltb segment_end segment_start
    then panic
    else decode
        (record {
          k = k_for_segment c segment_len;
          piece_size = c.piece_size;
          original_size = segment_len;
        })
        pieces

-- The closure of `decode_and_reassemble`.
unfoldable pub decode_segment :
    List (ℕ × List CodedPiece) → ErasureConfig → ℕ → ℕ → Outcome (List Byte)
decode_segment segments c original_len i =
    decode_found c (i * c.segment_size) (min ((i + 1) * c.segment_size) original_len)
      (get segments i)

-- The map over `0..total_segments`, with `left` segments to go.
unfoldable pub decode_segments :
    List (ℕ × List CodedPiece) → ErasureConfig → ℕ → ℕ → ℕ → List (Outcome (List Byte))
decode_segments segments c original_len zero i = []
decode_segments segments c original_len (suc left) i =
    decode_segment segments c original_len i ∷ decode_segments segments c original_len left (i + 1)

-- `decode_and_reassemble`; `total_segments` is a `u32`, a number below 2^32.
unfoldable pub decode_and_reassemble :
    List (ℕ × List CodedPiece) → ℕ → ErasureConfig → ℕ → Outcome (List Byte)
decode_and_reassemble segments total_segments c original_len =
    collect (decode_segments segments c original_len total_segments 0) >>= λ decoded.
    ok (take original_len (flatten decoded))
