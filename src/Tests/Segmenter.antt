-- ===== src/Tests/Segmenter.antt =====
-- An input for the theorem on segmenter.rs of crates/erasure.
use craftec_core.Erasure.Config.{ErasureConfig, CodedPiece, ok, k_for_segment, parity_count}
use craftec_core.Erasure.Segmenter.{
  segment_at, num_segments, segment_and_encode, decode_and_reassemble,
}
use craftec_core.Erasure.Segmenter.Roundtrip.{decode_and_reassemble-segment_and_encode}
use craftec_core.Prelude.{
  ℕ, zero, suc, ◌*◌, ◌≤◌, ◌<◌, some, List, [], ◌∷◌, length, Byte, u8, arith, ◌≡◌, ◌≢◌, ap,
}

abbrev content : List Byte
content = u8 10 ∷ u8 20 ∷ u8 30 ∷ u8 40 ∷ u8 50 ∷ []

abbrev config : ErasureConfig
config = record { piece_size = 2; segment_size = 3; initial_parity = 100 }

abbrev streams : ℕ → List Byte
streams i = u8 3 ∷ u8 i ∷ u8 5 ∷ u8 7 ∷ []

content_ne : content ≢ []
content_ne e = omega (arith, ap (λ (xs : List Byte). length xs) e)

streams_suffice :
    (j : ℕ)
    → j < num_segments content config
    → parity_count config (k_for_segment config (length (segment_at content config j)))
        * k_for_segment config (length (segment_at content config j))
      ≤ length (streams j)
unfolding parity_count k_for_segment
streams_suffice zero h = omega arith
streams_suffice (suc zero) h = omega arith
streams_suffice (suc (suc j)) h = absurd (omega arith)

decode_and_reassemble-segment_and_encode_example :
    (segments : List (ℕ × List CodedPiece)) × (segment_and_encode content config streams
      ≡ some (ok segments))
    × (decode_and_reassemble segments (num_segments content config) config (length content)
        ≡ ok content)
decode_and_reassemble-segment_and_encode_example =
    decode_and_reassemble-segment_and_encode content config streams content_ne (omega arith)
      (omega arith) (omega arith) streams_suffice
