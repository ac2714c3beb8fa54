-- ===== src/Tests/Network.antt =====
-- An input for the theorem on wire.rs of crates/network.
use craftec_core.Network.Wire.{RawFrame, received}
use craftec_core.Network.Wire.Laws.{IsSendable, write_frames, read_frames, read_frames-write_frames}
use craftec_core.Prelude.{List, [], ◌∷◌, ◌++◌, length, All, Byte, u8, arith, ◌≡◌}

abbrev frames : List RawFrame
frames =
    record { seq_id = 7; msg_type = u8 1; payload = u8 10 ∷ u8 20 ∷ [] }
    ∷ record { seq_id = 8; msg_type = u8 2; payload = [] }
    ∷ []

frames-IsSendable : All IsSendable frames
frames-IsSendable = (
  record { seq_id_fits = omega arith; payload_length = omega arith },
  (record { seq_id_fits = omega arith; payload_length = omega arith }, tt),
)

read_frames-write_frames_example :
    (sent : List Byte) × (write_frames (u8 9 ∷ []) frames ≡ received tt (u8 9 ∷ [] ++ sent))
    × (read_frames (length frames) (sent ++ u8 5 ∷ []) ≡ received frames (u8 5 ∷ []))
read_frames-write_frames_example =
    read_frames-write_frames (u8 9 ∷ []) frames (u8 5 ∷ []) frames-IsSendable
