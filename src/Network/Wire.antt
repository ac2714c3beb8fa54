-- ===== src/Network/Wire.antt =====
-- crates/network/src/wire.rs: frames on a byte stream. A stream is the list of the bytes that are
-- still to be read, or that have been written; flushes, timing and logging are left out. An error of
-- the stream itself is its end.
pub mod Laws
use craftec_core.Prelude.{
  ℕ, zero, suc, ◌+◌, ◌*◌, ◌/◌, ◌%◌, ltb, if◌then◌else◌, List, [], ◌∷◌, ◌++◌, length, take, drop,
  Byte, u8,
}

-- `MAX_FRAME_PAYLOAD`, 50 MB
abbrev pub max_frame_payload : ℕ
max_frame_payload = 52428800

pub record RawFrame : Type 0 where
  pub seq_id : ℕ
  pub msg_type : Byte
  pub payload : List Byte

pub data WireError : Type 0 where
  invalid_data unexpected_eof : WireError

-- What a read leaves on the stream, or the error.
pub data Io {ℓ} (A : Type ℓ) : Type ℓ where
  received : A → List Byte → Io A
  broken : WireError → Io A

abbrev pub then_read {ℓ κ} : {A : Type ℓ} {B : Type κ} → Io A → (A → List Byte → Io B) → Io B
then_read (received a stream) next = next a stream
then_read (broken e) next = broken e

-- `read_exact` of a buffer of `n` bytes.
unfoldable pub read_exact : ℕ → List Byte → Io (List Byte)
read_exact n stream =
    if ltb (length stream) n
    then broken unexpected_eof
    else received (take n stream) (drop n stream)

-- `to_be_bytes` of a word of `width` bytes.
unfoldable pub to_be_bytes : ℕ → ℕ → List Byte
to_be_bytes zero n = []
to_be_bytes (suc width) n = to_be_bytes width (n / 256) ++ u8 n ∷ []

-- `from_be_bytes`, with the value of the bytes that have been read.
unfoldable pub from_be_bytes : ℕ → List Byte → ℕ
from_be_bytes value [] = value
from_be_bytes value (b ∷ bs) = from_be_bytes (value * 256 + b.value) bs

-- `payload`, read when the length is known.
unfoldable pub read_payload : ℕ → Byte → ℕ → List Byte → Io RawFrame
read_payload seq_id ty len stream =
    if ltb max_frame_payload len
    then broken invalid_data
    else then_read (if ltb 0 len then read_exact len stream else received [] stream)
        (λ payload rest.
          received (record { seq_id = seq_id; msg_type = ty; payload = payload }) rest)

-- `ty[0]` of a buffer of one byte.
abbrev pub first_byte : List Byte → Byte
first_byte [] = u8 0
first_byte (b ∷ bs) = b

-- `read_raw_frame`
unfoldable pub read_raw_frame : List Byte → Io RawFrame
read_raw_frame stream = then_read (read_exact 8 stream) (λ seq_bytes after_seq.
    then_read (read_exact 1 after_seq) (λ ty after_type.
      then_read (read_exact 4 after_type) (λ len_bytes after_len.
        read_payload (from_be_bytes 0 seq_bytes) (first_byte ty) (from_be_bytes 0 len_bytes)
          after_len)))

-- The buffer of `write_raw_frame`.
unfoldable pub frame_bytes : RawFrame → List Byte
frame_bytes f =
    to_be_bytes 8 f.seq_id
    ++ (f.msg_type ∷ [])
    ++ to_be_bytes 4 (length f.payload % 4294967296)
    ++ f.payload

-- `write_raw_frame` behind the bytes that have been written.
unfoldable pub write_raw_frame : List Byte → RawFrame → Io (Unit {0})
write_raw_frame written f =
    if ltb max_frame_payload (length f.payload)
    then broken invalid_data
    else received tt (written ++ frame_bytes f)
