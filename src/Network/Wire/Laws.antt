-- ===== src/Network/Wire/Laws.antt =====
-- Frames that are written one after the other are read back in order.
use craftec_core.Network.Wire.{
  max_frame_payload, RawFrame, Io, received, then_read, read_exact, to_be_bytes, from_be_bytes,
  read_payload, first_byte, read_raw_frame, frame_bytes, write_raw_frame,
}
use native.Mathlib.Nat.{pow-suc}
use craftec_core.Prelude.{
  ℕ, zero, suc, ◌+◌, ◌*◌, ◌/◌, ◌%◌, ◌^◌, ◌≤◌, ◌<◌, ltb, true, false, List, [], ◌∷◌, ◌++◌,
  append_assoc, append-nil, length, length-append, take, drop, take-append, drop-append, All, Byte,
  u8, arith, ◌≡◌, refl, sym, ap, ap₂, ◌∙◌,
}

length-to_be_bytes : (width n : ℕ) → length (to_be_bytes width n) ≡ width
unfolding to_be_bytes
length-to_be_bytes zero n = refl
length-to_be_bytes (suc width) n = omega (
  arith,
  length-append (to_be_bytes width (n / 256)) (u8 n ∷ []),
  length-to_be_bytes width (n / 256),
)

from_be_bytes-append :
    (value : ℕ) (xs : List Byte) (b : Byte)
    → from_be_bytes value (xs ++ b ∷ []) ≡ from_be_bytes value xs * 256 + b.value
unfolding from_be_bytes
from_be_bytes-append value [] b = refl
from_be_bytes-append value (x ∷ xs) b = from_be_bytes-append (value * 256 + x.value) xs b

from_be_bytes-to_be_bytes :
    (width n : ℕ) → n < 256 ^ width → from_be_bytes 0 (to_be_bytes width n) ≡ n
unfolding to_be_bytes from_be_bytes u8
from_be_bytes-to_be_bytes zero n h = omega arith
from_be_bytes-to_be_bytes (suc width) n h = omega (
  arith,
  from_be_bytes-append 0 (to_be_bytes width (n / 256)) (u8 n),
  from_be_bytes-to_be_bytes width (n / 256) (omega (arith, pow-suc 256 width)),
)

read_exact-append :
    (n : ℕ) (xs rest : List Byte) → length xs ≡ n → read_exact n (xs ++ rest) ≡ received xs rest
unfolding read_exact
read_exact-append n xs rest e =
    let long : ltb (length (xs ++ rest)) n ≡ false = ground (arith, length-append xs rest) in
    rw long (
      ap (λ t. received (take t (xs ++ rest)) (drop t (xs ++ rest))) (sym e)
      ∙ ap₂ received (take-append xs rest) (drop-append xs rest))

-- A frame whose number fits `u64` and whose payload is not too long.
pub record IsSendable (f : RawFrame) : Type 0 where
  pub seq_id_fits : f.seq_id < 18446744073709551616
  pub payload_length : length f.payload ≤ max_frame_payload

read_payload_lem :
    (seq_id : ℕ) (ty : Byte) (payload rest : List Byte)
    → length payload ≤ max_frame_payload
    → read_payload seq_id ty (length payload) (payload ++ rest)
      ≡ received (record { seq_id = seq_id; msg_type = ty; payload = payload }) rest
unfolding read_payload
read_payload_lem seq_id ty [] rest h = refl
read_payload_lem seq_id ty (b ∷ bs) rest h =
    let small : ltb max_frame_payload (suc (length bs)) ≡ false = ground arith in
    let some_left : ltb 0 (suc (length bs)) ≡ true = ground arith in
    rw (small, some_left)
      (ap
        (λ r.
          then_read r (λ p s. received (record { seq_id = seq_id; msg_type = ty; payload = p }) s))
        (read_exact-append (suc (length bs)) (b ∷ bs) rest refl))

pub read_raw_frame-frame_bytes :
    (f : RawFrame) (rest : List Byte)
    → IsSendable f
    → read_raw_frame (frame_bytes f ++ rest) ≡ received f rest
unfolding read_raw_frame frame_bytes
read_raw_frame-frame_bytes f rest ok =
    let seq = to_be_bytes 8 f.seq_id in
    let count = to_be_bytes 4 (length f.payload % 4294967296) in
    let finish : List Byte → List Byte → List Byte → List Byte → Io RawFrame =
      λ s t l after. read_payload (from_be_bytes 0 s) (first_byte t) (from_be_bytes 0 l) after in
    let after_type : List Byte → List Byte → List Byte → Io RawFrame =
      λ s t stream. then_read (read_exact 4 stream) (finish s t) in
    let after_seq : List Byte → List Byte → Io RawFrame =
      λ s stream. then_read (read_exact 1 stream) (after_type s) in
    let small : length f.payload % 4294967296 ≡ length f.payload =
      omega (arith, ok.payload_length) in
    let len : from_be_bytes 0 count ≡ length f.payload =
      from_be_bytes-to_be_bytes 4 (length f.payload % 4294967296) (omega arith) ∙ small in
    let number : from_be_bytes 0 seq ≡ f.seq_id =
      from_be_bytes-to_be_bytes 8 f.seq_id ok.seq_id_fits in
    ap (λ t. then_read (read_exact 8 t) after_seq)
      (append_assoc (((seq ++ f.msg_type ∷ []) ++ count)) f.payload rest
        ∙ append_assoc (seq ++ f.msg_type ∷ []) count (f.payload ++ rest)
        ∙ append_assoc seq (f.msg_type ∷ []) (count ++ (f.payload ++ rest)))
    ∙ ap (λ r. then_read r after_seq)
        (read_exact-append 8 seq (f.msg_type ∷ (count ++ (f.payload ++ rest)))
          (length-to_be_bytes 8 f.seq_id))
    ∙ ap (λ r. then_read r (after_type seq))
        (read_exact-append 1 (f.msg_type ∷ []) (count ++ (f.payload ++ rest)) refl)
    ∙ ap (λ r. then_read r (finish seq (f.msg_type ∷ [])))
        (read_exact-append 4 count (f.payload ++ rest)
          (length-to_be_bytes 4 (length f.payload % 4294967296)))
    ∙ ap₂ (λ n l. read_payload n f.msg_type l (f.payload ++ rest)) number len
    ∙ read_payload_lem f.seq_id f.msg_type f.payload rest ok.payload_length

-- One call of `write_raw_frame` for each frame, up to the first error.
abbrev pub write_frames : List Byte → List RawFrame → Io (Unit {0})
write_frames written [] = received tt written
write_frames written (f ∷ fs) =
    then_read (write_raw_frame written f) (λ u more. write_frames more fs)

-- `n` calls of `read_raw_frame`, up to the first error.
abbrev pub read_frames : ℕ → List Byte → Io (List RawFrame)
read_frames zero stream = received [] stream
read_frames (suc n) stream =
    then_read (read_raw_frame stream)
      (λ f rest. then_read (read_frames n rest) (λ fs after. received (f ∷ fs) after))

write_raw_frame-IsSendable :
    (written : List Byte) (f : RawFrame)
    → IsSendable f
    → write_raw_frame written f ≡ received tt (written ++ frame_bytes f)
unfolding write_raw_frame
write_raw_frame-IsSendable written f ok =
    let small : ltb max_frame_payload (length f.payload) ≡ false =
      ground (arith, ok.payload_length) in
    rw small refl

-- Frames whose numbers fit `u64` and whose payloads are at most 50 MB are all written, behind what
-- has been written before, and as many reads of the bytes that were added give the frames back in
-- order and leave what follows.
pub read_frames-write_frames :
    (written : List Byte) (frames : List RawFrame) (rest : List Byte)
    → All IsSendable frames
    → (sent : List Byte) × (write_frames written frames ≡ received tt (written ++ sent))
      × (read_frames (length frames) (sent ++ rest) ≡ received frames rest)
read_frames-write_frames written [] rest ok =
    ([], ap (received tt) (sym (append-nil written)), refl)
read_frames-write_frames written (f ∷ fs) rest ok =
    let (sent, wrote, read) = read_frames-write_frames (written ++ frame_bytes f) fs rest ok.1 in
    (
      frame_bytes f ++ sent,
      ap (λ r. then_read r (λ u more. write_frames more fs))
            (write_raw_frame-IsSendable written f ok.0)
          ∙ wrote
          ∙ ap (received tt) (append_assoc written (frame_bytes f) sent),
      ap (λ t. read_frames (suc (length fs)) t) (append_assoc (frame_bytes f) sent rest)
          ∙ ap
              (λ r. then_read r (λ g after.
                then_read (read_frames (length fs) after) (λ gs last. received (g ∷ gs) last)))
              (read_raw_frame-frame_bytes f (sent ++ rest) ok.0)
          ∙ ap (λ r. then_read r (λ gs last. received (f ∷ gs) last)) read,
    )
