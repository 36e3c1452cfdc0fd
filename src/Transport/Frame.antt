-- ===== src/Transport/Frame.antt =====
-- Envelope frames (bloc-node/internal/app/transport_libp2p_frame.go): a payload behind its length as
-- an unsigned varint. A stream is the bytes that are left in it, and ends after them.
pub mod RoundTrip
use bloc.Prelude.{
  ℕ, zero, suc, ◌+◌, ◌-◌, ◌*◌, ◌/◌, ◌%◌, ◌^◌, Bool, ◌&&◌, Option, none, some, List, [], ◌∷◌, ◌++◌,
  ◌==◌, ltb, if◌then◌else◌, length, is_nil, take, drop,
}
use bloc.Prelude.Bytes.{Bytes}

-- binary.PutUvarint: seven bits a byte, the lowest first; ten bytes are enough for a uint64.
unfoldable pub put_uvarint : ℕ → ℕ → Bytes
put_uvarint zero n = []
put_uvarint (suc fuel) n =
    let rest = put_uvarint fuel (n / 128) in if ltb n 128 then n ∷ [] else (n % 128 + 128) ∷ rest

-- What binary.ReadUvarint returns: a value and the bytes behind it, or its error.
pub data Uvarint : Type 0 where
  value : ℕ → Bytes → Uvarint
  ends cut_off overflows : Uvarint

-- With the number of bytes that may still come, the value so far and the weight of the next byte.
unfoldable pub read_uvarint : ℕ → ℕ → ℕ → Bytes → Uvarint
read_uvarint zero x weight bs = overflows
read_uvarint (suc left) x weight [] = if left == 9 then ends else cut_off
read_uvarint (suc left) x weight (b ∷ bs) =
    let rest = read_uvarint left (x + (b - 128) * weight) (128 * weight) bs in
    if ltb b 128
    then (if left == 0 && ltb 1 b then overflows else value (x + b * weight) bs)
    else rest

pub data FrameError : Type 0 where
  zero_length length_overflow truncated_prefix truncated_payload invalid_maximum too_large :
      FrameError

-- The payload and what is left of the stream; `closed` is io.EOF in front of a frame.
pub data Frame : Type 0 where
  payload : Bytes → Bytes → Frame
  closed : Frame
  refused : FrameError → Frame

-- What is written, or `none` where an empty payload is refused.
unfoldable pub write_envelope_frame : Bytes → Option Bytes
write_envelope_frame p = if is_nil p then none else some (put_uvarint 10 (length p) ++ p)

abbrev pub read_payload : ℕ → Bytes → Frame
read_payload n bs =
    if ltb (length bs) n then refused truncated_payload else payload (take n bs) (drop n bs)

unfoldable pub read_envelope_frame : ℕ → Bytes → Frame
read_envelope_frame max_envelope_bytes bs =
    if max_envelope_bytes == 0 then refused invalid_maximum else elim (read_uvarint 10 0 1 bs) [
      | ends ↦ closed
      | cut_off ↦ refused truncated_prefix
      | overflows ↦ refused length_overflow
      | value n rest ↦
          if n == 0
          then refused zero_length
          else if ltb max_envelope_bytes n
          then refused too_large
          else read_payload n rest
    ]
