-- ===== src/Protocol/Framing.antt =====
-- crates/capsi-core/src/protocol/framing.rs: frames behind their length, on a stream of bytes.
pub mod Stream
mod Samples
use capsi.Base.{
  ℕ, ◌+◌, ◌*◌, ◌/◌, ◌%◌, ◌^◌, Option, none, some, List, [], ◌∷◌, ◌++◌, ltb, leb, if◌then◌else◌,
  length, take, drop, Result, ok, err,
}

-- `MAX_FRAME_BYTES`, and `FRAME_OVERHEAD` of crypto/session.rs.
abbrev pub max_frame_bytes : ℕ
max_frame_bytes = 16 * 1024 * 1024

abbrev pub frame_overhead : ℕ
frame_overhead = 8 + 16

pub data FrameError : Type 0 where
  frame_too_large announced_too_large announced_too_short : ℕ → FrameError
  network truncated : FrameError

-- What a reader still has to give, and whether its end is a close or a failure.
pub data End : Type 0 where
  closed broken : End

pub record Reader : Type 0 where
  pub bytes : List ℕ
  pub finish : End

-- The outcomes of `AsyncReadExt::read_exact`.
pub data Reading : Type 0 where
  filled : List ℕ → Reader → Reading
  unexpected_eof io_error : Reading

abbrev pub short_read : End → Reading
short_read closed = unexpected_eof
short_read broken = io_error

unfoldable pub read_exact : ℕ → Reader → Reading
read_exact n r =
    if leb n (length r.bytes)
    then filled (take n r.bytes) (record r { bytes = drop n r.bytes })
    else short_read r.finish

-- `u32::to_be_bytes` and `u32::from_be_bytes`.
abbrev pub to_be_bytes : ℕ → List ℕ
to_be_bytes n = n / 2 ^ 24 % 256 ∷ n / 2 ^ 16 % 256 ∷ n / 2 ^ 8 % 256 ∷ n % 256 ∷ []

abbrev pub from_be_bytes : ℕ → List ℕ → ℕ
from_be_bytes high [] = high
from_be_bytes high (b ∷ bytes) = from_be_bytes (high * 256 + b) bytes

-- `write_frame` to a writer that takes all bytes: what it has been given afterwards. The length
-- is cast to 32 bits.
unfoldable pub write_frame : (bytes written : List ℕ) → Result FrameError (List ℕ)
write_frame bytes written =
    if ltb max_frame_bytes (length bytes)
    then err (frame_too_large (length bytes))
    else ok (written ++ (to_be_bytes (length bytes % 2 ^ 32) ++ bytes))

-- The frame that follows a length.
unfoldable pub read_body : Reading → Result FrameError (Option (List ℕ × Reader))
read_body (filled bytes r) = ok (some (bytes, r))
read_body unexpected_eof = err truncated
read_body io_error = err truncated

-- `read_frame` after the read of the length.
unfoldable pub read_after_length : Reading → Result FrameError (Option (List ℕ × Reader))
unfolding read_body read_exact
read_after_length (filled head r) =
    let length = from_be_bytes 0 head in
    if ltb max_frame_bytes length
    then err (announced_too_large length)
    else if ltb length frame_overhead
    then err (announced_too_short length)
    else read_body (read_exact length r)
read_after_length unexpected_eof = ok none
read_after_length io_error = err network

-- The frame and the rest of the stream, or nothing at its end.
unfoldable pub read_frame : Reader → Result FrameError (Option (List ℕ × Reader))
unfolding read_after_length read_exact
read_frame r = read_after_length (read_exact 4 r)
