-- ===== src/Protocol/Framing/Samples.antt =====
-- The theorems on frames at two frames of 24 and 25 bytes.
use capsi.Base.{ℕ, ◌≡◌, refl, some, List, [], ◌∷◌, ◌++◌, arith, take, replicate, ok}
use capsi.Protocol.Framing.{
  closed, broken, Reader, read_exact, read_body, read_after_length, read_frame,
}
use capsi.Protocol.Framing.Stream.{
  IsFrame, write_frames, read_frames, frames_round_trip, read_frame_sound,
}

abbrev first : List ℕ
first = replicate 24 7

abbrev second : List ℕ
second = replicate 25 9

frames_round_trip_example :
    (written : List ℕ) × (write_frames (first ∷ second ∷ []) [] ≡ ok written)
    × (read_frames 3 (record { bytes = written; finish = closed }) ≡ ok (first ∷ second ∷ []))
frames_round_trip_example = frames_round_trip (first ∷ second ∷ []) (
  record { long_enough = omega arith; short_enough = omega arith },
  (record { long_enough = omega arith; short_enough = omega arith }, tt),
)

abbrev incoming : Reader
incoming = record { bytes = 0 ∷ 0 ∷ 0 ∷ 24 ∷ (first ++ 5 ∷ []); finish = broken }

incoming_read : read_frame incoming ≡ ok (some (first, record { bytes = 5 ∷ []; finish = broken }))
unfolding read_frame read_after_length read_exact read_body
incoming_read = refl

read_frame_sound_example :
    IsFrame first
    × (take 4 incoming.bytes ++ (first ++ 5 ∷ []) ≡ incoming.bytes)
    × (broken ≡ broken)
read_frame_sound_example =
    read_frame_sound incoming first (record { bytes = 5 ∷ []; finish = broken }) incoming_read
