-- ===== src/Protocol/Framing/Stream.antt =====
-- Frames that were written come back in their order, and nothing else does.
use capsi.Base.{
  ℕ, zero, suc, ◌+◌, ◌%◌, ◌^◌, ◌≤◌, ◌<◌, ◌≡◌, refl, sym, ap, ◌∙◌, ◌≢◌, inl, inr, true, false, none,
  some, List, [], ◌∷◌, ◌++◌, arith, ltb, leb, Bool-cases, length, take, drop, All, length-append,
  length-take, take-length-append, drop-length-append, append-nil, append_assoc, take-append-drop,
  Result, ok, ◌>>=◌,
}
use capsi.Protocol.Framing.{
  max_frame_bytes, frame_overhead, FrameError, End, closed, broken, Reader, filled, short_read,
  read_exact, to_be_bytes, from_be_bytes, write_frame, read_body, read_after_length, read_frame,
}

-- A frame as the session makes them: at least a counter and a tag, at most the limit.
pub record IsFrame (bytes : List ℕ) : Type 0 where
  pub long_enough : frame_overhead ≤ length bytes
  pub short_enough : length bytes ≤ max_frame_bytes

be_bytes_round_trip : (n : ℕ) → n < 2 ^ 32 → from_be_bytes 0 (to_be_bytes n) ≡ n
be_bytes_round_trip n h = omega arith

write_frame_ok :
    (bytes written : List ℕ)
    → IsFrame bytes
    → write_frame bytes written ≡ ok (written ++ (to_be_bytes (length bytes) ++ bytes))
unfolding write_frame
write_frame_ok bytes written f =
    let fits : ltb max_frame_bytes (length bytes) ≡ false = ground (arith, f.short_enough) in
    let same : length bytes % 2 ^ 32 ≡ length bytes = omega (arith, f.short_enough) in
    rw (fits, same)

read_exact_append :
    (xs ys : List ℕ) (finish : End)
    → read_exact (length xs) (record { bytes = xs ++ ys; finish = finish })
      ≡ filled xs (record { bytes = ys; finish = finish })
unfolding read_exact
read_exact_append xs ys finish =
    let inside : leb (length xs) (length (xs ++ ys)) ≡ true = ground (arith, length-append xs ys) in
    rw (inside, take-length-append xs ys, drop-length-append xs ys)

read_after_length_ok :
    (head bytes rest : List ℕ) (finish : End)
    → IsFrame bytes
    → from_be_bytes 0 head ≡ length bytes
    → read_after_length (filled head (record { bytes = bytes ++ rest; finish = finish }))
      ≡ ok (some (bytes, record { bytes = rest; finish = finish }))
unfolding read_after_length read_body
read_after_length_ok head bytes rest finish f e =
    let fits : ltb max_frame_bytes (length bytes) ≡ false = ground (arith, f.short_enough) in
    let enough : ltb (length bytes) frame_overhead ≡ false = ground (arith, f.long_enough) in
    rw (e, fits, enough, read_exact_append bytes rest finish)

read_frame_ok :
    (bytes rest : List ℕ) (finish : End)
    → IsFrame bytes
    → read_frame (record { bytes = to_be_bytes (length bytes) ++ (bytes ++ rest); finish = finish })
      ≡ ok (some (bytes, record { bytes = rest; finish = finish }))
unfolding read_frame
read_frame_ok bytes rest finish f =
    ap read_after_length (read_exact_append (to_be_bytes (length bytes)) (bytes ++ rest) finish)
    ∙ read_after_length_ok (to_be_bytes (length bytes)) bytes rest finish f
        (be_bytes_round_trip (length bytes) (omega (arith, f.short_enough)))

-- The calls of a sender, one for each frame.
unfoldable pub write_frames : List (List ℕ) → (written : List ℕ) → Result FrameError (List ℕ)
write_frames [] written = ok written
write_frames (bytes ∷ frames) written = write_frame bytes written >>= write_frames frames

-- The loop of a receiver until the end of the stream, for so many reads at most.
unfoldable pub read_frames : (fuel : ℕ) → Reader → Result FrameError (List (List ℕ))
read_frames zero r = ok []
read_frames (suc fuel) r = read_frame r >>= λ found. elim found [
  | none ↦ ok []
  | some (bytes, rest) ↦ read_frames fuel rest >>= λ frames. ok (bytes ∷ frames)
]

-- The bytes of frames on the stream.
abbrev pub wire : List (List ℕ) → List ℕ
wire [] = []
wire (bytes ∷ frames) = to_be_bytes (length bytes) ++ (bytes ++ wire frames)

write_frames_ok :
    (frames : List (List ℕ)) (written : List ℕ)
    → All IsFrame frames
    → write_frames frames written ≡ ok (written ++ wire frames)
unfolding write_frames
write_frames_ok [] written h = ap ok (sym (append-nil written))
write_frames_ok (bytes ∷ frames) written (f, h) =
    rw
      (
        write_frame_ok bytes written f,
        write_frames_ok frames (written ++ (to_be_bytes (length bytes) ++ bytes)) h,
      )
      (ap ok (append_assoc written (to_be_bytes (length bytes) ++ bytes) (wire frames)))

read_frames_ok :
    (frames : List (List ℕ))
    → All IsFrame frames
    → read_frames (length frames + 1) (record { bytes = wire frames; finish = closed }) ≡ ok frames
unfolding read_frames read_frame read_exact read_after_length
read_frames_ok [] h = refl
read_frames_ok (bytes ∷ frames) (f, h) =
    let one_more : length (bytes ∷ frames) + 1 ≡ suc (length frames + 1) = omega arith in
    rw (one_more, read_frame_ok bytes (wire frames) closed f, read_frames_ok frames h)

-- Frames of 24 bytes to 16 MiB that are written one after another are all written, and a receiver
-- that reads until the stream is closed gets the same frames in the same order.
pub frames_round_trip :
    (frames : List (List ℕ))
    → All IsFrame frames
    → (written : List ℕ) × (write_frames frames [] ≡ ok written)
      × (read_frames (length frames + 1) (record { bytes = written; finish = closed }) ≡ ok frames)
frames_round_trip frames h = (wire frames, write_frames_ok frames [] h, read_frames_ok frames h)

-- A read that is cut short gives no frame.
read_body_short : (e : End) (found : List ℕ × Reader) → read_body (short_read e) ≢ ok (some found)
unfolding read_body
read_body_short closed found h = absurd (ground arith)
read_body_short broken found h = absurd (ground arith)

read_after_length_short :
    (e : End) (found : List ℕ × Reader) → read_after_length (short_read e) ≢ ok (some found)
unfolding read_after_length
read_after_length_short closed found h = absurd (ground arith)
read_after_length_short broken found h = absurd (ground arith)

read_body_sound :
    (n : ℕ) (r : Reader) (bytes : List ℕ) (rest : Reader)
    → read_body (read_exact n r) ≡ ok (some (bytes, rest))
    → (length bytes ≡ n) × (bytes ++ rest.bytes ≡ r.bytes) × (rest.finish ≡ r.finish)
unfolding read_body read_exact
read_body_sound n r bytes rest h = elim (Bool-cases (leb n (length r.bytes))) [
  | inl inside ↦
      let inside_le : n ≤ length r.bytes = ground arith in
      let h' : ok (some (take n r.bytes, record r { bytes = drop n r.bytes }))
          ≡ ok (some (bytes, rest)) =
        rw inside at h in
      let same_bytes : take n r.bytes ≡ bytes = ground arith in
      let same_rest : record r { bytes = drop n r.bytes } ≡ rest = ground arith in
      let left : drop n r.bytes ≡ rest.bytes = ap (λ (x : Reader). x.bytes) same_rest in
      let end : r.finish ≡ rest.finish = ap (λ (x : Reader). x.finish) same_rest in
      let split : bytes ++ rest.bytes ≡ r.bytes =
        rw (← same_bytes, ← left) (take-append-drop n r.bytes) in
      (rw (← same_bytes) (omega (arith, inside_le, length-take n r.bytes)), split, sym end)
  | inr short ↦ absurd (read_body_short r.finish (bytes, rest) (rw short at h))
]

read_after_length_sound :
    (head : List ℕ) (r : Reader) (bytes : List ℕ) (rest : Reader)
    → read_after_length (filled head r) ≡ ok (some (bytes, rest))
    → IsFrame bytes × (bytes ++ rest.bytes ≡ r.bytes) × (rest.finish ≡ r.finish)
unfolding read_after_length
read_after_length_sound head r bytes rest h =
    elim (Bool-cases (ltb max_frame_bytes (from_be_bytes 0 head))) [
      | inl large ↦ absurd (ground arith)
      | inr fits ↦ elim (Bool-cases (ltb (from_be_bytes 0 head) frame_overhead)) [
        | inl small ↦ absurd (ground arith)
        | inr enough ↦
            let h' : read_body (read_exact (from_be_bytes 0 head) r) ≡ ok (some (bytes, rest)) =
              rw (fits, enough) at h in
            let (size, split, finish) = read_body_sound (from_be_bytes 0 head) r bytes rest h' in
            (record { long_enough = ground arith; short_enough = ground arith }, split, finish)
      ]
    ]

-- Whatever the peer sends, a frame that is read has 24 bytes to 16 MiB, and exactly the length
-- field and the frame have been taken from the stream.
pub read_frame_sound :
    (r : Reader) (bytes : List ℕ) (rest : Reader)
    → read_frame r ≡ ok (some (bytes, rest))
    → IsFrame bytes × (take 4 r.bytes ++ (bytes ++ rest.bytes) ≡ r.bytes) × (rest.finish ≡ r.finish)
unfolding read_frame read_exact
read_frame_sound r bytes rest h = elim (Bool-cases (leb 4 (length r.bytes))) [
  | inl inside ↦
      let h' : read_after_length (filled (take 4 r.bytes) (record r { bytes = drop 4 r.bytes }))
          ≡ ok (some (bytes, rest)) =
        rw inside at h in
      let (f, split, finish) =
        read_after_length_sound (take 4 r.bytes) (record r { bytes = drop 4 r.bytes }) bytes rest
          h' in
      (f, ap (λ (t : List ℕ). take 4 r.bytes ++ t) split ∙ take-append-drop 4 r.bytes, finish)
  | inr short ↦ absurd (read_after_length_short r.finish (bytes, rest) (rw short at h))
]
