-- ===== src/Crypto/Session/Channel.antt =====
-- The sealed channel: which frames pass, and a sequence of messages that arrives in order.
use capsi.Base.{
  ℕ, ◌+◌, ◌*◌, ◌/◌, ◌%◌, ◌^◌, ◌≤◌, ◌<◌, ◌≡◌, refl, sym, ap, ◌∙◌, inl, inr, Bool, true, false, not,
  ◌&&◌, some, List, [], ◌∷◌, ◌++◌, map, arith, ltb, if◌then◌else◌, Bool-cases, Option-cases, length,
  take, drop, all, All, Result, ok, err, guard, ok_or, ◌>>=◌, ◌>>◌,
}
use capsi.Identity.Keys.{Primitives}
use capsi.Protocol.Framing.{frame_overhead, to_be_bytes, from_be_bytes}
use capsi.Crypto.ReplayWindow.{ReplayWindow, accept}
use capsi.Crypto.ReplayWindow.Refinement.{has_passed, is_recent, Remembers, accept_lem}
use capsi.Crypto.Session.{
  Session, SessionError, too_short, not_authentic, replayed, counter_bytes, nonce_for, admitted,
  sent, seal, open_frame,
}

-- What the documentation of the cipher says of messages below 4 GiB.
abbrev pub IsSealing : Primitives → Type 0
IsSealing p =
    (key nonce aad message : List ℕ)
    → length message < 2 ^ 32
    → (sealed : List ℕ) × (p.encrypt key nonce aad message ≡ some sealed)
      × (length sealed ≡ length message + 16)
      × (p.decrypt key nonce aad sealed ≡ some message)

-- The counter in front of a frame.
abbrev pub counter_of : (frame : List ℕ) → ℕ
counter_of frame = from_be_bytes 0 (take 8 frame)

-- The message of a frame, if it is long enough and authentic.
abbrev pub authentic : Primitives → (frame : List ℕ) (s : Session) → Result SessionError (List ℕ)
authentic p frame s =
    if ltb (length frame) frame_overhead
    then err (too_short (length frame))
    else ok_or
        (p.decrypt s.receive_cipher (nonce_for s.salt (counter_of frame)) (take 8 frame)
          (drop 8 frame))
        not_authentic

-- What is to come of a frame when these counters have passed.
abbrev pub verdict :
    Primitives → (frame : List ℕ) (seen : List ℕ) (s : Session) → Result SessionError (List ℕ)
verdict p frame seen s = do
  message ← authentic p frame s
  guard (not (has_passed (counter_of frame) seen) && is_recent (counter_of frame) seen)
      (replayed (counter_of frame))
  ok message

-- The counters that have passed after that.
abbrev pub kept_record : (frame seen : List ℕ) → Result SessionError (List ℕ) → List ℕ
kept_record frame seen (ok m) = counter_of frame ∷ seen
kept_record frame seen (err e) = seen

admitted_lem :
    (frame m : List ℕ) (s : Session) (seen : List ℕ) (answer : ReplayWindow × Bool)
    → answer.1 ≡ (not (has_passed (counter_of frame) seen) && is_recent (counter_of frame) seen)
    → Remembers answer.0 (if answer.1 then counter_of frame ∷ seen else seen)
    → let (after, result) = admitted (counter_of frame) m s answer in
      (result ≡ (
        guard
          (not (has_passed (counter_of frame) seen) && is_recent (counter_of frame) seen)
          (replayed (counter_of frame))
        >> ok m))
      × Remembers after.replay (kept_record frame seen result)
      × (after ≡ record s { replay = after.replay })
admitted_lem frame m s seen (replay, true) e r = rw (sym e) (refl, r, refl)
admitted_lem frame m s seen (replay, false) e r = rw (sym e) (refl, r, refl)

-- On a session whose window is in step with the counters that have passed, a frame opens exactly
-- when it is long enough, authentic, not on the record and not 1024 or more behind it; any other
-- frame is refused with the error of the first test that fails. The window stays in step with the
-- record, to which only a frame that opens is added, and nothing else of the session changes.
pub open_frame-verdict :
    (p : Primitives) (frame : List ℕ) (s : Session) (seen : List ℕ)
    → Remembers s.replay seen
    → let (after, result) = open_frame p frame s in
      (result ≡ verdict p frame seen s)
      × Remembers after.replay (kept_record frame seen result)
      × (after ≡ record s { replay = after.replay })
unfolding open_frame
open_frame-verdict p frame s seen r = elim (Bool-cases (ltb (length frame) frame_overhead)) [
  | inl short ↦ rw short (refl, r, refl)
  | inr long ↦
      let opened =
        p.decrypt s.receive_cipher (nonce_for s.salt (counter_of frame)) (take 8 frame)
          (drop 8 frame) in
      elim (Option-cases opened) [
        | inl forged ↦ rw (long, forged) (refl, r, refl)
        | inr (m, e) ↦
            let passes = accept_lem (counter_of frame) s.replay seen r in
            rw (long, e)
              (admitted_lem frame m s seen (accept (counter_of frame) s.replay) passes.0 passes.1)
      ]
]

be_bytes_step : (high n : ℕ) → n < 2 ^ 32 → from_be_bytes high (to_be_bytes n) ≡ high * 2 ^ 32 + n
be_bytes_step high n h = omega arith

counter_of-counter_bytes :
    (c : ℕ) (sealed : List ℕ) → c < 2 ^ 64 → counter_of (counter_bytes c ++ sealed) ≡ c
unfolding counter_bytes
counter_of-counter_bytes c sealed h =
    let upper : from_be_bytes 0 (to_be_bytes (c / 2 ^ 32)) ≡ c / 2 ^ 32 =
      be_bytes_step 0 (c / 2 ^ 32) (omega arith) ∙ omega arith in
    let lower = be_bytes_step (c / 2 ^ 32) (c % 2 ^ 32) (omega arith) in
    ap (λ (t : ℕ). from_be_bytes t (to_be_bytes (c % 2 ^ 32))) upper ∙ (lower ∙ omega arith)

header_of :
    (c : ℕ) (sealed : List ℕ)
    → (take 8 (counter_bytes c ++ sealed) ≡ counter_bytes c)
      × (drop 8 (counter_bytes c ++ sealed) ≡ sealed)
      × (length (counter_bytes c ++ sealed) ≡ 8 + length sealed)
unfolding counter_bytes
header_of c sealed = (refl, refl, omega arith)

authentic-counter_bytes :
    (p : Primitives) (c : ℕ) (sealed m : List ℕ) (s : Session)
    → c < 2 ^ 64
    → 16 ≤ length sealed
    → p.decrypt s.receive_cipher (nonce_for s.salt c) (counter_bytes c) sealed ≡ some m
    → authentic p (counter_bytes c ++ sealed) s ≡ ok m
authentic-counter_bytes p c sealed m s h long e =
    let (head, tail, size) = header_of c sealed in
    let enough : ltb (length (counter_bytes c ++ sealed)) frame_overhead ≡ false =
      ground (arith, size) in
    rw (enough, counter_of-counter_bytes c sealed h, head, tail, e) refl

-- A frame in front of the others, and the sealing of the others after it.
abbrev with_frame :
    List ℕ → Result SessionError (List (List ℕ)) → Result SessionError (List (List ℕ))
with_frame frame (err e) = err e
with_frame frame (ok frames) = ok (frame ∷ frames)

abbrev seal_rest :
    Session × Result SessionError (List ℕ)
    → (Session → Session × Result SessionError (List (List ℕ)))
    → Session × Result SessionError (List (List ℕ))
seal_rest (s, err e) rest = (s, err e)
seal_rest (s, ok frame) rest = ((rest s).0, with_frame frame (rest s).1)

-- `seal` for each message, up to the first failure.
unfoldable pub seal_all :
    Primitives
    → (messages : List (List ℕ)) → Session
    → Session × Result SessionError (List (List ℕ))
seal_all p [] s = (s, ok [])
seal_all p (m ∷ messages) s = seal_rest (seal p m s) (λ s'. seal_all p messages s')

-- `open` for each frame.
unfoldable pub open_all :
    Primitives → (frames : List (List ℕ)) → Session → List (Result SessionError (List ℕ))
open_all p [] s = []
open_all p (f ∷ frames) s = let (s', result) = open_frame p f s in result ∷ open_all p frames s'

-- The receiving end of a sender's direction, on which only counters of the past have passed.
pub record IsPaired (sender receiver : Session) (seen : List ℕ) : Type 0 where
  pub key : sender.send_cipher ≡ receiver.receive_cipher
  pub salt : sender.salt ≡ receiver.salt
  pub remembers : Remembers receiver.replay seen
  pub past : all (λ (c : ℕ). ltb c sender.send_counter) seen ≡ true

unused_counter :
    (n : ℕ) (seen : List ℕ)
    → all (λ (c : ℕ). ltb c n) seen ≡ true
    → (has_passed n seen ≡ false) × (is_recent n seen ≡ true)
unused_counter n [] h = (refl, refl)
unused_counter n (c ∷ seen) h =
    let (fresh, recent) = unused_counter n seen (ground arith) in (ground arith, ground arith)

later_counter :
    (n : ℕ) (seen : List ℕ)
    → all (λ (c : ℕ). ltb c n) seen ≡ true
    → all (λ (c : ℕ). ltb c (n + 1)) seen ≡ true
later_counter n [] h = refl
later_counter n (c ∷ seen) h = let ih = later_counter n seen (ground arith) in ground arith

module _ (p : Primitives) (sealing : IsSealing p) where
  -- One message over the channel.
  one_message :
      (m : List ℕ) (sender receiver : Session) (seen : List ℕ)
      → IsPaired sender receiver seen
      → sender.send_counter + 1 < 2 ^ 64
      → length m < 2 ^ 32
      → (frame : List ℕ) × (seal p m sender
          ≡ (record sender { send_counter = sender.send_counter + 1 }, ok frame))
        × ((open_frame p frame receiver).1 ≡ ok m)
        × IsPaired
            (record sender { send_counter = sender.send_counter + 1 })
            ((open_frame p frame receiver).0)
            (sender.send_counter ∷ seen)
  unfolding seal
  one_message m sender receiver seen h room small =
      let c = sender.send_counter in
      let (sealed, e, size, opens) =
        sealing sender.send_cipher (nonce_for sender.salt c) (counter_bytes c) m small in
      let frame = counter_bytes c ++ sealed in
      let counter = counter_of-counter_bytes c sealed (omega arith) in
      let (unused, recent) = unused_counter c seen h.past in
      let message : authentic p frame receiver ≡ ok m =
        authentic-counter_bytes p c sealed m receiver (omega arith) (omega (arith, size))
          (rw (sym h.key, sym h.salt) opens) in
      let (result, after, same) = open_frame-verdict p frame receiver seen h.remembers in
      let opened : (open_frame p frame receiver).1 ≡ ok m =
        result ∙ rw (message, counter, unused, recent) refl in
      let next : (c + 1) % 2 ^ 64 ≡ c + 1 = omega arith in
      (
        frame,
        ap (sent (counter_bytes c) sender) e ∙ rw next refl,
        opened,
        record {
          key = h.key ∙ sym (ap (λ (r : Session). r.receive_cipher) same);
          salt = h.salt ∙ sym (ap (λ (r : Session). r.salt) same);
          remembers = rw (opened, counter) at after;
          past = let older = later_counter c seen h.past in ground arith;
        },
      )

  -- When the cipher opens what it has sealed, as its documentation says: between paired
  -- sessions, as long as the counter stays below 2^64, messages below 4 GiB can all be sealed,
  -- and their frames open in the order they were sealed to exactly these messages.
  pub open_all-seal_all :
      (messages : List (List ℕ)) (sender receiver : Session) (seen : List ℕ)
      → IsPaired sender receiver seen
      → sender.send_counter + length messages < 2 ^ 64
      → All (λ (m : List ℕ). length m < 2 ^ 32) messages
      → (frames : List (List ℕ)) × ((seal_all p messages sender).1 ≡ ok frames)
        × (open_all p frames receiver ≡ map (λ (m : List ℕ). ok m) messages)
  unfolding seal_all open_all
  open_all-seal_all [] sender receiver seen h room small = ([], refl, refl)
  open_all-seal_all (m ∷ messages) sender receiver seen h room (hm, hs) =
      let (frame, sealed, opened, next) = one_message m sender receiver seen h (omega arith) hm in
      let (frames, all_sealed, all_opened) =
        open_all-seal_all messages (record sender { send_counter = sender.send_counter + 1 })
          ((open_frame p frame receiver).0) (sender.send_counter ∷ seen) next (omega arith) hs in
      (frame ∷ frames, rw (sealed, all_sealed) refl, rw (opened, all_opened) refl)
