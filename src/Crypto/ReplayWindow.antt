-- ===== src/Crypto/ReplayWindow.antt =====
-- `ReplayWindow` of crypto/session.rs: 16 words of 64 bits behind the highest counter.
mod Shift
pub mod Refinement
mod Samples
use Prim.Native.Nat.{bit_and, bit_or}
use capsi.Base.{
  ℕ, ◌+◌, ◌-◌, ◌*◌, ◌/◌, ◌%◌, ◌^◌, Bool, true, false, not, ◌&&◌, ◌||◌, List, [], ◌∷◌, ltb, leb,
  ◌==◌, if◌then◌else◌, length, replicate, get_or, set,
}

-- `MAX_REPLAY_WINDOW`.
abbrev pub max_replay_window : ℕ
max_replay_window = 1024

pub record ReplayWindow : Type 0 where
  pub highest : ℕ
  pub bitmap : List ℕ
  pub started : Bool

abbrev pub no_bits : List ℕ
no_bits = replicate 16 0

-- `ReplayWindow::default()`.
abbrev pub empty_window : ReplayWindow
empty_window = record { highest = 0; bitmap = no_bits; started = false }

-- `word << s` and `word >> s` on `u64`.
abbrev pub shl : ℕ → ℕ → ℕ
shl word s = (word * 2 ^ s) % 2 ^ 64

abbrev pub shr : ℕ → ℕ → ℕ
shr word s = word / 2 ^ s

-- `bitmap[word] |= bits`.
abbrev pub or_at : List ℕ → ℕ → ℕ → List ℕ
or_at bitmap word bits = set bitmap word (bit_or (get_or bitmap word 0) bits)

unfoldable pub bit_set : List ℕ → (offset : ℕ) → Bool
bit_set bitmap offset =
    let word = offset / 64 in
    let bit = offset % 64 in
    ltb word (length bitmap) && not (bit_and (get_or bitmap word 0) (shl 1 bit) == 0)

unfoldable pub set_bit : (offset : ℕ) → List ℕ → List ℕ
set_bit offset bitmap =
    let word = offset / 64 in
    let bit = offset % 64 in
    if ltb word (length bitmap) then or_at bitmap word (shl 1 bit) else bitmap

-- The body of the loop of `shift_up` at a word that is not zero.
unfoldable pub spread : (word_shift bit_shift i word : ℕ) → List ℕ → List ℕ
spread word_shift bit_shift i word out =
    let target = i + word_shift in
    let out = if ltb target (length out) then or_at out target (shl word bit_shift) else out in
    if ltb 0 bit_shift && ltb (target + 1) (length out)
    then or_at out (target + 1) (shr word (64 - bit_shift))
    else out

-- The loop of `shift_up` from the word with index `i` on.
unfoldable pub shift_words : (word_shift bit_shift i : ℕ) (old out : List ℕ) → List ℕ
unfolding spread
shift_words word_shift bit_shift i [] out = out
shift_words word_shift bit_shift i (word ∷ old) out =
    shift_words word_shift bit_shift (i + 1) old
      (if word == 0 then out else spread word_shift bit_shift i word out)

unfoldable pub shift_up : (delta : ℕ) → List ℕ → List ℕ
unfolding shift_words
shift_up delta bitmap =
    if leb max_replay_window delta
    then no_bits
    else shift_words (delta / 64) (delta % 64) 0 bitmap no_bits

-- The window after a counter, and whether the frame may pass.
unfoldable pub accept : (counter : ℕ) → ReplayWindow → ReplayWindow × Bool
unfolding set_bit shift_up bit_set
accept counter w =
    if not w.started
    then (record { highest = counter; bitmap = set_bit 0 no_bits; started = true }, true)
    else if ltb w.highest counter
    then (
      record w { highest = counter; bitmap = set_bit 0 (shift_up (counter - w.highest) w.bitmap) },
      true,
    )
    else let offset = w.highest - counter in
      if leb max_replay_window offset || bit_set w.bitmap offset
      then (w, false)
      else (record w { bitmap = set_bit offset w.bitmap }, true)
