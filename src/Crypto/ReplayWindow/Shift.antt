-- ===== src/Crypto/ReplayWindow/Shift.antt =====
-- What one bit of the window is after each operation on the words.
use Prim.Native.Nat.{bit_or, max}
use capsi.Base.{
  ℕ, suc, ◌+◌, ◌-◌, ◌*◌, ◌/◌, ◌%◌, ◌^◌, ◌<◌, ◌≡◌, refl, sym, ap, ◌∙◌, inl, inr, true, false, ◌&&◌,
  List, [], ◌∷◌, arith, ltb, leb, ◌==◌, if◌then◌else◌, Bool-cases, length, get_or, All, length-set,
  get_or-set, All-set, All-get_or, get_or-replicate,
}
use capsi.Base.Bits.{
  testbit, testbit-zero, testbit-bit_or, bit_or-lt, testbit-div, testbit-mul_low, testbit-mul,
  testbit-mod, testbit_of_lt,
}
use native.Mathlib.Nat.{le_trans, div-le_self}
use Prim.Native.Nat.{suc-le-suc}
use capsi.Crypto.ReplayWindow.{
  max_replay_window, no_bits, shl, shr, or_at, spread, shift_words, shift_up,
}

-- Bit `n` of the window, counted from the highest counter.
abbrev pub bit_at : List ℕ → ℕ → ℕ
bit_at bitmap n = testbit (get_or bitmap (n / 64) 0) (n % 64)

-- Sixteen words of 64 bits.
pub record IsBitmap (bitmap : List ℕ) : Type 0 where
  pub size : length bitmap ≡ 16
  pub words : All (λ x. x < 2 ^ 64) bitmap

pub word-lt : (bitmap : List ℕ) (i : ℕ) → IsBitmap bitmap → get_or bitmap i 0 < 2 ^ 64
word-lt bitmap i v = All-get_or (λ (x : ℕ). x < 2 ^ 64) bitmap i 0 v.words (omega arith)

pub or_at-IsBitmap :
    (bitmap : List ℕ) (word bits : ℕ)
    → IsBitmap bitmap
    → bits < 2 ^ 64
    → IsBitmap (or_at bitmap word bits)
or_at-IsBitmap bitmap word bits v h = record {
  size = length-set bitmap word _ ∙ v.size;
  words =
      All-set (λ (x : ℕ). x < 2 ^ 64) bitmap word (bit_or (get_or bitmap word 0) bits) v.words
        (bit_or-lt 64 (get_or bitmap word 0) bits (word-lt bitmap word v) h);
}

pub bit_at-or_at :
    (bitmap : List ℕ) (word bits n : ℕ)
    → word < length bitmap
    → bit_at (or_at bitmap word bits) n
      ≡ (if n / 64 == word then max (bit_at bitmap n) (testbit bits (n % 64)) else bit_at bitmap n)
bit_at-or_at bitmap word bits n h = elim (Bool-cases (n / 64 == word)) [
  | inl e ↦
      let same : n / 64 ≡ word = ground arith in
      rw (get_or-set bitmap word (n / 64) (bit_or (get_or bitmap word 0) bits) 0 h, e)
        (testbit-bit_or (get_or bitmap word 0) bits (n % 64)
          ∙ ap (λ (i : ℕ). max (testbit (get_or bitmap i 0) (n % 64)) (testbit bits (n % 64)))
              (sym same))
  | inr e ↦ rw (get_or-set bitmap word (n / 64) (bit_or (get_or bitmap word 0) bits) 0 h, e)
]

pub bit_at-no_bits : (n : ℕ) → bit_at no_bits n ≡ 0
bit_at-no_bits n =
    let zeros = get_or-replicate {A = ℕ} 16 (n / 64) 0 in rw zeros (testbit-zero (n % 64))

-- A shift by less than a word, bit by bit.
pub shl_bit :
    (word s b : ℕ) → b < 64 → testbit (shl word s) b ≡ (if ltb b s then 0 else testbit word (b - s))
shl_bit word s b h = elim (Bool-cases (ltb b s)) [
  | inl low ↦ rw low (testbit-mod 64 (word * 2 ^ s) b h ∙ testbit-mul_low s word b (ground arith))
  | inr high ↦
      let sum : b ≡ s + (b - s) = ground arith in
      let moved : testbit (word * 2 ^ s) b ≡ testbit word (b - s) =
        ap (testbit (word * 2 ^ s)) sum ∙ testbit-mul s word (b - s) in
      rw high (testbit-mod 64 (word * 2 ^ s) b h ∙ moved)
]

shr_bit :
    (word s b : ℕ)
    → 0 < s
    → s < 64
    → word < 2 ^ 64
    → testbit (shr word (64 - s)) b ≡ (if ltb b s then testbit word (64 - s + b) else 0)
shr_bit word s b positive lt h = elim (Bool-cases (ltb b s)) [
  | inl low ↦ rw low (testbit-div (64 - s) word b)
  | inr high ↦
      rw high (testbit-div (64 - s) word b ∙ testbit_of_lt 64 word (64 - s + b) h (ground arith))
]

shl-lt : (word s : ℕ) → shl word s < 2 ^ 64
shl-lt word s = omega arith

shr-lt : (word s : ℕ) → word < 2 ^ 64 → shr word s < 2 ^ 64
shr-lt word s h = le_trans (suc-le-suc (div-le_self word (2 ^ s))) h

-- The bit that word `i` of the old bitmap brings to place `n` of the new one.
abbrev brought : (delta i word n : ℕ) → ℕ
brought delta i word n =
    if leb delta n && ((n - delta) / 64 == i) then testbit word ((n - delta) % 64) else 0

-- The low and the high part together.
parts :
    (delta i word n : ℕ)
    → max
        (if (n / 64 == i + delta / 64) && leb (delta % 64) (n % 64)
          then testbit word (n % 64 - delta % 64)
          else 0)
        (if (n / 64 == i + delta / 64 + 1) && ltb (n % 64) (delta % 64)
          then testbit word (64 - delta % 64 + n % 64)
          else 0)
      ≡ brought delta i word n
parts delta i word n = elim (Bool-cases ((n / 64 == i + delta / 64) && leb (delta % 64) (n % 64))) [
  | inl low ↦
      let reached : leb delta n ≡ true = ground arith in
      let word_here : ((n - delta) / 64 == i) ≡ true = ground arith in
      let bit_here : (n - delta) % 64 ≡ n % 64 - delta % 64 = ground arith in
      let not_high : ((n / 64 == i + delta / 64 + 1) && ltb (n % 64) (delta % 64)) ≡ false =
        ground arith in
      rw (low, not_high, reached, word_here, bit_here) (omega arith)
  | inr not_low ↦ elim (Bool-cases ((n / 64 == i + delta / 64 + 1) && ltb (n % 64) (delta % 64))) [
    | inl high ↦
        let reached : leb delta n ≡ true = ground arith in
        let word_here : ((n - delta) / 64 == i) ≡ true = ground arith in
        let bit_here : (n - delta) % 64 ≡ 64 - delta % 64 + n % 64 = ground arith in
        rw (not_low, high, reached, word_here, bit_here) (omega arith)
    | inr not_high ↦
        let elsewhere : (leb delta n && ((n - delta) / 64 == i)) ≡ false = ground arith in
        rw (not_low, not_high, elsewhere) (omega arith)
  ]
]

module _ (delta i word : ℕ) (out : List ℕ) (v : IsBitmap out) (small : word < 2 ^ 64) where
  abbrev low_out : List ℕ
  low_out =
      if ltb (i + delta / 64) (length out)
      then or_at out (i + delta / 64) (shl word (delta % 64))
      else out

  low_out-IsBitmap : IsBitmap low_out
  low_out-IsBitmap = elim (Bool-cases (ltb (i + delta / 64) (length out))) [
    | inl e ↦
        rw e
          (or_at-IsBitmap out (i + delta / 64) (shl word (delta % 64)) v (shl-lt word (delta % 64)))
    | inr e ↦ rw e v
  ]

  bit_at-low_out :
      (n : ℕ)
      → n < 1024
      → bit_at low_out n
        ≡ max (bit_at out n) (
            if (n / 64 == i + delta / 64) && leb (delta % 64) (n % 64)
            then testbit word (n % 64 - delta % 64)
            else 0)
  bit_at-low_out n h = elim (Bool-cases (ltb (i + delta / 64) (length out))) [
    | inl e ↦
        let written = bit_at-or_at out (i + delta / 64) (shl word (delta % 64)) n (ground arith) in
        rw (e, written) (ground (arith, shl_bit word (delta % 64) (n % 64)))
    | inr e ↦ rw e (ground (arith, v.size))
  ]

  -- The low and the high part of one word fall where the shift by `delta` puts its bits.
  spread-IsBitmap : IsBitmap (spread (delta / 64) (delta % 64) i word out)
  unfolding spread
  spread-IsBitmap =
      elim (Bool-cases (ltb 0 (delta % 64) && ltb (i + delta / 64 + 1) (length low_out))) [
        | inl e ↦ rw e (
            or_at-IsBitmap low_out (i + delta / 64 + 1) (shr word (64 - delta % 64))
              low_out-IsBitmap (shr-lt word (64 - delta % 64) small))
        | inr e ↦ rw e low_out-IsBitmap
      ]

  high_bit :
      (n : ℕ)
      → n < 1024
      → bit_at (spread (delta / 64) (delta % 64) i word out) n
        ≡ max (bit_at low_out n) (
            if (n / 64 == i + delta / 64 + 1) && ltb (n % 64) (delta % 64)
            then testbit word (64 - delta % 64 + n % 64)
            else 0)
  unfolding spread
  high_bit n h =
      elim (Bool-cases (ltb 0 (delta % 64) && ltb (i + delta / 64 + 1) (length low_out))) [
        | inl e ↦
            let there : i + delta / 64 + 1 < length low_out = ground arith in
            let written =
              bit_at-or_at low_out (i + delta / 64 + 1) (shr word (64 - delta % 64)) n there in
            rw (e, written) (ground (arith, shr_bit word (delta % 64) (n % 64)))
        | inr e ↦ rw e (ground (arith, low_out-IsBitmap.size))
      ]

  bit_at-spread :
      (n : ℕ)
      → n < 1024
      → bit_at (spread (delta / 64) (delta % 64) i word out) n
        ≡ max (bit_at out n) (brought delta i word n)
  bit_at-spread n h = rw (high_bit n h, bit_at-low_out n h) (ground (arith, parts delta i word n))

-- A word of zeros brings nothing.
brought-zero : (delta i n : ℕ) → brought delta i 0 n ≡ 0
brought-zero delta i n = ground (arith, testbit-zero ((n - delta) % 64))

-- The bit that the words from index `i` on bring to place `n`.
abbrev brought_by : (delta i : ℕ) (old : List ℕ) (n : ℕ) → ℕ
brought_by delta i old n =
    if leb delta n && leb i ((n - delta) / 64)
    then testbit (get_or old ((n - delta) / 64 - i) 0) ((n - delta) % 64)
    else 0

brought_by-nil : (delta i n : ℕ) → brought_by delta i [] n ≡ 0
brought_by-nil delta i n = ground (arith, testbit-zero ((n - delta) % 64))

brought_by-cons :
    (delta i word : ℕ) (old : List ℕ) (n : ℕ)
    → brought_by delta i (word ∷ old) n
      ≡ max (brought delta i word n) (brought_by delta (i + 1) old n)
brought_by-cons delta i word old n = elim (Bool-cases (leb delta n)) [
  | inr below ↦ rw below (omega arith)
  | inl reached ↦ elim (Bool-cases ((n - delta) / 64 == i)) [
    | inl here ↦
        let first : (n - delta) / 64 - i ≡ 0 = ground arith in
        let up : leb i ((n - delta) / 64) ≡ true = ground arith in
        let past : leb (i + 1) ((n - delta) / 64) ≡ false = ground arith in
        rw (reached, here, first, up, past) (omega arith)
    | inr elsewhere ↦ elim (Bool-cases (leb (i + 1) ((n - delta) / 64))) [
      | inl later ↦
          let step : (n - delta) / 64 - i ≡ suc ((n - delta) / 64 - (i + 1)) = ground arith in
          let up : leb i ((n - delta) / 64) ≡ true = ground arith in
          rw (reached, elsewhere, later, step, up) (omega arith)
      | inr earlier ↦
          let under : leb i ((n - delta) / 64) ≡ false = ground arith in
          rw (reached, elsewhere, earlier, under) (omega arith)
    ]
  ]
]

shift_words_lem :
    (delta i : ℕ) (old out : List ℕ)
    → All (λ x. x < 2 ^ 64) old
    → IsBitmap out
    → let new = shift_words (delta / 64) (delta % 64) i old out in
      IsBitmap new
      × ((n : ℕ) → n < 1024 → bit_at new n ≡ max (bit_at out n) (brought_by delta i old n))
unfolding shift_words
shift_words_lem delta i [] out h v = (v, λ n lt. rw brought_by-nil (omega arith))
shift_words_lem delta i (word ∷ old) out (small, h) v = elim (Bool-cases (word == 0)) [
  | inl e ↦
      let (v', bits) = shift_words_lem delta (i + 1) old out h v in
      let nothing : word ≡ 0 = ground arith in
      rw (shift_words, e)
        (
          v',
          λ n lt.
              rw (bits n lt, brought_by-cons delta i word old n, nothing, brought-zero delta i n)
                (omega arith),
        )
  | inr e ↦
      let out' = spread (delta / 64) (delta % 64) i word out in
      let (v', bits) =
        shift_words_lem delta (i + 1) old out' h (spread-IsBitmap delta i word out v small) in
      rw (shift_words, e)
        (
          v',
          λ n lt.
              rw
                (
                  bits n lt,
                  bit_at-spread delta i word out v small n lt,
                  brought_by-cons delta i word old n,
                )
                (omega arith),
        )
]

pub no_bits-IsBitmap : IsBitmap no_bits
no_bits-IsBitmap = record { size = refl; words = omega arith }

-- `shift_up` moves every bit by `delta` places, and drops the bits that leave the window.
pub shift_up_lem :
    (delta : ℕ) (bitmap : List ℕ)
    → IsBitmap bitmap
    → IsBitmap (shift_up delta bitmap)
      × ((n : ℕ)
          → n < 1024
          → bit_at (shift_up delta bitmap) n
            ≡ (if ltb n delta then 0 else bit_at bitmap (n - delta)))
unfolding shift_up
shift_up_lem delta bitmap v = elim (Bool-cases (leb max_replay_window delta)) [
  | inl far ↦
      rw (shift_up, far)
        (
          no_bits-IsBitmap,
          λ n lt. let low : ltb n delta ≡ true = ground arith in rw (low, bit_at-no_bits n),
        )
  | inr near ↦
      let (v', bits) = shift_words_lem delta 0 bitmap no_bits v.words no_bits-IsBitmap in
      rw (shift_up, near) (v', λ n lt. rw (bits n lt, bit_at-no_bits n) (ground arith))
]
