-- ===== src/Crypto/ReplayWindow/Refinement.antt =====
-- `ReplayWindow` against what it promises: a record of every counter that has passed.
use Prim.Native.Nat.{bit_and}
use native.Mathlib.Nat.{pow-le-pow_right}
use capsi.Base.{
  ℕ, ◌+◌, ◌-◌, ◌*◌, ◌/◌, ◌%◌, ◌^◌, ◌≤◌, ◌<◌, ◌≡◌, refl, sym, ap, ◌∙◌, inl, inr, Bool, true, false,
  not, ◌&&◌, ◌||◌, List, [], ◌∷◌, arith, ltb, leb, ◌==◌, if◌then◌else◌, Bool-cases, length, get_or,
  all,
}
use capsi.Base.Bits.{testbit, testbit-le_one, bit_and-pow, testbit-pow, testbit-cases}
use capsi.Crypto.ReplayWindow.{
  max_replay_window, ReplayWindow, no_bits, empty_window, shl, bit_set, set_bit, shift_up, accept,
}
use capsi.Crypto.ReplayWindow.Shift.{
  bit_at, IsBitmap, or_at-IsBitmap, bit_at-or_at, bit_at-no_bits, shl_bit, no_bits-IsBitmap,
  shift_up_lem,
}

-- `1 << bit` read back.
testbit-one : (k : ℕ) → testbit 1 k ≡ (if k == 0 then 1 else 0)
testbit-one k = testbit-pow 0 k

testbit-shl_one : (bit k : ℕ) → k < 64 → testbit (shl 1 bit) k ≡ (if k == bit then 1 else 0)
testbit-shl_one bit k h = rw (shl_bit 1 bit k h) (ground (arith, testbit-one (k - bit)))

shl_one-eq : (bit : ℕ) → bit < 64 → shl 1 bit ≡ 2 ^ bit
shl_one-eq bit h =
    let small : 2 ^ bit ≤ 2 ^ 63 =
      pow-le-pow_right (omega arith) {i = bit} {j = 63} (omega arith) in
    omega arith

bit_set_lem :
    (bitmap : List ℕ) (n : ℕ)
    → IsBitmap bitmap
    → n < 1024
    → bit_set bitmap n ≡ (bit_at bitmap n == 1)
unfolding bit_set
bit_set_lem bitmap n v h =
    let bit_lt : n % 64 < 64 = omega arith in
    let masked : bit_and (get_or bitmap (n / 64) 0) (shl 1 (n % 64))
        ≡ bit_at bitmap n * 2 ^ (n % 64) =
      rw (shl_one-eq (n % 64) bit_lt) (bit_and-pow (get_or bitmap (n / 64) 0) (n % 64)) in
    let positive : 1 ≤ 2 ^ (n % 64) =
      pow-le-pow_right (omega arith) {i = 0} {j = n % 64} (omega arith) in
    elim (testbit-cases (get_or bitmap (n / 64) 0) (n % 64)) [
      | inl zeros ↦ rw (masked, zeros) (ground arith)
      | inr ones ↦ rw (masked, ones) (ground (arith, v.size))
    ]

set_bit_lem :
    (offset : ℕ) (bitmap : List ℕ)
    → IsBitmap bitmap
    → offset < 1024
    → IsBitmap (set_bit offset bitmap)
      × ((n : ℕ)
          → n < 1024
          → bit_at (set_bit offset bitmap) n ≡ (if n == offset then 1 else bit_at bitmap n))
unfolding set_bit
set_bit_lem offset bitmap v h =
    let inside : ltb (offset / 64) (length bitmap) ≡ true = ground (arith, v.size) in
    rw inside (
      or_at-IsBitmap bitmap (offset / 64) (shl 1 (offset % 64)) v (omega arith),
      λ n lt.
          rw
            (
              bit_at-or_at bitmap (offset / 64) (shl 1 (offset % 64)) n (ground arith),
              testbit-shl_one (offset % 64) (n % 64) (omega arith),
            )
            (ground (arith, testbit-le_one (get_or bitmap (n / 64) 0) (n % 64))),
    )

-- Whether a counter is in a record of counters.
abbrev pub has_passed : ℕ → List ℕ → Bool
has_passed counter [] = false
has_passed counter (c ∷ seen) = (c == counter) || has_passed counter seen

-- No recorded counter lies 1024 or more in front of this one.
abbrev pub is_recent : ℕ → List ℕ → Bool
is_recent counter seen = all (λ (c : ℕ). ltb c (counter + max_replay_window)) seen

-- The window remembers the counters of the record, newest first.
pub record Remembers (w : ReplayWindow) (seen : List ℕ) : Type 0 where
  pub valid : IsBitmap w.bitmap
  pub untouched : w.started ≡ false → seen ≡ []
  pub newest : w.started ≡ true → has_passed w.highest seen ≡ true
  pub top : (c : ℕ) → has_passed c seen ≡ true → c ≤ w.highest
  pub bits :
      w.started ≡ true
      → (n : ℕ) → n < 1024
      → n ≤ w.highest
      → bit_at w.bitmap n ≡ (if has_passed (w.highest - n) seen then 1 else 0)

is_recent_of_le :
    (counter highest : ℕ) (seen : List ℕ)
    → ((c : ℕ) → has_passed c seen ≡ true → c ≤ highest)
    → highest < counter + 1024
    → is_recent counter seen ≡ true
is_recent_of_le counter highest [] top h = refl
is_recent_of_le counter highest (c ∷ seen) top h =
    let bound : c ≤ highest = top c (ground arith) in
    let ih = is_recent_of_le counter highest seen (λ d e. top d (ground arith)) h in ground arith

not_recent :
    (counter c : ℕ) (seen : List ℕ)
    → has_passed c seen ≡ true
    → counter + 1024 ≤ c
    → is_recent counter seen ≡ false
not_recent counter c [] e h = absurd (ground arith)
not_recent counter c (d ∷ seen) e h = elim (Bool-cases (d == c)) [
  | inl same ↦ ground arith
  | inr other ↦ let ih = not_recent counter c seen (ground arith) h in ground arith
]

Remembers-first :
    (counter : ℕ)
    → Remembers
        (record { highest = counter; bitmap = set_bit 0 no_bits; started = true })
        (counter ∷ [])
Remembers-first counter =
    let (v', bits) = set_bit_lem 0 no_bits no_bits-IsBitmap (omega arith) in
    record {
      valid = v';
      untouched = λ e. absurd (ground arith);
      newest = λ _. ground arith;
      top = λ c e. ground arith;
      bits = λ _ n lt le. rw (bits n lt, bit_at-no_bits n) (ground arith);
    }

Remembers-newer :
    (counter : ℕ) (w : ReplayWindow) (seen : List ℕ)
    → Remembers w seen
    → w.started ≡ true
    → w.highest < counter
    → Remembers
        (record {
          highest = counter;
          bitmap = set_bit 0 (shift_up (counter - w.highest) w.bitmap);
          started = true;
        })
        (counter ∷ seen)
Remembers-newer counter w seen r started newer =
    let delta = counter - w.highest in
    let (v', moved) = shift_up_lem (counter - w.highest) w.bitmap r.valid in
    let (v'', bits) = set_bit_lem 0 (shift_up (counter - w.highest) w.bitmap) v' (omega arith) in
    record {
      valid = v'';
      untouched = λ e. absurd (ground arith);
      newest = λ _. ground arith;
      top = λ c e. let below : has_passed c seen ≡ true → c ≤ w.highest = r.top c in ground arith;
      bits = λ _ n lt le. rw (bits n lt, moved n lt) (newer_bit n lt le);
    }
  where
    newer_bit :
        (n : ℕ)
        → n < 1024
        → n ≤ counter
        → (if n == 0
            then 1
            else if ltb n (counter - w.highest)
            then 0
            else bit_at w.bitmap (n - (counter - w.highest)))
          ≡ (if (counter == counter - n) || has_passed (counter - n) seen then 1 else 0)
    newer_bit n lt le = elim (Bool-cases (ltb n (counter - w.highest))) [
      | inl fresh ↦
          let beyond : has_passed (counter - n) seen ≡ true → counter - n ≤ w.highest =
            r.top (counter - n) in
          ground arith
      | inr reached ↦
          let same : w.highest - (n - (counter - w.highest)) ≡ counter - n = ground arith in
          let old : bit_at w.bitmap (n - (counter - w.highest))
              ≡ (if has_passed (counter - n) seen then 1 else 0) =
            rw (← same) (r.bits started (n - (counter - w.highest)) (omega arith) (ground arith)) in
          ground arith
    ]

Remembers-older :
    (counter : ℕ) (w : ReplayWindow) (seen : List ℕ)
    → Remembers w seen
    → w.started ≡ true
    → counter ≤ w.highest
    → w.highest - counter < 1024
    → Remembers
        (record {
          highest = w.highest;
          bitmap = set_bit (w.highest - counter) w.bitmap;
          started = true;
        })
        (counter ∷ seen)
Remembers-older counter w seen r started older near =
    let (v', bits) = set_bit_lem (w.highest - counter) w.bitmap r.valid near in
    record {
      valid = v';
      untouched = λ e. absurd (ground arith);
      newest = λ e. let old = r.newest started in ground arith;
      top = λ c e. let below : has_passed c seen ≡ true → c ≤ w.highest = r.top c in ground arith;
      bits = λ _ n lt le. let old = r.bits started n lt le in rw (bits n lt, old) (ground arith);
    }

-- A window in step with the record of all counters that have passed lets a counter pass exactly
-- when it is not on the record and no counter on the record is 1024 or more in front of it, and it
-- stays in step with the record, which then has the counter when it has passed.
pub accept_lem :
    (counter : ℕ) (w : ReplayWindow) (seen : List ℕ)
    → Remembers w seen
    → let (w', passed) = accept counter w in
      (passed ≡ not (has_passed counter seen) && is_recent counter seen)
      × Remembers w' (if passed then counter ∷ seen else seen)
unfolding accept
accept_lem counter w seen r = elim (Bool-cases w.started) [
  | inr fresh ↦
      let nothing : seen ≡ [] = r.untouched fresh in
      rw (fresh, nothing) (refl, Remembers-first counter)
  | inl started ↦
      let same : record w { started = true } ≡ w =
        ap (λ (b : Bool). record w { started = b }) (sym started) in
      let kept : Remembers (record w { started = true }) seen = rw same r in
      elim (Bool-cases (ltb w.highest counter)) [
        | inl newer ↦
            let unseen : has_passed counter seen ≡ true → counter ≤ w.highest = r.top counter in
            let recent = is_recent_of_le counter w.highest seen r.top (ground arith) in
            rw (started, newer)
              (ground arith, Remembers-newer counter w seen r started (ground arith))
        | inr older ↦ elim (Bool-cases (leb max_replay_window (w.highest - counter))) [
          | inl far ↦
              let late = not_recent counter w.highest seen (r.newest started) (ground arith) in
              rw (started, older, far) (ground arith, kept)
          | inr near ↦
              let recent = is_recent_of_le counter w.highest seen r.top (ground arith) in
              let back : w.highest - (w.highest - counter) ≡ counter = ground arith in
              let read : bit_at w.bitmap (w.highest - counter)
                  ≡ (if has_passed counter seen then 1 else 0) =
                r.bits started (w.highest - counter) (ground arith) (omega arith)
                ∙ ap (λ (n : ℕ). if has_passed n seen then 1 else 0) back in
              let bit = bit_set_lem w.bitmap (w.highest - counter) r.valid (ground arith) in
              elim (Bool-cases (has_passed counter seen)) [
                | inl replayed ↦ rw (started, older, near, bit, read, replayed) (refl, kept)
                | inr unseen ↦
                    rw (started, older, near, bit, read, unseen, recent)
                      (refl, Remembers-older counter w seen r started (ground arith) (ground arith))
              ]
        ]
      ]
]

-- The window and the counters that passed after a sequence of counters, all newest first.
unfoldable pub accept_all : List ℕ → ReplayWindow → ReplayWindow × List ℕ
accept_all [] w = (w, [])
accept_all (c ∷ counters) w =
    let (w', passed) = accept_all counters w in
    let (w'', pass) = accept c w' in (w'', if pass then c ∷ passed else passed)

-- No counter stands twice.
abbrev pub IsWithoutReplay : List ℕ → Type 0
IsWithoutReplay [] = Unit
IsWithoutReplay (c ∷ seen) = (has_passed c seen ≡ false) × IsWithoutReplay seen

pub Remembers-empty : Remembers empty_window []
Remembers-empty = record {
  valid = no_bits-IsBitmap;
  untouched = λ _. refl;
  newest = λ e. absurd (ground arith);
  top = λ c e. absurd (ground arith);
  bits = λ e. absurd (ground arith);
}

accept_all-Remembers :
    (counters : List ℕ)
    → let (w, passed) = accept_all counters empty_window in
      Remembers w passed × IsWithoutReplay passed
unfolding accept_all
accept_all-Remembers [] = (Remembers-empty, tt)
accept_all-Remembers (c ∷ counters) =
    let (r, unique) = accept_all-Remembers counters in
    let w = (accept_all counters empty_window).0 in
    let seen = (accept_all counters empty_window).1 in
    let (decision, r') = accept_lem c w seen r in
    elim (Bool-cases ((accept c w).1)) [
      | inl passed ↦ rw passed (let r'' = rw passed at r' in (r'', (ground arith, unique)))
      | inr dropped ↦ rw dropped (let r'' = rw dropped at r' in (r'', unique))
    ]

-- However the counters of the frames come, in any order and with any repetitions, no counter
-- passes a window twice.
pub no_replay : (counters : List ℕ) → IsWithoutReplay ((accept_all counters empty_window).1)
no_replay counters = (accept_all-Remembers counters).1
