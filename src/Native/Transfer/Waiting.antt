-- ===== src/Native/Transfer/Waiting.antt =====
-- The wait for the receipt of an offer ends.
use capsi.Base.{
  ℕ, zero, suc, ◌+◌, ◌*◌, ◌/◌, ◌≤◌, ◌<◌, ◌≡◌, refl, inl, inr, Option, none, some, arith, leb, ◌==◌,
  if◌then◌else◌, Bool-cases, Option-cases, Result, ok, err,
}
use capsi.Storage.Conversation.{TransferState}
use capsi.Native.Transfer.{
  FileError, not_loaded, wait_timed_out, Upload, go_on, stop, undecided, verdict, wait_limit,
  sleep_time, enough_rounds, wait_for_receipt,
}

-- What a round of the wait comes to; the rounds that go on are those of an undecided state before
-- the deadline.
abbrev pub round_result :
    (state : Option (Option TransferState)) (elapsed : ℕ) → Option (Result FileError (Unit {0}))
round_result none elapsed = some (err not_loaded)
round_result (some state) elapsed = elim (verdict state) [
  | go_on ↦ some (ok tt)
  | stop e ↦ some (err e)
  | undecided ↦ if leb wait_limit elapsed then some (err wait_timed_out) else none
]

abbrev or_later : {A : Type 0} → Option A → Option A → Option A
or_later none later = later
or_later (some a) later = some a

wait_step :
    (u : Upload) (fuel round : ℕ)
    → wait_for_receipt u (suc fuel) round
      ≡ or_later
          (round_result (u.waiting round) (u.elapsed round))
          (wait_for_receipt u fuel (round + 1))
unfolding wait_for_receipt
wait_step u fuel round = ground arith

goes_on-lt :
    (state : Option (Option TransferState)) (elapsed : ℕ)
    → round_result state elapsed ≡ none
    → elapsed < wait_limit
goes_on-lt none elapsed h = absurd (ground arith)
goes_on-lt (some state) elapsed h = ground arith

-- The first round that decides, from here on.
pub record IsFirst (u : Upload) (from n : ℕ) (r : Result FileError (Unit {0})) : Type 0 where
  pub starts : from ≤ n
  pub decides : round_result (u.waiting n) (u.elapsed n) ≡ some r
  pub before : (i : ℕ) → from ≤ i → i < n → round_result (u.waiting i) (u.elapsed i) ≡ none

wait_from :
    (u : Upload)
    → ((i : ℕ) → i * sleep_time ≤ u.elapsed i)
    → (fuel round : ℕ) → round + fuel ≡ suc (wait_limit / sleep_time)
    → round ≤ wait_limit / sleep_time
    → (n : ℕ) × (r : Result FileError (Unit {0})) × (wait_for_receipt u fuel round ≡ some r)
      × (n ≤ wait_limit / sleep_time)
      × IsFirst u round n r
wait_from u slow zero round e h = absurd (omega arith)
wait_from u slow (suc fuel) round e h =
    elim (Option-cases (round_result (u.waiting round) (u.elapsed round))) [
      | inr (r, decided) ↦ (
        round,
        r,
        rw (wait_step u fuel round, decided) refl,
        h,
        record {
          starts = omega arith;
          decides = decided;
          before = λ i from_here below. absurd (omega arith);
        },
      )
      | inl waits ↦
          let early = goes_on-lt (u.waiting round) (u.elapsed round) waits in
          let (n, r, ends, bound, first) =
            wait_from u slow fuel (round + 1) (omega arith) (omega (arith, slow round)) in
          (
            n,
            r,
            rw (wait_step u fuel round, waits) ends,
            bound,
            record {
              starts = omega (arith, first.starts);
              decides = first.decides;
              before = λ i from_here below. elim (Bool-cases (i == round)) [
                | inl same ↦ let e' : i ≡ round = ground arith in rw e' waits
                | inr other ↦ first.before i (ground arith) below
              ];
            },
          )
    ]

-- If no round starts earlier than the sleeps before it take, the wait for the receipt ends within
-- its 301 rounds: it answers what the first round comes to in which the stored state of the
-- transfer decides, the store cannot be loaded, or the deadline has passed.
pub wait_for_receipt_lem :
    (u : Upload)
    → ((i : ℕ) → i * sleep_time ≤ u.elapsed i)
    → (n : ℕ) × (r : Result FileError (Unit {0})) × (wait_for_receipt u enough_rounds 0 ≡ some r)
      × (n < enough_rounds)
      × IsFirst u 0 n r
wait_for_receipt_lem u slow =
    let (n, r, ends, bound, first) = wait_from u slow enough_rounds 0 (omega arith) (omega arith) in
    (n, r, ends, omega arith, first)
