-- ===== src/Native/Transfer.antt =====
-- The loops of `capsi_file_send` of flutter/native/src/lib.rs: the wait for the receipt of an offer,
-- and the chunks.
pub mod Uploading
pub mod Decisions
pub mod Waiting
pub mod Arriving
pub mod RoundTrip
mod Samples
use capsi.Base.{
  ℕ, zero, suc, ◌+◌, ◌-◌, ◌*◌, ◌/◌, min, Bool, true, false, Option, none, some, List, [], ◌∷◌, leb,
  if◌then◌else◌, length, take, drop, Text, Result, ok, err,
}
use capsi.Protocol.Message.{declined, cancelled, file_chunk, Envelope, new_envelope}
use capsi.Identity.Device.{DeviceId}
use capsi.Identity.Keys.{Primitives}
use capsi.Storage.Conversation.{TransferState, offered, transferring, complete, broken_off}
use capsi.Storage.Store.{StoreError}
use capsi.Native.Disk.{Environment}
use capsi.Native.Inbox.{Event, file_sent, digest_hex}
use capsi.Native.Inbox.Files.{transfer_chunk_size}

-- The errors of these calls, one for each message.
pub data FileError : Type 0 where
  device_invalid transfer_invalid : FileError
  trust_list_missing not_trusted no_address identity_missing : FileError
  no_metadata not_a_file no_digest not_opened : FileError
  not_loaded : FileError
  not_stored : StoreError → FileError
  runtime_missing not_sent : FileError
  offer_declined transfer_rejected wait_timed_out cancelled_or_rejected : FileError
  conversation_not_found transfer_not_found not_awaiting not_active : FileError
  no_downloads not_moved : FileError

-- What a call that sends a file finds: the file, whether it can be read for its digest and opened
-- later, the ids that are drawn, what the store answers about
-- the transfer in each round of the wait and before each chunk (`none` where it cannot be loaded),
-- the milliseconds that have passed in each round, and the most that each read returns.
pub record Upload : Type 0 where
  pub env : Environment
  pub transfer_id : Text
  pub message_id : Text
  pub path : Text
  pub file_name : Option Text
  pub is_file : Bool
  pub contents : Option (List ℕ)
  pub can_read : Bool
  pub can_open : Bool
  pub waiting : (round : ℕ) → Option (Option TransferState)
  pub elapsed : (round : ℕ) → ℕ
  pub sending : (index : ℕ) → Option (Option TransferState)
  pub read : (index : ℕ) → ℕ

-- `size.div_ceil(chunk_size)`.
unfoldable pub div_ceil : (size chunk_size : ℕ) → ℕ
div_ceil size chunk_size = (size + chunk_size - 1) / chunk_size

-- What a state of the transfer means to the wait for the receipt.
pub data Verdict : Type 0 where
  go_on : Verdict
  stop : FileError → Verdict
  undecided : Verdict

abbrev pub verdict : Option TransferState → Verdict
verdict (some transferring) = go_on
verdict (some complete) = go_on
verdict (some TransferState.declined) = stop offer_declined
verdict (some broken_off) = stop transfer_rejected
verdict (some TransferState.cancelled) = stop transfer_rejected
verdict (some offered) = undecided
verdict none = undecided

-- `deadline`, and the sleep of a round, in milliseconds.
abbrev pub wait_limit : ℕ
wait_limit = 30000

abbrev pub sleep_time : ℕ
sleep_time = 100

-- The rounds until the deadline, and the last one.
abbrev pub enough_rounds : ℕ
enough_rounds = wait_limit / sleep_time + 1

-- The loop that waits for the receipt, a round for each unit of fuel; `none` is out of fuel.
unfoldable pub wait_for_receipt : Upload → (fuel round : ℕ) → Option (Result FileError (Unit {0}))
wait_for_receipt u zero round = none
wait_for_receipt u (suc fuel) round =
    let later = wait_for_receipt u fuel (round + 1) in
    elim (u.waiting round) [
      | none ↦ some (err not_loaded)
      | some state ↦ elim (verdict state) [
        | go_on ↦ some (ok tt)
        | stop e ↦ some (err e)
        | undecided ↦ if leb wait_limit (u.elapsed round) then some (err wait_timed_out) else later
      ]
    ]

-- `matches!(state, Some(Cancelled | Declined | Failed))`.
abbrev pub is_over : Option TransferState → Bool
is_over (some TransferState.cancelled) = true
is_over (some TransferState.declined) = true
is_over (some broken_off) = true
is_over _ = false

-- What has been sent and shown, and how the call ended.
pub record Sent : Type 0 where
  pub envelopes : List Envelope
  pub events : List Event
  pub result : Result FileError (Unit {0})

abbrev pub ended : Result FileError (Unit {0}) → Sent
ended result = record { envelopes = []; events = []; result = result }

abbrev pub sent_before : Envelope → Event → Sent → Sent
sent_before envelope event s = record s {
  envelopes = envelope ∷ s.envelopes;
  events = event ∷ s.events;
}

module _ (p : Primitives) (base64_encode : List ℕ → Text) (u : Upload) where
  module _ (socket : Text) (device_id : DeviceId) (size : ℕ) where
    unfoldable pub chunk_envelope : (index : ℕ) (raw : List ℕ) → Envelope
    unfolding digest_hex new_envelope
    chunk_envelope index raw =
        new_envelope (u.env.new_id (index + 1)) u.env.now_millis
          (file_chunk u.transfer_id index (digest_hex p raw) (base64_encode raw))

    abbrev pub progress : (index : ℕ) → Event
    progress index =
        file_sent device_id u.transfer_id (min ((index + 1) * transfer_chunk_size) size) size

    -- A chunk that was read, with what happens after it.
    abbrev pub send_chunk : (index : ℕ) (raw : List ℕ) (later : Sent) → Sent
    send_chunk index [] later = ended (ok tt)
    send_chunk index (b ∷ raw) later =
        if u.env.connect_and_send socket device_id (chunk_envelope index (b ∷ raw))
        then sent_before (chunk_envelope index (b ∷ raw)) (progress index) later
        else ended (err not_sent)

    -- `for index in 0..chunks`, with what is left of the file.
    unfoldable pub send_chunks : (left index : ℕ) (rest : List ℕ) → Sent
    unfolding chunk_envelope
    send_chunks zero index rest = ended (ok tt)
    send_chunks (suc left) index rest =
        let raw = take (min (u.read index) transfer_chunk_size) rest in
        let later = send_chunks left (index + 1) (drop (length raw) rest) in
        elim (u.sending index) [
          | none ↦ ended (err not_loaded)
          | some state ↦
              if is_over state
              then ended (err cancelled_or_rejected)
              else send_chunk index raw later
        ]
