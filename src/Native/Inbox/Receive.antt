-- ===== src/Native/Inbox/Receive.antt =====
-- The loop of `capsi_message_start` in flutter/native/src/lib.rs, `message_event` and
-- `capsi_message_poll`.
pub mod Queue
pub mod Isolation
pub mod Unwritten
pub mod Structure
pub mod Synced
pub mod Authority
pub mod Sound
use capsi.Base.{ℕ, Option, none, some, List, [], ◌∷◌, ◌++◌, leb, if◌then◌else◌, length}
use capsi.Protocol.Message.{
  Message, text, file_offer, workplace_text, workplace_sync, workplace_broadcast, delivery_receipt,
  file_receipt, file_chunk, typing, goodbye,
}
use capsi.Identity.Device.{DeviceId}
use capsi.Identity.Keys.{Primitives}
use capsi.Identity.Trust.{KnownDevice, TrustStore, get}
use capsi.Native.Disk.{Environment}
use capsi.Native.Outbox.{if_trusted, flush_workplace_deliveries}
use capsi.Native.Inbox.{
  DataDir, Arrival, not_accepted_stream, not_read_stream, trust_unreadable, untrusted_device, Event,
  Reaction, nothing, refuse,
}
use capsi.Native.Inbox.Files.{take_offer, take_chunk, take_file_receipt}
use capsi.Native.Inbox.Texts.{take_text, take_delivery_receipt}
use capsi.Native.Inbox.Workplaces.{take_sync, take_workplace_text, take_broadcast}

abbrev pub max_events : ℕ
max_events = 128

-- `message_event`: the oldest event makes room.
abbrev pub without_first : List Event → List Event
without_first [] = []
without_first (e ∷ queue) = queue

unfoldable pub message_event : Event → List Event → List Event
message_event event queue =
    (if leb max_events (length queue) then without_first queue else queue) ++ event ∷ []

unfoldable pub message_events : List Event → List Event → List Event
unfolding message_event
message_events [] queue = queue
message_events (e ∷ events) queue = message_events events (message_event e queue)

-- `capsi_message_poll`: the answer, and what is left.
unfoldable pub capsi_message_poll : List Event → List Event × Option Event
capsi_message_poll [] = ([], none)
capsi_message_poll (e ∷ queue) = (queue, some e)

abbrev pub flush_if_due : Option Environment → DataDir → DataDir
flush_if_due none dir = dir
flush_if_due (some env) dir = record dir { disk = flush_workplace_deliveries env dir.disk }

-- What one round of the loop meets after the flush that may be due.
pub data Round : Type 0 where
  timed_out : Round
  not_accepted not_read : Round
  arrived : Arrival → Round

module _ (p : Primitives) (own : DeviceId) where
  -- The match on the message; the sender is a device that is trusted.
  unfoldable pub dispatch : Arrival → KnownDevice → Message → DataDir → Reaction
  unfolding take_text take_offer take_workplace_text take_sync take_broadcast take_delivery_receipt
      take_file_receipt take_chunk
  dispatch a known (text t) dir = take_text a t known dir
  dispatch a known (file_offer offer) dir = take_offer p a offer known dir
  dispatch a known (workplace_text m) dir = take_workplace_text own a m dir
  dispatch a known (workplace_sync sync) dir = take_sync own a sync dir
  dispatch a known (workplace_broadcast b) dir = take_broadcast own a b dir
  dispatch a known (delivery_receipt receipt) dir = take_delivery_receipt a receipt dir
  dispatch a known (file_receipt transfer_id state) dir =
      take_file_receipt p a transfer_id state dir
  dispatch a known (file_chunk transfer_id index digest chunk) dir =
      take_chunk p a transfer_id index digest chunk dir
  dispatch a known (typing active) dir = nothing dir
  dispatch a known goodbye dir = nothing dir

  abbrev pub receive_from : Arrival → Option KnownDevice → DataDir → Reaction
  receive_from a none dir = refuse (untrusted_device a.peer_id) dir
  receive_from a (some known) dir = dispatch a known a.envelope.message dir

  abbrev pub receive_with : Arrival → Option TrustStore → DataDir → Reaction
  receive_with a none dir = refuse trust_unreadable dir
  receive_with a (some trust) dir = receive_from a (if_trusted (get a.peer_id trust)) dir

  unfoldable pub receive : Arrival → DataDir → Reaction
  unfolding dispatch get
  receive a dir = receive_with a dir.disk.trust dir

  abbrev pub react : Round → DataDir → Reaction
  react timed_out dir = nothing dir
  react not_accepted dir = refuse not_accepted_stream dir
  react not_read dir = refuse not_read_stream dir
  react (arrived a) dir = receive a dir

  -- A list of rounds, each with the environment of a flush if one is due; the directory and the
  -- queue at the end.
  unfoldable pub listen :
      List (Option Environment × Round) → DataDir → (queue : List Event) → DataDir × List Event
  unfolding flush_workplace_deliveries receive message_events
  listen [] dir queue = (dir, queue)
  listen ((flush, round) ∷ rounds) dir queue =
      let r = react round (flush_if_due flush dir) in
      listen rounds r.data_dir (message_events r.events queue)
