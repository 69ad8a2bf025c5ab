-- ===== src/Native/Messaging.antt =====
-- `capsi_message_send` of flutter/native/src/lib.rs.
pub mod Sent
pub mod Arriving
mod Samples
use capsi.Base.{true, Option, none, some, Text, Result, ok, err, guard, ok_or, ◌>>=◌, ◌>>◌}
use capsi.Protocol.Message.{MessageError, text, Envelope, new_text, new_envelope}
use capsi.Identity.Device.{DeviceId, IdentityError, from_hex}
use capsi.Identity.Trust.{KnownDevice, get}
use capsi.Storage.Conversation.{DeliveryState, sent, StoredMessage, new_text_message}
use capsi.Storage.Store.{MessageStore, StoreError, append}
use capsi.Native.Outbox.{socket_of, if_trusted}
use capsi.Native.Inbox.{DataDir, load_messages, with_messages}
use capsi.Native.Disk.{Environment}

pub data SendError : Type 0 where
  device_not_valid body_not_valid : SendError
  trust_not_read device_not_trusted address_not_known identity_not_read : SendError
  text_not_valid : MessageError → SendError
  runtime_not_built connection_failed messages_not_read : SendError
  not_kept : StoreError → SendError

abbrev pub valid : {A : Type 0} → Result MessageError A → Result SendError A
valid (ok a) = ok a
valid (err e) = err (text_not_valid e)

-- The copy of the sender, with the id and the time of the envelope.
abbrev pub as_sent : Envelope → StoredMessage → StoredMessage
as_sent envelope m = record m {
  id = envelope.id;
  sent_at = envelope.sent_at;
  state = DeliveryState.sent;
}

module _ (env : Environment) (message_id : Text) where
  -- Everything in front of the history: the message goes out first.
  unfoldable pub send_envelope :
      (device_id : DeviceId) (body : Text)
      → DataDir
      → Result SendError (KnownDevice × Envelope × StoredMessage × MessageStore)
  unfolding get socket_of new_text new_envelope load_messages new_text_message
  send_envelope device_id body dir = do
    trust ← ok_or dir.disk.trust trust_not_read
    peer ← ok_or (if_trusted (get device_id trust)) device_not_trusted
    address ← ok_or peer.last_address address_not_known
    own ← ok_or dir.disk.own_id identity_not_read
    t ← valid (new_text body)
    let envelope : Envelope = new_envelope (env.new_id 0) env.now_millis (text t)
    guard env.has_runtime runtime_not_built
    guard (env.connect_and_send (socket_of address) device_id envelope) connection_failed
    messages ← ok_or (load_messages dir) messages_not_read
    stored ← valid (new_text_message message_id env.now_millis t.body true)
    ok (peer, envelope, as_sent envelope stored, messages)

  abbrev pub keep_sent :
      Envelope
      → DataDir
      → MessageStore × Result StoreError (Unit {0})
      → DataDir × Result SendError Envelope
  keep_sent envelope dir (s, err e) = (with_messages s dir, err (not_kept e))
  keep_sent envelope dir (s, ok _) = (with_messages s dir, ok envelope)

  abbrev pub keep_envelope :
      (device_id : DeviceId)
      → DataDir
      → Result SendError (KnownDevice × Envelope × StoredMessage × MessageStore)
      → DataDir × Result SendError Envelope
  keep_envelope device_id dir (err e) = (dir, err e)
  keep_envelope device_id dir (ok (peer, envelope, stored, messages)) =
      keep_sent envelope dir (append device_id peer.name env.now_millis stored messages)

  unfoldable pub send_text :
      (device_id : DeviceId) (body : Text) → DataDir → DataDir × Result SendError Envelope
  unfolding send_envelope append
  send_text device_id body dir = keep_envelope device_id dir (send_envelope device_id body dir)

  abbrev pub send_to :
      Result IdentityError DeviceId
      → (body : Option Text) → DataDir
      → DataDir × Result SendError Envelope
  send_to (err e) body dir = (dir, err device_not_valid)
  send_to (ok device_id) none dir = (dir, err body_not_valid)
  send_to (ok device_id) (some body) dir = send_text device_id body dir

  -- The envelope whose id the call answers.
  unfoldable pub capsi_message_send :
      (device_id body : Option Text) → DataDir → DataDir × Result SendError Envelope
  unfolding from_hex send_text
  capsi_message_send none body dir = (dir, err device_not_valid)
  capsi_message_send (some device) body dir = send_to (from_hex device) body dir
