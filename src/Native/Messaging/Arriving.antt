-- ===== src/Native/Messaging/Arriving.antt =====
-- A text message that was sent is taken in by the listener of the other device as it is.
use capsi.Base.{
  ◌≡◌, refl, sym, ap, ◌∙◌, true, false, Option, none, some, [], ◌∷◌, Text, trim_end, ℤ, Result, ok,
  err,
}
use capsi.Protocol.Message.{
  TextMessage, Message, text, delivery_receipt, Envelope, new_text, new_envelope,
}
use capsi.Identity.Device.{DeviceId}
use capsi.Identity.Keys.{Primitives}
use capsi.Identity.Trust.{KnownDevice, TrustStore, get}
use capsi.Storage.Conversation.{delivered, text_kind, StoredMessage, new_text_message}
use capsi.Storage.Store.{MessageStore, StoreError, load, append}
use capsi.Storage.Store.InStep.{persist_new, append-persist, with_message}
use capsi.Native.Inbox.{
  DataDir, Arrival, message_arrived, Reaction, load_messages, with_messages, reply_to,
}
use capsi.Native.Inbox.Texts.{answer_text, take_text}
use capsi.Native.Inbox.Receive.{dispatch, receive_from, receive_with, receive}
use capsi.Native.Outbox.{if_trusted}
use capsi.Native.Messaging.{capsi_message_send}
use capsi.Native.Disk.{Environment}
use capsi.Native.Messaging.Sent.{body-from_trimmed, new_text_twice, sent_message}

append_ok :
    (device_id name : Text) (now : ℤ) (m : StoredMessage) (s : MessageStore)
    → s.writable ≡ true
    → (append device_id name now m s).1 ≡ ok tt
append_ok device_id name now m s w =
    rw
      (
        append-persist device_id name now m s,
        persist_new device_id (with_message device_id name now m s) s,
        w,
      )
      refl

-- What the listener keeps of an arrival with that text.
abbrev pub as_taken : Arrival → TextMessage → StoredMessage
as_taken a t = record {
  id = a.envelope.id;
  outgoing = false;
  sent_at = a.envelope.sent_at;
  kind = text_kind;
  body = t.body;
  file = none;
  state = delivered;
}

-- The text is shown, kept with the id of its envelope, and confirmed once.
abbrev pub IsTaken : Arrival → TextMessage → KnownDevice → DataDir → Reaction → Type 0
IsTaken a t known dir r =
    let s = load dir.conversations dir.storable dir.cuts_short in
    (r.events ≡ message_arrived a.peer_id a.envelope.id t.body ∷ [])
    × (r.replies ≡ reply_to a (delivery_receipt (record { message_id = a.envelope.id })) ∷ [])
    × (r.data_dir
        ≡ with_messages (append a.peer_id known.name a.env.now_millis (as_taken a t) s).0 dir)

module _ (a : Arrival) (t : TextMessage) (known : KnownDevice) (dir : DataDir) where
  answer_text_ok :
      (after : MessageStore × Result StoreError (Unit {0}))
      → after.1 ≡ ok tt
      → let r = answer_text a t.body dir after in
        (r.events ≡ message_arrived a.peer_id a.envelope.id t.body ∷ [])
        × (r.replies ≡ reply_to a (delivery_receipt (record { message_id = a.envelope.id })) ∷ [])
        × (r.data_dir ≡ with_messages after.0 dir)
  answer_text_ok (s, ok _) h = (refl, refl, refl)
  answer_text_ok (s, err refused) h = absurd (cc)

  -- What the listener leaves when it appends the text.
  abbrev appended : MessageStore × Result StoreError (Unit {0})
  appended =
      append a.peer_id known.name a.env.now_millis (as_taken a t)
        (load dir.conversations dir.storable dir.cuts_short)

  loaded :
      dir.listable ≡ true
      → load_messages dir ≡ some (load dir.conversations dir.storable dir.cuts_short)
  unfolding load_messages
  loaded listable = rw listable refl

  take_text_ok :
      new_text t.body ≡ ok t
      → dir.listable ≡ true
      → take_text a t known dir ≡ answer_text a t.body dir appended
  unfolding take_text new_text_message
  take_text_ok same listable = rw (take_text, same, loaded listable) refl

  take_text-IsTaken :
      new_text t.body ≡ ok t
      → dir.listable ≡ true
      → dir.storable ≡ true
      → IsTaken a t known dir (take_text a t known dir)
  unfolding load
  take_text-IsTaken same listable storable = rw (take_text_ok same listable) (
      answer_text_ok appended (
        append_ok a.peer_id known.name a.env.now_millis (as_taken a t)
          (load dir.conversations dir.storable dir.cuts_short) storable))

message-new_envelope : (id : Text) (now : ℤ) (m : Message) → (new_envelope id now m).message ≡ m
unfolding new_envelope
message-new_envelope id now m = refl

trimmed-IsTaken :
    (given : Text) (t : TextMessage) (a : Arrival) (known : KnownDevice) (dir : DataDir)
    (r : Reaction)
    → new_text given ≡ ok t
    → IsTaken a t known dir r
    → IsTaken a (record { body = trim_end given }) known dir r
unfolding new_text
trimmed-IsTaken given t a known dir r h taken =
    rw (sym (body-from_trimmed (trim_end given) t h)) taken

receive_text :
    (p : Primitives) (own : DeviceId) (a : Arrival) (trust : TrustStore) (known : KnownDevice)
    (dir : DataDir) (t : TextMessage)
    → dir.disk.trust ≡ some trust
    → if_trusted (get a.peer_id trust) ≡ some known
    → a.envelope.message ≡ text t
    → receive p own a dir ≡ take_text a t known dir
unfolding receive dispatch
receive_text p own a trust known dir t trusts of_known is_text =
    ap (λ list. receive_with p own a list dir) trusts
    ∙ ap (λ peer. receive_from p own a peer dir) of_known
    ∙ ap (λ m. dispatch p own a known m dir) is_text

-- If the call to send a message answers an envelope, and this envelope arrives at a listener that
-- trusts the device that it comes from and whose conversations can be listed and written, then the
-- listener shows the body of the call, trimmed at its end, as one event, appends it to the
-- conversation with that device under the id and the time of the envelope, as a delivered message,
-- and sends one receipt of that id.
pub message_round_trip :
    (env : Environment) (message_id : Text) (device body : Option Text) (here : DataDir)
    (e : Envelope) (p : Primitives) (own : DeviceId) (a : Arrival) (trust : TrustStore)
    (known : KnownDevice) (there : DataDir)
    → (capsi_message_send env message_id device body here).1 ≡ ok e
    → a.envelope ≡ e
    → there.disk.trust ≡ some trust
    → if_trusted (get a.peer_id trust) ≡ some known
    → there.listable ≡ true
    → there.storable ≡ true
    → (given : Text) × (body ≡ some given)
      × IsTaken a (record { body = trim_end given }) known there (receive p own a there)
message_round_trip env message_id device body here e p own a trust known there h arrives trusts
      of_known listable storable =
    let (given, t, was, (made_of, whole)) = sent_message env message_id device body here e h in
    let is_text =
      ap (λ v. v.message) (arrives ∙ whole)
      ∙ message-new_envelope (env.new_id 0) env.now_millis (text t) in
    let taken =
      take_text-IsTaken a t known there (new_text_twice given t made_of) listable storable in
    let received = receive_text p own a trust known there t trusts of_known is_text in
    (
      given,
      was,
      trimmed-IsTaken given t a known there (receive p own a there) made_of (rw received taken),
    )
