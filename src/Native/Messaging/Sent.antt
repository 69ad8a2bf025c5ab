-- ===== src/Native/Messaging/Sent.antt =====
-- The envelope that a successful call to send a text message answers.
use capsi.Base.{
  ℕ, ◌≡◌, refl, sym, ap, ◌∙◌, inl, inr, Bool, not, Option, none, some, [], ◌∷◌, arith, ltb,
  Bool-cases, Text, is_whitespace, trim_end_matches, trim, trim_end, is_empty, utf8_len, Result, ok,
  err, guard, ◌>>◌,
}
use capsi.Protocol.Message.{
  max_text_message_bytes, MessageError, empty_message, message_too_long, TextMessage, text,
  Envelope, new_text, new_envelope,
}
use capsi.Identity.Device.{DeviceId, IdentityError, from_hex}
use capsi.Identity.Trust.{KnownDevice}
use capsi.Storage.Conversation.{StoredMessage}
use capsi.Storage.Store.{MessageStore, StoreError, append}
use capsi.Native.Inbox.{DataDir}
use capsi.Native.Messaging.{
  SendError, send_envelope, keep_sent, keep_envelope, send_text, send_to, capsi_message_send,
}
use capsi.Native.Disk.{Environment}

-- A character in front of a text without anything to trim.
trim_before :
    (p : ℕ → Bool) (c : ℕ) (s rest : Text)
    → trim_end_matches p s ≡ rest
    → trim_end_matches p rest ≡ rest
    → trim_end_matches p (trim_end_matches p (c ∷ s)) ≡ trim_end_matches p (c ∷ s)
unfolding trim_end_matches
trim_before p c s [] e same = elim (Bool-cases (p c)) [
  | inl blank ↦ rw (e, trim_end_matches, blank) refl
  | inr stays ↦ rw (e, trim_end_matches, stays, trim_end_matches, stays) refl
]
trim_before p c s (d ∷ rest) e same = rw (e, trim_end_matches, same) refl

trim_twice :
    (p : ℕ → Bool) (s : Text) → trim_end_matches p (trim_end_matches p s) ≡ trim_end_matches p s
unfolding trim_end_matches
trim_twice p [] = refl
trim_twice p (c ∷ s) = trim_before p c s (trim_end_matches p s) refl (trim_twice p s)

-- `TextMessage::new` once the end of the body is trimmed.
abbrev pub from_trimmed : Text → Result MessageError TextMessage
from_trimmed trimmed = do
  guard (not (is_empty (trim trimmed))) empty_message
  guard (not (ltb max_text_message_bytes (utf8_len trimmed))) (message_too_long (utf8_len trimmed))
  ok (record { body = trimmed })

pub body-from_trimmed :
    (trimmed : Text) (t : TextMessage) → from_trimmed trimmed ≡ ok t → t.body ≡ trimmed
body-from_trimmed trimmed t h = ground arith

-- What `TextMessage::new` has made, it makes of itself again.
pub new_text_twice : (body : Text) (t : TextMessage) → new_text body ≡ ok t → new_text t.body ≡ ok t
unfolding new_text trim_end
new_text_twice body t h =
    ap new_text (body-from_trimmed (trim_end body) t h)
    ∙ ap from_trimmed (trim_twice is_whitespace body)
    ∙ h

module _ (env : Environment) (message_id : Text) where
  -- The envelope of a message that was sent has the trimmed body.
  abbrev pub IsOf : (body : Text) → Envelope → TextMessage → Type 0
  IsOf body e t = (new_text body ≡ ok t) × (e ≡ new_envelope (env.new_id 0) env.now_millis (text t))

  sent_envelope :
      (device_id : DeviceId) (body : Text) (dir : DataDir) (peer : KnownDevice) (e : Envelope)
      (stored : StoredMessage) (s : MessageStore)
      → send_envelope env message_id device_id body dir ≡ ok (peer, e, stored, s)
      → (t : TextMessage) × IsOf body e t
  unfolding send_envelope
  sent_envelope device_id body dir peer e stored s h = ground arith

  kept_envelope :
      (dir : DataDir) (envelope e : Envelope) (result : MessageStore × Result StoreError (Unit {0}))
      → (keep_sent env message_id envelope dir result).1 ≡ ok e
      → envelope ≡ e
  kept_envelope dir envelope e (s, ok _) h = cc
  kept_envelope dir envelope e (s, err refused) h = absurd (cc)

  sent_of :
      (device_id : DeviceId) (body : Text) (dir : DataDir) (e : Envelope)
      (r : Result SendError (KnownDevice × Envelope × StoredMessage × MessageStore))
      → send_envelope env message_id device_id body dir ≡ r
      → (keep_envelope env message_id device_id dir r).1 ≡ ok e
      → (t : TextMessage) × IsOf body e t
  sent_of device_id body dir e (err refused) same h = absurd (cc)
  sent_of device_id body dir e (ok (peer, envelope, stored, s)) same h =
      let (t, (made_of, whole)) = sent_envelope device_id body dir peer envelope stored s same in
      (
        t,
        (
          made_of,
          sym (kept_envelope dir envelope e (append device_id peer.name env.now_millis stored s) h)
              ∙ whole,
        ),
      )

  -- Whoever has the parts of the call.
  sent_to :
      (device : Result IdentityError DeviceId) (body : Option Text) (dir : DataDir) (e : Envelope)
      → (send_to env message_id device body dir).1 ≡ ok e
      → (given : Text) × (t : TextMessage) × (body ≡ some given) × IsOf given e t
  unfolding send_text
  sent_to (err refused) body dir e h = absurd (cc)
  sent_to (ok device_id) none dir e h = absurd (cc)
  sent_to (ok device_id) (some body) dir e h =
      let (t, of) = sent_of device_id body dir e _ refl h in (body, t, refl, of)

  -- The envelope that a call answers has the trimmed body that the call was given.
  pub sent_message :
      (device body : Option Text) (dir : DataDir) (e : Envelope)
      → (capsi_message_send env message_id device body dir).1 ≡ ok e
      → (given : Text) × (t : TextMessage) × (body ≡ some given) × IsOf given e t
  unfolding capsi_message_send
  sent_message none body dir e h = absurd (cc)
  sent_message (some device) body dir e h = sent_to (from_hex device) body dir e h
