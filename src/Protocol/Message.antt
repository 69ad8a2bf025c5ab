-- ===== src/Protocol/Message.antt =====
-- crates/capsi-core/src/protocol/message.rs: the typed messages, their validation and the envelope.
use capsi.Base.{
  Text, codes, trim, trim_end, is_empty, utf8_len, text_eq, ℕ, ℤ, Option, Bool, true, false, ltb,
  Result, ok, ◌>>=◌, ◌>>◌, guard, not, ◌*◌,
}
use capsi.Workplace.State.{WorkspaceState}

-- `PROTOCOL_VERSION` and `MAX_TEXT_MESSAGE_BYTES` of lib.rs.
abbrev pub protocol_version : Text
protocol_version = codes "capsi/1"

abbrev pub max_text_message_bytes : ℕ
max_text_message_bytes = 64 * 1024

-- The refusals of this file, one for each error message.
pub data MessageError : Type 0 where
  empty_message empty_group_id wrong_version : MessageError
  message_too_long : ℕ → MessageError

pub record TextMessage : Type 0 where
  pub body : Text

pub record FileOffer : Type 0 where
  pub transfer_id : Text
  pub file_name : Text
  pub size : ℕ
  pub digest : Text
  pub chunks : ℕ

pub data FileReceipt : Type 0 where
  accepted : (next_chunk : ℕ) → FileReceipt
  declined completed failed cancelled : FileReceipt

pub record WorkplaceTextMessage : Type 0 where
  pub group_id : Text
  pub body : Text

pub record WorkplaceSyncMessage : Type 0 where
  pub actor_device_id : Text
  pub state : WorkspaceState

pub record WorkplaceBroadcastMessage : Type 0 where
  pub broadcast_id : Text
  pub title : Text
  pub body : Text
  pub department_id : Option Text

pub record DeliveryReceipt : Type 0 where
  pub message_id : Text

pub data Message : Type 0 where
  text : TextMessage → Message
  file_offer : FileOffer → Message
  workplace_text : WorkplaceTextMessage → Message
  workplace_sync : WorkplaceSyncMessage → Message
  workplace_broadcast : WorkplaceBroadcastMessage → Message
  delivery_receipt : DeliveryReceipt → Message
  file_receipt : (transfer_id : Text) (state : FileReceipt) → Message
  file_chunk : (transfer_id : Text) (index : ℕ) (digest : Text) (chunk : Text) → Message
  typing : (active : Bool) → Message
  goodbye : Message

pub record Envelope : Type 0 where
  pub version : Text
  pub id : Text
  pub sent_at : ℤ
  pub message : Message

-- `TextMessage::new`: the body is trimmed at its end, and must hold something and fit.
unfoldable pub new_text : Text → Result MessageError TextMessage
new_text body = do
  let trimmed = trim_end body
  guard (not (is_empty (trim trimmed))) empty_message
  guard (not (ltb max_text_message_bytes (utf8_len trimmed))) (message_too_long (utf8_len trimmed))
  ok (record { body = trimmed })

-- `WorkplaceTextMessage::new`.
unfoldable pub new_workplace_text : Text → Text → Result MessageError WorkplaceTextMessage
unfolding new_text
new_workplace_text group_id body = do
  let group = trim group_id
  guard (not (is_empty group)) empty_group_id
  t ← new_text body
  ok (record { group_id = group; body = t.body })

-- `Message::is_conversation_item`.
unfoldable pub is_conversation_item : Message → Bool
is_conversation_item (text _) = true
is_conversation_item (file_offer _) = true
is_conversation_item (workplace_text _) = true
is_conversation_item _ = false

-- `Envelope::new`, with the id and the time that it draws.
unfoldable pub new_envelope : (id : Text) (now : ℤ) → Message → Envelope
new_envelope id now m = record { version = protocol_version; id = id; sent_at = now; message = m }

-- `Envelope::check_version`.
unfoldable pub check_version : Envelope → Result MessageError (Unit {0})
check_version e = guard (text_eq e.version protocol_version) wrong_version
