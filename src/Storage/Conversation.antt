-- ===== src/Storage/Conversation.antt =====
-- crates/capsi-core/src/storage/conversation.rs: the messages exchanged with one device.
pub mod Order
pub mod Transfers
mod Samples
use capsi.Base.{
  ℕ, ◌+◌, ◌-◌, ◌%◌, ◌^◌, Bool, false, not, ◌&&◌, Option, none, some, List, [], ◌∷◌, ◌++◌, ltb,
  if◌then◌else◌, length, drop, find, any, retain, update_first, Text, text_eq, ℤ, ◌<ℤ◌, max_ℤ,
  Result, ok, ◌>>=◌, ◌>>◌,
}
use capsi.Util.{safe_file_name}
use capsi.Protocol.Message.{MessageError, FileOffer, Envelope, new_text}

pub data DeliveryState : Type 0 where
  queued sent delivered read failed : DeliveryState

-- `Failed` is `broken_off` here: the name above is taken.
pub data TransferState : Type 0 where
  offered transferring complete declined broken_off cancelled : TransferState

pub data MessageKind : Type 0 where
  text_kind file_kind : MessageKind

pub record StoredFile : Type 0 where
  pub transfer_id : Text
  pub file_name : Text
  pub size : ℕ
  pub digest : Text
  pub local_path : Option Text
  pub state : TransferState

pub record StoredMessage : Type 0 where
  pub id : Text
  pub outgoing : Bool
  pub sent_at : ℤ
  pub kind : MessageKind
  pub body : Text
  pub file : Option StoredFile
  pub state : DeliveryState

-- An envelope that the peer has not confirmed.
pub record PendingDelivery : Type 0 where
  pub envelope : Envelope
  pub attempts : ℕ
  pub next_attempt_at : ℤ
  pub last_error : Option Text

pub record Conversation : Type 0 where
  pub device_id : Text
  pub name : Text
  pub messages : List StoredMessage
  pub unread : ℕ
  pub updated_at : ℤ
  pub pending_deliveries : List PendingDelivery

-- `Conversation::new`.
unfoldable pub new_conversation : (device_id name : Text) (now : ℤ) → Conversation
new_conversation device_id name now = record {
  device_id = device_id;
  name = name;
  messages = [];
  unread = 0;
  updated_at = now;
  pending_deliveries = [];
}

-- `StoredMessage::text` and `StoredMessage::file`, with the id and the time that they draw.
unfoldable pub new_text_message :
    (id : Text) (now : ℤ) (body : Text) (outgoing : Bool) → Result MessageError StoredMessage
unfolding new_text
new_text_message id now body outgoing = do
  t ← new_text body
  ok (record {
    id = id;
    outgoing = outgoing;
    sent_at = now;
    kind = text_kind;
    body = t.body;
    file = none;
    state = if outgoing then sent else delivered;
  })

unfoldable pub new_file_message :
    (id : Text) (now : ℤ) → FileOffer → (outgoing : Bool) → StoredMessage
unfolding safe_file_name
new_file_message id now offer outgoing = record {
  id = id;
  outgoing = outgoing;
  sent_at = now;
  kind = file_kind;
  body = [];
  file = some (record {
    transfer_id = offer.transfer_id;
    file_name = safe_file_name offer.file_name;
    size = offer.size;
    digest = offer.digest;
    local_path = none;
    state = offered;
  });
  state = sent;
}

-- `position(|existing| existing.sent_at > message.sent_at)` and `insert`.
unfoldable pub insert_message : StoredMessage → List StoredMessage → List StoredMessage
insert_message message [] = message ∷ []
insert_message message (existing ∷ messages) =
    if message.sent_at <ℤ existing.sent_at
    then message ∷ existing ∷ messages
    else existing ∷ insert_message message messages

-- `unread` is a `u32`.
unfoldable pub push : StoredMessage → Conversation → Conversation
unfolding insert_message
push message c = record c {
  updated_at = max_ℤ c.updated_at message.sent_at;
  unread = if message.outgoing then c.unread else (c.unread + 1) % 2 ^ 32;
  messages = insert_message message c.messages;
}

unfoldable pub mark_read : Conversation → Conversation
mark_read c = record c { unread = 0 }

-- The test of both searches for a transfer.
abbrev pub is_transfer : Text → StoredMessage → Bool
is_transfer transfer_id m = elim m.file [
  | none ↦ false
  | some f ↦ text_eq f.transfer_id transfer_id
]

abbrev pub set_file_state : TransferState → Option Text → StoredFile → StoredFile
set_file_state state none f = record f { state = state }
set_file_state state (some path) f = record f { state = state; local_path = some path }

abbrev pub set_message_state : TransferState → Option Text → StoredMessage → StoredMessage
set_message_state state local_path m = record m {
  file = elim m.file [ none ↦ none | some f ↦ some (set_file_state state local_path f) ];
}

unfoldable pub set_transfer_state :
    (transfer_id : Text)
    → TransferState
    → (local_path : Option Text) → Conversation
    → Conversation × Bool
set_transfer_state transfer_id state local_path c = (
  record c {
    messages =
        update_first (is_transfer transfer_id) (set_message_state state local_path) c.messages;
  },
  any (is_transfer transfer_id) c.messages,
)

unfoldable pub trim_history : (limit : ℕ) → Conversation → Conversation
trim_history limit c =
    if ltb 0 limit && ltb limit (length c.messages)
    then record c { messages = drop (length c.messages - limit) c.messages }
    else c

-- `find_transfer`.
unfoldable pub find_transfer : (transfer_id : Text) → Conversation → Option StoredFile
find_transfer transfer_id c = elim (find (is_transfer transfer_id) c.messages) [
  | none ↦ none
  | some m ↦ m.file
]

unfoldable pub queue_delivery : Envelope → (next_attempt_at : ℤ) → Conversation → Conversation
queue_delivery envelope next_attempt_at c =
    if any (λ p. text_eq p.envelope.id envelope.id) c.pending_deliveries then c else record c {
      pending_deliveries =
          c.pending_deliveries
          ++ record {
            envelope = envelope;
            attempts = 0;
            next_attempt_at = next_attempt_at;
            last_error = none;
          }
            ∷ [];
    }

unfoldable pub remove_delivery : (message_id : Text) → Conversation → Conversation
remove_delivery message_id c = record c {
  pending_deliveries = retain (λ p. not (text_eq p.envelope.id message_id)) c.pending_deliveries;
}
