-- ===== src/Native/Inbox.antt =====
-- What the listener of `capsi_message_start` in flutter/native/src/lib.rs works on: the data
-- directory, the file system, the envelope that arrived and the events for the interface.
pub mod Files
pub mod Texts
pub mod Workplaces
pub mod Confined
pub mod Receive
mod Samples
use capsi.Base.{
  ℕ, Bool, true, false, Option, none, some, List, [], ◌∷◌, ◌++◌, ◌==◌, if◌then◌else◌, Text,
}
use capsi.Base.Maps.{TextMap, lookup}
use capsi.Protocol.Message.{MessageError, FileReceipt, Message, Envelope, new_envelope}
use capsi.Identity.Device.{DeviceId}
use capsi.Identity.Keys.{Primitives}
use capsi.Storage.Conversation.{
  TransferState, transferring, StoredFile, Conversation, find_transfer,
}
use capsi.Storage.Store.{MessageStore, StoreError, load}
use capsi.Workplace.Workspace.{WorkplaceError}
use capsi.Native.Disk.{Disk, CallError, Environment}
use capsi.Native.Outbox.{tcp_service_port}
use capsi.Base.Decimal.{to_decimal}
use capsi.Storage.Store

-- Beside the keys, the trust list and the workplace: the files of the conversations, whether their
-- directory can be made and read, whether it takes writes, whether a write that fails has emptied
-- the file before, and the bytes of all other files.
pub record DataDir : Type 0 where
  pub disk : Disk
  pub conversations : TextMap Conversation
  pub listable : Bool
  pub storable : Bool
  pub cuts_short : Bool
  pub files : TextMap (List ℕ)

-- The path of the data directory, and what the file system lets happen while one envelope is
-- handled; `room` is what a write puts into a file before it fails.
pub record FileSystem : Type 0 where
  pub root : Text
  pub can_make_dir : (path : Text) → Bool
  pub can_create : (path : Text) → Bool
  pub can_open : (path : Text) → Bool
  pub can_read : (path : Text) → Bool
  pub room : (path : Text) → ℕ
  pub can_rename : (from to : Text) → Bool
  pub can_remove : (path : Text) → Bool

-- What `accept_and_read` answered, with the address of the stream and the surroundings.
pub record Arrival : Type 0 where
  pub env : Environment
  pub fs : FileSystem
  pub ip : Text
  pub peer_id : DeviceId
  pub envelope : Envelope

-- The errors that are shown as an event, one for each message.
pub data Problem : Type 0 where
  not_accepted_stream not_read_stream : Problem
  trust_unreadable messages_unreadable workplace_unreadable : Problem
  untrusted_device : DeviceId → Problem
  directory_not_made file_not_created : Problem
  message_not_stored : StoreError → Problem
  chunk_invalid : Problem
  chunk_digest_mismatch unknown_transfer no_local_path : (transfer_id : Text) → Problem
  transfer_not_accepted : (transfer_id : Text) → TransferState → Problem
  chunk_out_of_order : (transfer_id : Text) (expected received : ℕ) → Problem
  file_not_opened chunk_not_written file_not_moved : Problem
  file_mismatch : (transfer_id : Text) → Problem
  actor_mismatch deletion_refused : DeviceId → Problem
  workplace_not_saved : CallError → Problem
  sync_rejected : WorkplaceError → DeviceId → Problem
  sender_not_in_group : DeviceId → (group_id : Text) → Problem
  text_refused : MessageError → Problem

pub data Event : Type 0 where
  problem : Problem → Event
  file_offer_event : (device_id device_name transfer_id file_name : Text) (size chunks : ℕ) → Event
  file_progress : (device_id transfer_id : Text) (received size : ℕ) → Event
  file_sent : (device_id transfer_id : Text) (sent size : ℕ) → Event
  file_complete : (device_id transfer_id file_name : Text) (size : ℕ) → Event
  file_receipt_event : (device_id transfer_id : Text) → FileReceipt → Event
  workplace_deleted : (device_id workspace_id : Text) → Event
  workplace_sync_event : (device_id workspace_id name : Text) → Event
  workplace_message : (device_id group_id message_id body : Text) → Event
  workplace_broadcast_event : (broadcast_id : Text) → Event
  message_arrived : (device_id message_id body : Text) → Event
  delivery_receipt_event : (device_id message_id : Text) → Event

-- What handling an envelope leaves: the directory, the events in their order, and the envelopes
-- that are sent back, each with its socket.
pub record Reaction : Type 0 where
  pub data_dir : DataDir
  pub events : List Event
  pub replies : List (Text × Envelope)

abbrev pub nothing : DataDir → Reaction
nothing dir = record { data_dir = dir; events = []; replies = [] }

abbrev pub only : Event → DataDir → Reaction
only event dir = record { data_dir = dir; events = event ∷ []; replies = [] }

abbrev pub refuse : Problem → DataDir → Reaction
refuse reason dir = only (problem reason) dir

-- `MessageStore::load(&data_dir)`, and what the calls of the store leave in the directory.
unfoldable pub load_messages : DataDir → Option MessageStore
load_messages dir =
    if dir.listable then some (Store.load dir.conversations dir.storable dir.cuts_short) else none

abbrev pub with_messages : MessageStore → DataDir → DataDir
with_messages s dir = record dir { conversations = s.files }

-- `Path::join` where paths are separated by `/`.
unfoldable pub join : (path name : Text) → Text
join path [] = path ++ b'/' ∷ []
join path (c ∷ name) = if c == b'/' then c ∷ name else path ++ b'/' ∷ c ∷ name

-- `digest_hex`.
unfoldable pub digest_hex : Primitives → List ℕ → Text
digest_hex p bytes = p.hex_encode (p.digest bytes)

-- An envelope sent back to the address that the stream came from.
unfoldable pub reply_to : Arrival → Message → Text × Envelope
reply_to a message = (
  a.ip ++ b':' ∷ to_decimal tcp_service_port,
  new_envelope (a.env.new_id 0) a.env.now_millis message,
)

-- `matches!(state, ..)`.
abbrev pub is_transferring : TransferState → Bool
is_transferring transferring = true
is_transferring _ = false

-- `messages.get(..)` and `find_transfer(..)`.
unfoldable pub transfer_of : (device_id transfer_id : Text) → MessageStore → Option StoredFile
unfolding find_transfer
transfer_of device_id transfer_id s = elim (lookup device_id s.conversations) [
  | none ↦ none
  | some c ↦ find_transfer transfer_id c
]
