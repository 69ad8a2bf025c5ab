-- ===== src/Storage/Store.antt =====
-- `MessageStore` of crates/capsi-core/src/storage/conversation.rs: all conversations in memory, and
-- one file for each of them.
pub mod Apart
pub mod InStep
pub mod Updated
mod Samples
use capsi.Base.{
  ℕ, ◌+◌, ◌%◌, ◌^◌, Bool, true, false, ◌&&◌, Option, none, some, List, [], ◌∷◌, ◌==◌, if◌then◌else◌,
  any, update_first, Text, text_eq, text_lt, trim, is_empty, ℤ, ◌<ℤ◌, Result, ok, err,
}
use capsi.Base.Maps.{TextMap, lookup, insert, erase, contains_key, values}
use capsi.Base.Sorting.{sort_by}
use capsi.Storage.Conversation.{
  delivered, TransferState, text_kind, file_kind, StoredMessage, Conversation, new_conversation,
  push, mark_read, set_transfer_state, trim_history, remove_delivery,
}

-- `MessageStore`, and the files below its root that can be read: what each holds, whether a write
-- goes through, and whether one that fails has emptied its file before, as `fs::write` does when the
-- file can be opened.
pub record MessageStore : Type 0 where
  pub conversations : TextMap Conversation
  pub limit : ℕ
  pub files : TextMap Conversation
  pub writable : Bool
  pub cuts_short : Bool

pub data StoreError : Type 0 where
  vanished write_failed : StoreError

-- `DEFAULT_HISTORY_LIMIT`.
abbrev pub default_history_limit : ℕ
default_history_limit = 5000

-- `load` puts every readable file under the id that it holds.
unfoldable pub collect_conversations :
    List Conversation → TextMap Conversation → TextMap Conversation
collect_conversations [] m = m
collect_conversations (c ∷ cs) m = collect_conversations cs (insert c.device_id c m)

unfoldable pub load : TextMap Conversation → (writable cuts_short : Bool) → MessageStore
unfolding collect_conversations values
load files writable cuts_short = record {
  conversations = collect_conversations (values files) [];
  limit = default_history_limit;
  files = files;
  writable = writable;
  cuts_short = cuts_short;
}

unfoldable pub set_limit : ℕ → MessageStore → MessageStore
set_limit limit s = record s { limit = limit }

-- `list`: the newest change first, then by name.
abbrev pub more_recent : Conversation → Conversation → Bool
more_recent a b =
    if b.updated_at <ℤ a.updated_at
    then true
    else if a.updated_at <ℤ b.updated_at
    then false
    else text_lt a.name b.name

unfoldable pub list : MessageStore → List Conversation
unfolding values sort_by
list s = sort_by more_recent (values s.conversations)

-- The files after a write that failed: one that it has cut can be read no more.
abbrev pub not_written : (device_id : Text) → MessageStore → MessageStore
not_written device_id s = if s.cuts_short then record s { files = erase device_id s.files } else s

-- `persist`: one conversation to its file.
unfoldable pub persist :
    (device_id : Text) → MessageStore → MessageStore × Result StoreError (Unit {0})
persist device_id s = elim (lookup device_id s.conversations) [
  | none ↦ (s, err vanished)
  | some c ↦
      if s.writable
      then (record s { files = insert device_id c s.files }, ok tt)
      else (not_written device_id s, err write_failed)
]

-- `conversation`: the one that is there, or a new one, under the name if that is not blank; the
-- store has it from then on, in memory.
abbrev pub found_or_new : (device_id name : Text) (now : ℤ) → Option Conversation → Conversation
found_or_new device_id name now none = new_conversation device_id name now
found_or_new device_id name now (some c) = c

abbrev pub named : (name : Text) → Conversation → Conversation
named name c = if is_empty (trim name) then c else record c { name = name }

unfoldable pub conversation :
    (device_id name : Text) (now : ℤ) → MessageStore → MessageStore × Conversation
unfolding new_conversation
conversation device_id name now s =
    let c = named name (found_or_new device_id name now (lookup device_id s.conversations)) in
    (record s { conversations = insert device_id c s.conversations }, c)

-- The changes that the entry takes, and the write.
abbrev pub append_to :
    (device_id : Text)
    → StoredMessage
    → MessageStore × Conversation
    → MessageStore × Result StoreError (Unit {0})
append_to device_id message (s, c) =
    let c' = trim_history s.limit (push message c) in
    persist device_id (record s { conversations = insert device_id c' s.conversations })

unfoldable pub append :
    (device_id name : Text) (now : ℤ)
    → StoredMessage
    → MessageStore
    → MessageStore × Result StoreError (Unit {0})
unfolding conversation persist push trim_history
append device_id name now message s =
    append_to device_id message (conversation device_id name now s)

-- The outgoing text message with an id.
abbrev pub is_text_of : (message_id : Text) → StoredMessage → Bool
is_text_of message_id m =
    text_eq m.id message_id && m.outgoing && elim m.kind [ text_kind ↦ true | file_kind ↦ false ]

abbrev pub confirmed : (message_id : Text) → Conversation → Conversation
confirmed message_id c = remove_delivery message_id (record c {
  messages = update_first (is_text_of message_id) (λ m. record m { state = delivered }) c.messages;
})

-- The memory is changed, and then written if the change was found worth it.
unfoldable pub persist_if :
    Bool → (device_id : Text) → MessageStore → MessageStore × Result StoreError Bool
unfolding persist
persist_if updated device_id s =
    let (s', result) = persist device_id s in
    if updated then (s', elim result [ ok _ ↦ ok true | err e ↦ err e ]) else (s, ok false)

unfoldable pub mark_delivery_delivered :
    (device_id message_id : Text) → MessageStore → MessageStore × Result StoreError Bool
unfolding persist_if remove_delivery
mark_delivery_delivered device_id message_id s = elim (lookup device_id s.conversations) [
  | none ↦ (s, ok false)
  | some c ↦
      persist_if (any (is_text_of message_id) c.messages) device_id
        (record s { conversations = insert device_id (confirmed message_id c) s.conversations })
]

unfoldable pub update_transfer :
    (device_id transfer_id : Text)
    → TransferState
    → (local_path : Option Text) → MessageStore
    → MessageStore × Result StoreError Bool
unfolding persist_if set_transfer_state
update_transfer device_id transfer_id state local_path s = elim (lookup device_id s.conversations) [
  | none ↦ (s, ok false)
  | some c ↦
      let (c', updated) = set_transfer_state transfer_id state local_path c in
      persist_if updated device_id
        (record s { conversations = insert device_id c' s.conversations })
]

-- `mark_read` of the store.
unfoldable pub mark_conversation_read :
    (device_id : Text) → MessageStore → MessageStore × Result StoreError (Unit {0})
unfolding persist mark_read
mark_conversation_read device_id s = elim (lookup device_id s.conversations) [
  | none ↦ (s, ok tt)
  | some c ↦
      if c.unread == 0
      then (s, ok tt)
      else persist device_id
          (record s { conversations = insert device_id (mark_read c) s.conversations })
]

-- `delete`: a file that is there has to be removed (one that a write has cut counts as absent).
unfoldable pub delete :
    (device_id : Text) → MessageStore → MessageStore × Result StoreError (Unit {0})
delete device_id s =
    let s' = record s { conversations = erase device_id s.conversations } in
    if contains_key device_id s.files
    then if s.writable
      then (record s' { files = erase device_id s.files }, ok tt)
      else (s', err write_failed)
    else (s', ok tt)

-- `total_unread`: a sum on `u32`.
unfoldable pub unread_of : List Conversation → ℕ
unread_of [] = 0
unread_of (c ∷ cs) = (c.unread + unread_of cs) % 2 ^ 32

unfoldable pub total_unread : MessageStore → ℕ
unfolding unread_of values
total_unread s = unread_of (values s.conversations)
