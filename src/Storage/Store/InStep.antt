-- ===== src/Storage/Store/InStep.antt =====
-- The conversations in memory against the files.
use capsi.Base.{
  ℕ, ◌≡◌, refl, ap, inl, inr, Bool, true, false, Option, some, List, [], ◌∷◌, arith, ◌==◌,
  if◌then◌else◌, Bool-cases, Option-cases, any, update_first, Text, text_eq, text_eq_iff,
  text_eq_refl, ℤ, ok, err,
}
use capsi.Base.Maps.{
  TextMap, insert-insert, lookup, insert, contains_key, lookup-insert, lookup-erase,
}
use capsi.Storage.Conversation.{
  TransferState, StoredMessage, Conversation, push, mark_read, is_transfer, set_message_state,
  set_transfer_state, trim_history,
}
use capsi.Storage.Store.{
  MessageStore, write_failed, not_written, named, found_or_new, set_limit, persist, conversation,
  append, persist_if, update_transfer, mark_conversation_read, delete,
}

-- Every conversation is in its file as it is in memory, and no other file is there.
abbrev pub IsInStep : MessageStore → Type 0
IsInStep s = (id : Text) → lookup id s.files ≡ lookup id s.conversations

-- Writing a conversation that has just been put into the memory.
pub persist_new :
    (device_id : Text) (c : Conversation) (s : MessageStore)
    → persist device_id (record s { conversations = insert device_id c s.conversations }) ≡ (
        if s.writable
        then (
          record s {
            conversations = insert device_id c s.conversations;
            files = insert device_id c s.files;
          },
          ok tt,
        )
        else (
          not_written device_id (record s { conversations = insert device_id c s.conversations }),
          err write_failed,
        ))
unfolding persist
persist_new device_id c s =
    let found = lookup-insert device_id device_id c s.conversations in
    rw (found, persist, text_eq_refl device_id)

module _ (device_id : Text) (c : Conversation) (s : MessageStore) (h : IsInStep s) where
  both_inserted : IsInStep (record s {
    conversations = insert device_id c s.conversations;
    files = insert device_id c s.files;
  })
  both_inserted id =
      rw (lookup-insert id device_id c s.files, lookup-insert id device_id c s.conversations)
        (ground (arith, h id))

  persist-IsInStep :
      s.writable ≡ true
      → let (after, result) =
          persist device_id (record s { conversations = insert device_id c s.conversations }) in
        (result ≡ ok tt)
        × IsInStep after
        × ((id : Text)
            → lookup id after.conversations
              ≡ (if text_eq device_id id then some c else lookup id s.conversations))
  persist-IsInStep w =
      rw (persist_new device_id c s, w)
        (refl, both_inserted, λ id. lookup-insert id device_id c s.conversations)

  -- A conversation put back as it was.
  same_inserted :
      lookup device_id s.conversations ≡ some c
      → IsInStep (record s { conversations = insert device_id c s.conversations })
  same_inserted e id =
      rw (lookup-insert id device_id c s.conversations)
        (ground (arith, h id, h device_id, text_eq_iff device_id id))

-- The conversation that a message is appended to, with it.
abbrev pub with_message :
    (device_id name : Text) (now : ℤ) → StoredMessage → MessageStore → Conversation
with_message device_id name now message s =
    trim_history s.limit (push message (conversation device_id name now s).1)

pub append-persist :
    (device_id name : Text) (now : ℤ) (message : StoredMessage) (s : MessageStore)
    → append device_id name now message s
      ≡ persist device_id (record s {
        conversations =
            insert device_id (with_message device_id name now message s) s.conversations;
      })
unfolding append conversation
append-persist device_id name now message s =
    let c = named name (found_or_new device_id name now (lookup device_id s.conversations)) in
    ap (λ (m : TextMap Conversation). persist device_id (record s { conversations = m }))
      (insert-insert device_id c (trim_history s.limit (push message c)) s.conversations)

-- With a disk that takes writes, a message that is appended is in the history of its conversation,
-- pushed and trimmed, the other conversations stay as they are, and the memory stays in step with
-- the files.
pub append-IsInStep :
    (device_id name : Text) (now : ℤ) (message : StoredMessage) (s : MessageStore)
    → IsInStep s
    → s.writable ≡ true
    → let (after, result) = append device_id name now message s in
      (result ≡ ok tt)
      × IsInStep after
      × ((id : Text)
          → lookup id after.conversations ≡ (
              if text_eq device_id id
              then some (with_message device_id name now message s)
              else lookup id s.conversations))
append-IsInStep device_id name now message s h w =
    rw (append-persist device_id name now message s)
      (persist-IsInStep device_id (with_message device_id name now message s) s h w)

update_first_none :
    {A : Type 0} (p : A → Bool) (f : A → A) (xs : List A)
    → any p xs ≡ false
    → update_first p f xs ≡ xs
update_first_none p f [] h = refl
update_first_none p f (x ∷ xs) h = ground (arith, update_first_none p f xs)

update_transfer-IsInStep :
    (device_id transfer_id : Text) (state : TransferState) (local_path : Option Text)
    (s : MessageStore)
    → IsInStep s
    → s.writable ≡ true
    → IsInStep (update_transfer device_id transfer_id state local_path s).0
unfolding update_transfer persist_if set_transfer_state
update_transfer-IsInStep device_id transfer_id state local_path s h w =
    elim (Option-cases (lookup device_id s.conversations)) [
      | inl missing ↦ rw (missing, update_transfer) h
      | inr (c, e) ↦ elim (Bool-cases (any (is_transfer transfer_id) c.messages)) [
        | inl there ↦
            rw (e, update_transfer, there)
              ((persist-IsInStep device_id (set_transfer_state transfer_id state local_path c).0 s h
                w).1)
        | inr absent ↦
            let same =
              update_first_none (is_transfer transfer_id) (set_message_state state local_path)
                c.messages absent in
            rw (e, update_transfer, absent, same) (same_inserted device_id c s h e)
      ]
    ]

mark_conversation_read-IsInStep :
    (device_id : Text) (s : MessageStore)
    → IsInStep s
    → s.writable ≡ true
    → IsInStep (mark_conversation_read device_id s).0
unfolding mark_conversation_read
mark_conversation_read-IsInStep device_id s h w =
    elim (Option-cases (lookup device_id s.conversations)) [
      | inl missing ↦ rw (missing, mark_conversation_read) h
      | inr (c, e) ↦ elim (Bool-cases (c.unread == 0)) [
        | inl seen ↦ rw (e, mark_conversation_read, seen) h
        | inr unseen ↦
            rw (e, mark_conversation_read, unseen)
              ((persist-IsInStep device_id (mark_read c) s h w).1)
      ]
    ]

delete-IsInStep :
    (device_id : Text) (s : MessageStore)
    → IsInStep s
    → s.writable ≡ true
    → IsInStep (delete device_id s).0
unfolding delete contains_key
delete-IsInStep device_id s h w id = elim (Option-cases (lookup device_id s.files)) [
  | inl missing ↦
      rw (missing, delete, contains_key, lookup-erase id device_id s.conversations)
        (ground (arith, h id, h device_id, text_eq_iff device_id id))
  | inr (c, e) ↦
      rw
        (
          e,
          delete,
          contains_key,
          w,
          lookup-erase id device_id s.conversations,
          lookup-erase id device_id s.files,
        )
        (ground (arith, h id))
]

-- The calls that keep the files up to date. `conversation` and `conversations_mut_for_internal`,
-- which hand out an entry of the memory, and `mark_delivery_delivered` are not among them.
pub data Upkeep : Type 0 where
  appending : (device_id name : Text) (now : ℤ) → StoredMessage → Upkeep
  updating : (device_id transfer_id : Text) → TransferState → (local_path : Option Text) → Upkeep
  reading : (device_id : Text) → Upkeep
  deleting : (device_id : Text) → Upkeep
  limiting : ℕ → Upkeep

abbrev pub keep_up : Upkeep → MessageStore → MessageStore
keep_up (appending device_id name now message) s = (append device_id name now message s).0
keep_up (updating device_id transfer_id state local_path) s =
    (update_transfer device_id transfer_id state local_path s).0
keep_up (reading device_id) s = (mark_conversation_read device_id s).0
keep_up (deleting device_id) s = (delete device_id s).0
keep_up (limiting limit) s = set_limit limit s

-- With a disk that takes writes, `append`, `update_transfer`, `mark_read`, `delete` and `set_limit`
-- keep the memory in step with the files.
pub keep_up-IsInStep :
    (call : Upkeep) (s : MessageStore) → IsInStep s → s.writable ≡ true → IsInStep (keep_up call s)
keep_up-IsInStep (appending device_id name now message) s h w =
    (append-IsInStep device_id name now message s h w).1
keep_up-IsInStep (updating device_id transfer_id state local_path) s h w =
    update_transfer-IsInStep device_id transfer_id state local_path s h w
keep_up-IsInStep (reading device_id) s h w = mark_conversation_read-IsInStep device_id s h w
keep_up-IsInStep (deleting device_id) s h w = delete-IsInStep device_id s h w
keep_up-IsInStep (limiting limit) s h w = unfold set_limit in h
