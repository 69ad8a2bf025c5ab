-- ===== src/Native/Inbox/Files.antt =====
-- The arms of the listener of flutter/native/src/lib.rs for offers, chunks and receipts of files.
pub mod Receipts
use capsi.Base.{
  ℕ, ◌*◌, ◌/◌, Bool, true, false, not, ◌&&◌, Option, none, some, List, [], ◌∷◌, ◌++◌, ltb, leb,
  ◌==◌, if◌then◌else◌, length, take, Text, codes, text_eq, Result, ok, err, guard, ok_or, ◌>>=◌,
  ◌>>◌,
}
use capsi.Base.Maps.{TextMap, lookup, insert, erase, contains_key}
use capsi.Protocol.Message.{
  FileOffer, FileReceipt, accepted, declined, completed, failed, cancelled, file_receipt, Envelope,
}
use capsi.Identity.Keys.{Primitives}
use capsi.Identity.Trust.{KnownDevice}
use capsi.Storage.Conversation.{
  TransferState, offered, transferring, complete, broken_off, StoredFile, StoredMessage,
  new_file_message,
}
use capsi.Storage.Store.{MessageStore, StoreError, append, update_transfer}
use capsi.Native.Inbox.{
  DataDir, Arrival, Problem, messages_unreadable, directory_not_made, file_not_created,
  message_not_stored, chunk_invalid, chunk_digest_mismatch, unknown_transfer, no_local_path,
  transfer_not_accepted, chunk_out_of_order, file_not_opened, chunk_not_written, file_not_moved,
  file_mismatch, Event, file_offer_event, file_progress, file_complete, file_receipt_event,
  Reaction, nothing, only, refuse, load_messages, with_messages, join, digest_hex, reply_to,
  is_transferring, transfer_of,
}

-- `TRANSFER_CHUNK_SIZE`.
abbrev pub transfer_chunk_size : ℕ
transfer_chunk_size = 256 * 1024

unfoldable pub incoming_dir : (root : Text) → Text
unfolding join
incoming_dir root = join (join root (codes "files")) (codes "incoming")

unfoldable pub temp_path : (root transfer_id : Text) → Text
unfolding join incoming_dir
temp_path root transfer_id = join (incoming_dir root) (transfer_id ++ codes ".part")

unfoldable pub final_path : (root file_name : Text) → Text
unfolding join
final_path root file_name = join (join (join root (codes "files")) (codes "downloads")) file_name

-- The record of an offer that came in.
abbrev with_temp_path : (path : Text) → Option StoredFile → Option StoredFile
with_temp_path path none = none
with_temp_path path (some f) = some (record f { local_path = some path; state = offered })

unfoldable pub offered_message : Envelope → (path : Text) → FileOffer → StoredMessage
unfolding new_file_message
offered_message envelope path offer =
    let stored = new_file_message envelope.id envelope.sent_at offer false in
    record stored { file = with_temp_path path stored.file }

-- `metadata(..).map(|m| m.len()).unwrap_or(0)`, and the bytes behind it.
abbrev pub bytes_of : Option (List ℕ) → List ℕ
bytes_of none = []
bytes_of (some bytes) = bytes

-- A chunk that passed the tests: the store that was loaded, the record and path of its file, and
-- the bytes that are there and those that came.
pub record Chunk : Type 0 where
  pub messages : MessageStore
  pub file : StoredFile
  pub path : Text
  pub present : List ℕ
  pub raw : List ℕ

module _ (p : Primitives) (a : Arrival) where
  abbrev pub answer_offer :
      FileOffer → KnownDevice → DataDir → MessageStore × Result StoreError (Unit {0}) → Reaction
  answer_offer offer known dir (s, err e) = refuse (message_not_stored e) (with_messages s dir)
  answer_offer offer known dir (s, ok _) =
      only
        (file_offer_event a.peer_id known.name offer.transfer_id offer.file_name offer.size
          offer.chunks)
        (with_messages s dir)

  -- The file system before the record: a file that is there is emptied.
  unfoldable pub make_temp : (path : Text) → DataDir → Result Problem DataDir
  unfolding incoming_dir
  make_temp path dir = do
    guard (a.fs.can_make_dir (incoming_dir a.fs.root)) directory_not_made
    guard (a.fs.can_create path) file_not_created
    ok (record dir { files = insert path [] dir.files })

  unfoldable pub take_offer : FileOffer → KnownDevice → DataDir → Reaction
  unfolding load_messages make_temp temp_path offered_message append
  take_offer offer known dir = elim (load_messages dir) [
    | none ↦ refuse messages_unreadable dir
    | some messages ↦
        let path = temp_path a.fs.root offer.transfer_id in
        elim (make_temp path dir) [
          | err e ↦ refuse e dir
          | ok dir' ↦ answer_offer offer known dir' (
              append a.peer_id known.name a.env.now_millis (offered_message a.envelope path offer)
                messages)
        ]
  ]

  -- The tests in front of the first write.
  unfoldable pub admit_chunk :
      (transfer_id : Text) (index : ℕ) (digest chunk : Text) → DataDir → Result Problem Chunk
  unfolding digest_hex load_messages transfer_of
  admit_chunk transfer_id index digest chunk dir = do
    raw ← ok_or (p.base64_decode chunk) chunk_invalid
    guard (text_eq (digest_hex p raw) digest) (chunk_digest_mismatch transfer_id)
    messages ← ok_or (load_messages dir) messages_unreadable
    file ← ok_or (transfer_of a.peer_id transfer_id messages) (unknown_transfer transfer_id)
    guard (is_transferring file.state) (transfer_not_accepted transfer_id file.state)
    path ← ok_or file.local_path (no_local_path transfer_id)
    let present : List ℕ = bytes_of (lookup path dir.files)
    let expected : ℕ = length present / transfer_chunk_size
    guard (index == expected) (chunk_out_of_order transfer_id expected index)
    guard (contains_key path dir.files && a.fs.can_open path) file_not_opened
    ok (record { messages = messages; file = file; path = path; present = present; raw = raw })

  -- The end of a file: its size and digest, its place among the downloads, and the receipt.
  abbrev pub is_whole : Chunk → (written : List ℕ) → Bool
  is_whole c written =
      (length written == c.file.size)
      && a.fs.can_read c.path
      && text_eq (digest_hex p written) c.file.digest

  unfoldable pub finish_file :
      (transfer_id : Text) → Chunk → (written : List ℕ) → DataDir → Reaction
  unfolding update_transfer final_path reply_to
  finish_file transfer_id c written dir =
      let place = final_path a.fs.root c.file.file_name in
      let moved = record dir { files = insert place written (erase c.path dir.files) } in
      if not (is_whole c written)
      then refuse (file_mismatch transfer_id)
          (with_messages ((update_transfer a.peer_id transfer_id broken_off none c.messages).0) dir)
      else if not (a.fs.can_rename c.path place)
      then refuse file_not_moved dir
      else record {
        data_dir =
            with_messages
              ((update_transfer a.peer_id transfer_id complete (some place) c.messages).0) moved;
        events = file_complete a.peer_id transfer_id c.file.file_name c.file.size ∷ [];
        replies = reply_to a (file_receipt transfer_id completed) ∷ [];
      }

  abbrev pub after_event : Event → Reaction → Reaction
  after_event event r = record r { events = event ∷ r.events }

  -- The write, which may stop in the middle, and what follows it.
  unfoldable pub write_chunk : (transfer_id : Text) → Chunk → DataDir → Reaction
  unfolding finish_file
  write_chunk transfer_id c dir =
      let written = c.present ++ take (a.fs.room c.path) c.raw in
      let dir' = record dir { files = insert c.path written dir.files } in
      if ltb (a.fs.room c.path) (length c.raw)
      then refuse chunk_not_written dir'
      else after_event (file_progress a.peer_id transfer_id (length written) c.file.size) (
          if leb c.file.size (length written)
          then finish_file transfer_id c written dir'
          else nothing dir')

  unfoldable pub take_chunk :
      (transfer_id : Text) (index : ℕ) (digest chunk : Text) → DataDir → Reaction
  unfolding admit_chunk write_chunk
  take_chunk transfer_id index digest chunk dir =
      elim (admit_chunk transfer_id index digest chunk dir) [
        | err e ↦ refuse e dir
        | ok c ↦ write_chunk transfer_id c dir
      ]

  -- The transfer state that a receipt stands for, and whether the local file is removed.
  abbrev pub receipt_state : FileReceipt → TransferState
  receipt_state (accepted next_chunk) = transferring
  receipt_state FileReceipt.declined = TransferState.declined
  receipt_state completed = complete
  receipt_state failed = broken_off
  receipt_state FileReceipt.cancelled = TransferState.cancelled

  abbrev pub removes_file : FileReceipt → Bool
  removes_file FileReceipt.declined = true
  removes_file FileReceipt.cancelled = true
  removes_file _ = false

  unfoldable pub remove_file : Option Text → TextMap (List ℕ) → TextMap (List ℕ)
  remove_file none files = files
  remove_file (some path) files = if a.fs.can_remove path then erase path files else files

  abbrev pub local_path_of : Option StoredFile → Option Text
  local_path_of none = none
  local_path_of (some f) = f.local_path

  unfoldable pub take_file_receipt : (transfer_id : Text) → FileReceipt → DataDir → Reaction
  unfolding load_messages transfer_of update_transfer remove_file
  take_file_receipt transfer_id state dir =
      only (file_receipt_event a.peer_id transfer_id state) (elim (load_messages dir) [
        | none ↦ dir
        | some messages ↦
            let path = local_path_of (transfer_of a.peer_id transfer_id messages) in
            let s = (update_transfer a.peer_id transfer_id (receipt_state state) none messages).0 in
            record dir {
              conversations = s.files;
              files = if removes_file state then remove_file path dir.files else dir.files;
            }
      ])
