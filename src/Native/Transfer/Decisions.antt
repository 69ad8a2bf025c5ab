-- ===== src/Native/Transfer/Decisions.antt =====
-- `send_file_receipt_action`, `file_transfer_action`, `capsi_file_accept`, `capsi_file_decline` and
-- `capsi_file_cancel` of flutter/native/src/lib.rs.
pub mod Decided
use capsi.Base.{
  ℕ, ◌/◌, Bool, true, false, not, ◌&&◌, Option, none, some, List, ◌==◌, if◌then◌else◌, length, find,
  Text, codes, Result, ok, err, guard, ok_or, ◌>>=◌, ◌>>◌,
}
use capsi.Base.Maps.{lookup, insert, erase, contains_key}
use capsi.Protocol.Message.{
  FileReceipt, accepted, declined, completed, cancelled, file_receipt, Envelope, new_envelope,
}
use capsi.Identity.Device.{DeviceId, from_hex}
use capsi.Identity.Trust.{get, nonblank, accept}
use capsi.Storage.Conversation.{
  TransferState, offered, transferring, complete, StoredFile, StoredMessage, Conversation,
  is_transfer, find_transfer,
}
use capsi.Storage.Store.{MessageStore, StoreError, update_transfer}
use capsi.Native.Outbox.{socket_of, if_trusted}
use capsi.Native.Inbox.{DataDir, FileSystem, load_messages, with_messages, join}
use capsi.Native.Inbox.Files.{transfer_chunk_size, final_path, bytes_of}
use capsi.Native.Transfer.{
  FileError, device_invalid, transfer_invalid, trust_list_missing, not_trusted, no_address,
  identity_missing, not_loaded, not_stored, runtime_missing, not_sent, conversation_not_found,
  transfer_not_found, not_awaiting, not_active, no_downloads, not_moved,
}
use capsi.Native.Disk.{Environment}

-- `matches!(state, Offered)`, and the states in which a transfer is no longer active.
abbrev pub is_offered : TransferState → Bool
is_offered offered = true
is_offered _ = false

abbrev pub is_final : TransferState → Bool
is_final complete = true
is_final TransferState.cancelled = true
is_final TransferState.declined = true
is_final _ = false

module _ (env : Environment) (fs : FileSystem) (device_id : DeviceId) (transfer_id : Text) where
  -- The receipt that went out.
  unfoldable pub send_file_receipt_action : FileReceipt → DataDir → Result FileError Envelope
  unfolding get socket_of new_envelope
  send_file_receipt_action state dir = do
    trust ← ok_or dir.disk.trust trust_list_missing
    peer ← ok_or (if_trusted (get device_id trust)) not_trusted
    address ← ok_or peer.last_address no_address
    own ← ok_or dir.disk.own_id identity_missing
    guard env.has_runtime runtime_missing
    let receipt : Envelope =
        new_envelope (env.new_id 0) env.now_millis (file_receipt transfer_id state)
    guard (env.connect_and_send (socket_of address) device_id receipt) not_sent
    ok receipt

  -- The conversation of the transfer in the store that was loaded.
  unfoldable pub find_conversation : DataDir → Result FileError (MessageStore × Conversation)
  unfolding load_messages
  find_conversation dir = do
    messages ← ok_or (load_messages dir) not_loaded
    c ← ok_or (lookup device_id messages.conversations) conversation_not_found
    ok (messages, c)

  -- `update_transfer(..)?`, and then the receipt.
  abbrev pub update_and_tell :
      FileReceipt
      → DataDir
      → MessageStore × Result StoreError Bool
      → DataDir × Result FileError Envelope
  update_and_tell receipt dir (s, err e) = (with_messages s dir, err (not_stored e))
  update_and_tell receipt dir (s, ok _) =
      let dir' = with_messages s dir in (dir', send_file_receipt_action receipt dir')

  -- The file that awaits a decision.
  unfoldable pub find_offered : DataDir → Result FileError (MessageStore × StoredFile)
  unfolding find_conversation find_transfer
  find_offered dir = do
    found ← find_conversation dir
    file ← ok_or (find_transfer transfer_id found.1) transfer_not_found
    guard (is_offered file.state) not_awaiting
    ok (found.0, file)

  -- `metadata.len() / TRANSFER_CHUNK_SIZE`, 0 without a file.
  abbrev pub next_chunk_of : Option Text → DataDir → ℕ
  next_chunk_of none dir = 0
  next_chunk_of (some path) dir = length (bytes_of (lookup path dir.files)) / transfer_chunk_size

  -- The move of an empty file.
  abbrev pub move_empty : Option Text → (place : Text) → DataDir → Result FileError DataDir
  move_empty none place dir = ok dir
  move_empty (some path) place dir = do
    guard (contains_key path dir.files && fs.can_rename path place) not_moved
    let bytes : List ℕ = bytes_of (lookup path dir.files)
    ok (record dir { files = insert place bytes (erase path dir.files) })

  unfoldable pub downloads_dir : Text
  unfolding join
  downloads_dir = join (join fs.root (codes "files")) (codes "downloads")

  -- An empty file is complete at once.
  unfoldable pub accept_empty :
      MessageStore → StoredFile → DataDir → DataDir × Result FileError Envelope
  unfolding final_path contains_key downloads_dir update_transfer send_file_receipt_action
  accept_empty messages file dir =
      let place = final_path fs.root file.file_name in
      if not (fs.can_make_dir downloads_dir)
      then (dir, err no_downloads)
      else elim (move_empty file.local_path place dir) [
        | err e ↦ (dir, err e)
        | ok dir' ↦
            update_and_tell completed dir'
              (update_transfer device_id transfer_id complete (some place) messages)
      ]

  abbrev pub without_file : Option Text → DataDir → DataDir
  without_file none dir = dir
  without_file (some path) dir =
      if fs.can_remove path then record dir { files = erase path dir.files } else dir

  -- What the user decides, on a file that is offered.
  unfoldable pub decide :
      (accept : Bool) → MessageStore → StoredFile → DataDir → DataDir × Result FileError Envelope
  unfolding accept_empty update_transfer send_file_receipt_action
  decide accept messages file dir =
      if not accept
      then update_and_tell FileReceipt.declined (without_file file.local_path dir)
          (update_transfer device_id transfer_id TransferState.declined none messages)
      else if file.size == 0
      then accept_empty messages file dir
      else update_and_tell (accepted (next_chunk_of file.local_path dir)) dir
          (update_transfer device_id transfer_id transferring none messages)

  unfoldable pub file_transfer_action :
      (accept : Bool) → DataDir → DataDir × Result FileError Envelope
  unfolding find_offered decide
  file_transfer_action accept dir = elim (find_offered dir) [
    | err e ↦ (dir, err e)
    | ok (messages, file) ↦ decide accept messages file dir
  ]

  -- The message of a transfer that is still active, with its file.
  abbrev pub file_in : Option StoredMessage → Option (Bool × StoredFile)
  file_in none = none
  file_in (some m) = elim m.file [ none ↦ none | some f ↦ some (m.outgoing, f) ]

  unfoldable pub find_active : DataDir → Result FileError (MessageStore × (Bool × StoredFile))
  unfolding find_conversation
  find_active dir = do
    found ← find_conversation dir
    file ← ok_or (file_in (find (is_transfer transfer_id) (found.1).messages)) transfer_not_found
    guard (not (is_final (file.1).state)) not_active
    ok (found.0, file)

  -- The history is written before a file that was coming in is removed.
  abbrev pub cancel_and_tell :
      (outgoing : Bool)
      → Option Text
      → DataDir
      → MessageStore × Result StoreError Bool
      → DataDir × Result FileError Envelope
  cancel_and_tell outgoing path dir (s, err e) = (with_messages s dir, err (not_stored e))
  cancel_and_tell outgoing path dir (s, ok _) =
      let dir' = with_messages s (if outgoing then dir else without_file path dir) in
      (dir', send_file_receipt_action FileReceipt.cancelled dir')

  unfoldable pub cancel_transfer : DataDir → DataDir × Result FileError Envelope
  unfolding find_active update_transfer send_file_receipt_action
  cancel_transfer dir = elim (find_active dir) [
    | err e ↦ (dir, err e)
    | ok (messages, (outgoing, file)) ↦
        cancel_and_tell outgoing file.local_path dir
          (update_transfer device_id transfer_id TransferState.cancelled none messages)
  ]

-- The three calls, with their arguments as they come.
pub data FileCall : Type 0 where
  accept_file decline_file cancel_file : FileCall

unfoldable pub perform_file_call :
    Environment
    → FileSystem
    → FileCall
    → (device_id transfer_id : Option Text) → DataDir
    → DataDir × Result FileError Envelope
unfolding from_hex file_transfer_action cancel_transfer
perform_file_call env fs call none transfer dir = (dir, err device_invalid)
perform_file_call env fs call (some device) transfer dir = elim (from_hex device) [
  | err e ↦ (dir, err device_invalid)
  | ok id ↦ elim (nonblank transfer) [
    | none ↦ (dir, err transfer_invalid)
    | some transfer_id ↦ elim call [
      | accept_file ↦ file_transfer_action env fs id transfer_id true dir
      | decline_file ↦ file_transfer_action env fs id transfer_id false dir
      | cancel_file ↦ cancel_transfer env fs id transfer_id dir
    ]
  ]
]
