-- ===== src/Native/Transfer/Uploading.antt =====
-- `capsi_file_send` of flutter/native/src/lib.rs: the offer, the history and the whole call.
use capsi.Base.{
  ℕ, true, not, Option, none, some, List, ◌∷◌, if◌then◌else◌, length, Text, codes, Result, ok, err,
  guard, ok_or, ◌>>=◌, ◌>>◌,
}
use capsi.Protocol.Message.{FileOffer, file_offer, Envelope, new_envelope}
use capsi.Identity.Device.{DeviceId, from_hex}
use capsi.Identity.Keys.{Primitives}
use capsi.Identity.Trust.{KnownDevice, get}
use capsi.Storage.Conversation.{StoredFile, StoredMessage, new_file_message}
use capsi.Storage.Store.{MessageStore, StoreError, append}
use capsi.Util.{safe_file_name}
use capsi.Native.Outbox.{socket_of, if_trusted}
use capsi.Native.Inbox.{DataDir, load_messages, with_messages, digest_hex}
use capsi.Native.Inbox.Files.{transfer_chunk_size}
use capsi.Native.Transfer.{
  FileError, device_invalid, trust_list_missing, not_trusted, no_address, identity_missing,
  no_metadata, not_a_file, no_digest, not_opened, not_loaded, not_stored, runtime_missing, not_sent,
  wait_timed_out, Upload, div_ceil, enough_rounds, wait_for_receipt, Sent, ended, send_chunks,
}

module _ (p : Primitives) (base64_encode : List ℕ → Text) (u : Upload) where
  -- `file_name().and_then(|n| n.to_str()).unwrap_or("capsi-file")`, made safe.
  unfoldable pub upload_name : Text
  unfolding safe_file_name
  upload_name = elim u.file_name [
    | none ↦ safe_file_name (codes "capsi-file")
    | some name ↦ safe_file_name name
  ]

  unfoldable pub make_offer : (contents : List ℕ) → FileOffer
  unfolding digest_hex div_ceil upload_name
  make_offer contents = record {
    transfer_id = u.transfer_id;
    file_name = upload_name;
    size = length contents;
    digest = digest_hex p contents;
    chunks = div_ceil (length contents) transfer_chunk_size;
  }

  abbrev with_path : Option StoredFile → Option StoredFile
  with_path none = none
  with_path (some f) = some (record f { local_path = some u.path })

  unfoldable pub outgoing_file : FileOffer → StoredMessage
  unfolding new_file_message
  outgoing_file offer =
      let stored = new_file_message u.message_id u.env.now_millis offer true in
      record stored { file = with_path stored.file }

  -- Everything in front of the history: the peer, its address, the bytes of the file and the store.
  unfoldable pub prepare_upload :
      (device_id : DeviceId)
      → DataDir
      → Result FileError (KnownDevice × Text × List ℕ × MessageStore)
  unfolding get load_messages
  prepare_upload device_id dir = do
    trust ← ok_or dir.disk.trust trust_list_missing
    peer ← ok_or (if_trusted (get device_id trust)) not_trusted
    address ← ok_or peer.last_address no_address
    contents ← ok_or u.contents no_metadata
    guard u.is_file not_a_file
    guard u.can_read no_digest
    own ← ok_or dir.disk.own_id identity_missing
    messages ← ok_or (load_messages dir) not_loaded
    ok (peer, address, contents, messages)

  -- The wait and the chunks, after the offer has gone out. The wait does not run out of fuel if a
  -- round takes the time of its sleep.
  abbrev pub after_wait : Option (Result FileError (Unit {0})) → (chunks : Sent) → Sent
  after_wait none chunks = ended (err wait_timed_out)
  after_wait (some (err e)) chunks = ended (err e)
  after_wait (some (ok _)) chunks = if u.can_open then chunks else ended (err not_opened)

  abbrev pub prefixed : Envelope → Sent → Sent
  prefixed envelope s = record s { envelopes = envelope ∷ s.envelopes }

  unfoldable pub send_offer : (socket : Text) (device_id : DeviceId) (contents : List ℕ) → Sent
  unfolding make_offer new_envelope wait_for_receipt send_chunks
  send_offer socket device_id contents =
      let offer = make_offer contents in
      let envelope = new_envelope (u.env.new_id 0) u.env.now_millis (file_offer offer) in
      if not u.env.has_runtime
      then ended (err runtime_missing)
      else if not (u.env.connect_and_send socket device_id envelope)
      then ended (err not_sent)
      else prefixed envelope (
          after_wait (wait_for_receipt u enough_rounds 0) (
            send_chunks p base64_encode u socket device_id (length contents) offer.chunks 0
              contents))

  abbrev pub upload_stored :
      (device_id : DeviceId) (address : Text) (contents : List ℕ)
      → DataDir
      → MessageStore × Result StoreError (Unit {0})
      → DataDir × Sent
  upload_stored device_id address contents dir (s, err e) =
      (with_messages s dir, ended (err (not_stored e)))
  upload_stored device_id address contents dir (s, ok _) =
      (with_messages s dir, send_offer (socket_of address) device_id contents)

  -- The history has the file before the offer goes out.
  unfoldable pub send_file : (device_id : DeviceId) → DataDir → DataDir × Sent
  unfolding prepare_upload append outgoing_file send_offer socket_of
  send_file device_id dir = elim (prepare_upload device_id dir) [
    | err e ↦ (dir, ended (err e))
    | ok (peer, address, contents, messages) ↦
        upload_stored device_id address contents dir (
          append device_id peer.name u.env.now_millis (outgoing_file (make_offer contents))
            messages)
  ]

  unfoldable pub capsi_file_send : (device_id : Option Text) → DataDir → DataDir × Sent
  unfolding from_hex send_file
  capsi_file_send none dir = (dir, ended (err device_invalid))
  capsi_file_send (some device) dir = elim (from_hex device) [
    | err e ↦ (dir, ended (err device_invalid))
    | ok device_id ↦ send_file device_id dir
  ]
