-- ===== src/Native/Inbox/Confined/Files.antt =====
-- The arms for offers, chunks and receipts of files touch what is the sender's.
use capsi.Base.{
  ℕ, ◌≡◌, refl, ap, ◌∙◌, inl, inr, false, Option, none, some, List, [], ◌++◌, arith, ltb, leb,
  Bool-cases, Option-cases, length, take, Text, text_eq, Result, ok, err, Result-cases,
}
use capsi.Base.Maps.{lookup, insert}
use capsi.Protocol.Message.{FileOffer, FileReceipt, file_offer}
use capsi.Identity.Keys.{Primitives}
use capsi.Identity.Trust.{KnownDevice}
use capsi.Storage.Conversation.{TransferState, complete, broken_off, StoredFile}
use capsi.Storage.Store.{MessageStore, StoreError, append, update_transfer}
use capsi.Storage.Store.Apart.{files-append, files-update_transfer}
use capsi.Native.Inbox.{DataDir, Arrival, load_messages, with_messages, transfer_of}
use capsi.Native.Inbox.Files.{
  temp_path, final_path, offered_message, Chunk, answer_offer, make_temp, take_offer, admit_chunk,
  is_whole, finish_file, write_chunk, take_chunk, receipt_state, removes_file, remove_file,
  local_path_of, take_file_receipt,
}
use capsi.Native.Inbox.Confined.{
  IsAbout, IsOwnFile, made, recorded, placed, IsConfined, files-load_messages, unchanged-IsConfined,
  with_messages-IsConfined, insert-IsConfined, erase-IsConfined,
}

module _ (p : Primitives) (a : Arrival) (dir : DataDir) where
  -- A call of the loaded store that keeps the other files.
  stored_apart :
      (s : MessageStore)
      → load_messages dir ≡ some s
      → (s' : MessageStore)
      → ((other : Text)
          → text_eq a.peer_id other ≡ false
          → lookup other s'.files ≡ lookup other s.files)
      → (other : Text) → text_eq a.peer_id other ≡ false
      → lookup other s'.files ≡ lookup other dir.conversations
  stored_apart s loaded s' kept other apart =
      kept other apart ∙ ap (lookup other) (files-load_messages dir s loaded)

  answer_offer-IsConfined :
      (offer : FileOffer) (known : KnownDevice) (dir' : DataDir)
      (r : MessageStore × Result StoreError (Unit {0}))
      → IsConfined a dir (with_messages r.0 dir')
      → IsConfined a dir (answer_offer p a offer known dir' r).data_dir
  answer_offer-IsConfined offer known dir' (s, err e) h = h
  answer_offer-IsConfined offer known dir' (s, ok _) h = h

  make_temp-IsConfined :
      (offer : FileOffer) (dir' : DataDir)
      → a.envelope.message ≡ file_offer offer
      → make_temp p a (temp_path a.fs.root offer.transfer_id) dir ≡ ok dir'
      → IsConfined a dir dir'
  unfolding make_temp
  make_temp-IsConfined offer dir' has e =
      let path = temp_path a.fs.root offer.transfer_id in
      let same : record dir { files = insert path [] dir.files } ≡ dir' = ground arith in
      rw (← same) (insert-IsConfined unchanged-IsConfined path [] (made offer has refl))

  pub take_offer-IsConfined :
      (offer : FileOffer) (known : KnownDevice)
      → a.envelope.message ≡ file_offer offer
      → IsConfined a dir (take_offer p a offer known dir).data_dir
  unfolding take_offer
  take_offer-IsConfined offer known has = elim (Option-cases (load_messages dir)) [
    | inl missing ↦ rw (missing, take_offer) unchanged-IsConfined
    | inr (s, loaded) ↦
        elim (Result-cases (make_temp p a (temp_path a.fs.root offer.transfer_id) dir)) [
          | inr (e, failing) ↦ rw (loaded, take_offer, failing) unchanged-IsConfined
          | inl (dir', there) ↦
              let path = temp_path a.fs.root offer.transfer_id in
              let r =
                append a.peer_id known.name a.env.now_millis (offered_message a.envelope path offer)
                  s in
              rw (loaded, take_offer, there)
                (answer_offer-IsConfined offer known dir' r (
                  with_messages-IsConfined (make_temp-IsConfined offer dir' has there) r.0 (
                    stored_apart s loaded r.0 (λ other apart.
                      files-append a.peer_id other apart known.name a.env.now_millis
                        (offered_message a.envelope path offer) s))))
        ]
  ]

  -- A chunk that passed the tests is of a transfer of the sender.
  IsChunk : (transfer_id : Text) → Chunk → Type 0
  IsChunk transfer_id c =
      (load_messages dir ≡ some c.messages)
      × (transfer_of a.peer_id transfer_id c.messages ≡ some c.file)
      × (c.file.local_path ≡ some c.path)

  admit_chunk-IsChunk :
      (transfer_id : Text) (index : ℕ) (digest chunk : Text) (c : Chunk)
      → admit_chunk p a transfer_id index digest chunk dir ≡ ok c
      → IsChunk transfer_id c
  unfolding admit_chunk IsChunk
  admit_chunk-IsChunk transfer_id index digest chunk c h = ground arith

  -- The record of a transfer with a new state.
  updated_apart :
      (transfer_id : Text) (state : TransferState) (local_path : Option Text) (s : MessageStore)
      → load_messages dir ≡ some s
      → (other : Text) → text_eq a.peer_id other ≡ false
      → lookup other (update_transfer a.peer_id transfer_id state local_path s).0.files
        ≡ lookup other dir.conversations
  updated_apart transfer_id state local_path s loaded =
      let s' = (update_transfer a.peer_id transfer_id state local_path s).0 in
      stored_apart s loaded s'
        (λ other apart. files-update_transfer a.peer_id other apart transfer_id state local_path s)

  module _ (transfer_id : Text) (c : Chunk) (about : IsAbout a transfer_id)
      (h : IsChunk transfer_id c) where
    path-IsOwnFile : IsOwnFile a dir c.path
    unfolding IsChunk
    path-IsOwnFile = recorded transfer_id c.messages c.file about h.0 h.1 h.2

    place-IsOwnFile : IsOwnFile a dir (final_path a.fs.root c.file.file_name)
    unfolding IsChunk
    place-IsOwnFile = placed transfer_id c.messages c.file about h.0 h.1 refl

    finish_file-IsConfined :
        (written : List ℕ) (dir' : DataDir)
        → IsConfined a dir dir'
        → IsConfined a dir (finish_file p a transfer_id c written dir').data_dir
    unfolding finish_file IsChunk
    finish_file-IsConfined written dir' confined = elim (Bool-cases (is_whole p a c written)) [
      | inr partial ↦ rw partial (
          with_messages-IsConfined confined
            ((update_transfer a.peer_id transfer_id broken_off none c.messages).0)
            (updated_apart transfer_id broken_off none c.messages h.0))
      | inl whole ↦
          let place = final_path a.fs.root c.file.file_name in
          elim (Bool-cases (a.fs.can_rename c.path place)) [
            | inr fixed ↦ rw (whole, fixed) confined
            | inl movable ↦
                rw (whole, movable)
                  (with_messages-IsConfined
                    (insert-IsConfined (erase-IsConfined confined c.path path-IsOwnFile) place
                      written place-IsOwnFile)
                    ((update_transfer a.peer_id transfer_id complete (some place) c.messages).0)
                    (updated_apart transfer_id complete (some place) c.messages h.0))
          ]
    ]

    write_chunk-IsConfined : IsConfined a dir (write_chunk p a transfer_id c dir).data_dir
    unfolding write_chunk
    write_chunk-IsConfined =
        let written = c.present ++ take (a.fs.room c.path) c.raw in
        let confined = insert-IsConfined unchanged-IsConfined c.path written path-IsOwnFile in
        elim (Bool-cases (ltb (a.fs.room c.path) (length c.raw))) [
          | inl short ↦ rw short confined
          | inr fits ↦ elim (Bool-cases (leb c.file.size (length written))) [
            | inl last ↦ rw (fits, last) (finish_file-IsConfined written _ confined)
            | inr more ↦ rw (fits, more) confined
          ]
        ]

  pub take_chunk-IsConfined :
      (transfer_id : Text) (index : ℕ) (digest chunk : Text)
      → IsAbout a transfer_id
      → IsConfined a dir (take_chunk p a transfer_id index digest chunk dir).data_dir
  unfolding take_chunk
  take_chunk-IsConfined transfer_id index digest chunk about =
      elim (Result-cases (admit_chunk p a transfer_id index digest chunk dir)) [
        | inr (e, refused) ↦ rw (refused, take_chunk) unchanged-IsConfined
        | inl (c, admitted) ↦
            rw (admitted, take_chunk)
              (write_chunk-IsConfined transfer_id c about
                (admit_chunk-IsChunk transfer_id index digest chunk c admitted))
      ]

  remove_file-IsConfined :
      (transfer_id : Text) (s : MessageStore) (dir' : DataDir)
      → IsAbout a transfer_id
      → load_messages dir ≡ some s
      → IsConfined a dir dir'
      → (f : Option StoredFile) → transfer_of a.peer_id transfer_id s ≡ f
      → IsConfined a dir (record dir' { files = remove_file p a (local_path_of p a f) dir'.files })
  unfolding remove_file
  remove_file-IsConfined transfer_id s dir' about loaded confined none e = confined
  remove_file-IsConfined transfer_id s dir' about loaded confined (some f) e =
      elim (Option-cases f.local_path) [
        | inl none_known ↦ rw none_known confined
        | inr (path, known) ↦ elim (Bool-cases (a.fs.can_remove path)) [
          | inr kept ↦ rw (known, kept) confined
          | inl gone ↦
              rw (known, gone)
                (erase-IsConfined confined path (recorded transfer_id s f about loaded e known))
        ]
      ]

  pub take_file_receipt-IsConfined :
      (transfer_id : Text) (state : FileReceipt)
      → IsAbout a transfer_id
      → IsConfined a dir (take_file_receipt p a transfer_id state dir).data_dir
  unfolding take_file_receipt
  take_file_receipt-IsConfined transfer_id state about = elim (Option-cases (load_messages dir)) [
    | inl missing ↦ rw (missing, take_file_receipt) unchanged-IsConfined
    | inr (s, loaded) ↦
        let s' = (update_transfer a.peer_id transfer_id (receipt_state p a state) none s).0 in
        let confined =
          with_messages-IsConfined unchanged-IsConfined s'
            (updated_apart transfer_id (receipt_state p a state) none s loaded) in
        elim (Bool-cases (removes_file p a state)) [
          | inr kept ↦ rw (loaded, take_file_receipt, kept) confined
          | inl removed ↦
              rw (loaded, take_file_receipt, removed)
                (remove_file-IsConfined transfer_id s (with_messages s' dir) about loaded confined
                  (transfer_of a.peer_id transfer_id s) refl)
        ]
  ]
