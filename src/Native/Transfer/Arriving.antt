-- ===== src/Native/Transfer/Arriving.antt =====
-- The chunks that `capsi_file_send` sends, taken in by the listener of the other device.
use capsi.Base.{
  ℕ, ◌*◌, ◌/◌, ◌≤◌, ◌<◌, ◌≡◌, refl, true, false, some, List, ◌++◌, arith, ltb, leb, ◌==◌, length,
  take_whole, Text, text_eq_refl, ok,
}
use capsi.Base.Maps.{TextMap, lookup, insert, erase, contains_key-some}
use capsi.Identity.Keys.{Primitives}
use capsi.Storage.Conversation.{transferring, complete, StoredFile}
use capsi.Storage.Store.{MessageStore, update_transfer}
use capsi.Native.Inbox.{DataDir, FileSystem, Arrival, load_messages, digest_hex, transfer_of}
use capsi.Native.Inbox.Files.{
  transfer_chunk_size, final_path, Chunk, admit_chunk, finish_file, write_chunk, take_chunk,
}

module _ (p : Primitives) where
  -- The record of an accepted transfer of these bytes.
  abbrev pub accepted_file : (transfer_id file_name path : Text) (contents : List ℕ) → StoredFile
  accepted_file transfer_id file_name path contents = record {
    transfer_id = transfer_id;
    file_name = file_name;
    size = length contents;
    digest = digest_hex p contents;
    local_path = some path;
    state = transferring;
  }

-- A store that can be loaded, and a file system that lets a file be written, read and moved.
pub record IsReceiving (fs : FileSystem) (path place : Text) (s : MessageStore) (dir : DataDir)
    : Type 0 where
  pub loaded : load_messages dir ≡ some s
  pub opens : fs.can_open path ≡ true
  pub reads : fs.can_read path ≡ true
  pub fits : transfer_chunk_size ≤ fs.room path
  pub moves : fs.can_rename path place ≡ true

pub still-IsReceiving :
    {fs : FileSystem} {path place : Text} {s : MessageStore} {dir : DataDir}
    (h : IsReceiving fs path place s dir) (files : TextMap (List ℕ))
    → IsReceiving fs path place s (record dir { files = files })
unfolding load_messages
still-IsReceiving h files = record {
  loaded = h.loaded;
  opens = h.opens;
  reads = h.reads;
  fits = h.fits;
  moves = h.moves;
}

pub take_chunk_ok :
    (p : Primitives) (a : Arrival) (transfer_id : Text) (index : ℕ) (digest chunk : Text)
    (dir : DataDir) (c : Chunk)
    → admit_chunk p a transfer_id index digest chunk dir ≡ ok c
    → take_chunk p a transfer_id index digest chunk dir ≡ write_chunk p a transfer_id c dir
unfolding take_chunk
take_chunk_ok p a transfer_id index digest chunk dir c h = rw (h, take_chunk) refl

module _ (p : Primitives) (base64_encode : List ℕ → Text) (a : Arrival)
    (transfer_id file_name path : Text) (contents : List ℕ) (s : MessageStore) where
  abbrev pub place : Text
  place = final_path a.fs.root file_name

  abbrev pub chunk_at : (present raw : List ℕ) → Chunk
  chunk_at present raw = record {
    messages = s;
    file = accepted_file p transfer_id file_name path contents;
    path = path;
    present = present;
    raw = raw;
  }

  module _ (dir : DataDir) (h : IsReceiving a.fs path place s dir)
      (found : transfer_of a.peer_id transfer_id s
        ≡ some (accepted_file p transfer_id file_name path contents)) where
    pub admit_next :
        (index : ℕ) (present raw : List ℕ)
        → p.base64_decode (base64_encode raw) ≡ some raw
        → lookup path dir.files ≡ some present
        → length present ≡ index * transfer_chunk_size
        → admit_chunk p a transfer_id index (digest_hex p raw) (base64_encode raw) dir
          ≡ ok (chunk_at present raw)
    unfolding admit_chunk
    admit_next index present raw decoded there whole =
        let e : (index == length present / transfer_chunk_size) ≡ true = ground (arith, whole) in
        let has = contains_key-some path dir.files present there in
        rw (decoded, text_eq_refl (digest_hex p raw), h.loaded, found, there, e, has, h.opens) refl

    -- A chunk that fits is written, and more are awaited as long as bytes are missing.
    pub write_next :
        (present raw : List ℕ)
        → length raw ≤ transfer_chunk_size
        → length (present ++ raw) < length contents
        → (write_chunk p a transfer_id (chunk_at present raw) dir).data_dir
          ≡ record dir { files = insert path (present ++ raw) dir.files }
    unfolding write_chunk
    write_next present raw small more =
        let room : ltb (a.fs.room path) (length raw) ≡ false = ground (arith, h.fits) in
        let all_in = take_whole (a.fs.room path) raw (omega (arith, h.fits)) in
        let missing : leb (length contents) (length (present ++ raw)) ≡ false = ground arith in
        rw (room, all_in, missing) refl

    -- The directory when the file has arrived.
    abbrev pub complete_dir : DataDir
    complete_dir =
        let s' = (update_transfer a.peer_id transfer_id complete (some place) s).0 in
        record dir {
          conversations = s'.files;
          files = insert place contents (erase path (insert path contents dir.files));
        }

    pub write_last :
        (present raw : List ℕ)
        → length raw ≤ transfer_chunk_size
        → present ++ raw ≡ contents
        → (write_chunk p a transfer_id (chunk_at present raw) dir).data_dir ≡ complete_dir
    unfolding write_chunk finish_file
    write_last present raw small whole =
        let room : ltb (a.fs.room path) (length raw) ≡ false = ground (arith, h.fits) in
        let all_in = take_whole (a.fs.room path) raw (omega (arith, h.fits)) in
        let last : leb (length contents) (length contents) ≡ true = ground arith in
        let equal : (length contents == length contents) ≡ true = ground arith in
        rw
          (room, all_in, whole, last, equal, h.reads, text_eq_refl (digest_hex p contents), h.moves)
          refl
