-- ===== src/Native/Transfer/RoundTrip.antt =====
-- A file that `capsi_file_send` sends arrives whole at the listener of the other device.
use capsi.Base.{
  ℕ, zero, suc, ◌+◌, ◌*◌, ◌≤◌, ◌<◌, min, ◌≡◌, refl, ap, ◌∙◌, inl, inr, true, some, List, [], ◌∷◌,
  ◌++◌, arith, leb, leb→le, Bool-cases, leb-false, length, take, drop, all, length-append,
  length-take, take_whole, take-append-drop_rest, drop_whole, append_assoc, Text, text_eq_refl, ok,
}
use capsi.Base.Maps.{lookup, insert, erase, lookup-insert}
use capsi.Protocol.Message.{Message, file_chunk, Envelope, new_envelope}
use capsi.Identity.Device.{DeviceId}
use capsi.Identity.Keys.{Primitives}
use capsi.Identity.Trust.{KnownDevice}
use capsi.Storage.Conversation.{
  transferring, complete, Conversation, set_transfer_state, find_transfer,
}
use capsi.Storage.Store.{MessageStore, conversation, update_transfer}
use capsi.Native.Inbox.{DataDir, Arrival, Event, digest_hex, transfer_of}
use capsi.Native.Inbox.Files.{transfer_chunk_size, final_path, write_chunk}
use capsi.Native.Inbox.Receive.{dispatch}
use capsi.Native.Transfer.{
  Upload, div_ceil, Sent, ended, sent_before, chunk_envelope, progress, send_chunks,
}
use capsi.Native.Transfer.Arriving.{
  accepted_file, IsReceiving, still-IsReceiving, take_chunk_ok, chunk_at, admit_next, write_next,
  write_last,
}
use capsi.Storage.Conversation.Transfers.{find_transfer-set_transfer_state}
use capsi.Storage.Store.Updated.{stored_transfer}

-- The surroundings of a call that sends a file while nobody ends the transfer, every connection
-- succeeds and every read fills its buffer as long as there are bytes.
pub record IsSending (u : Upload) (socket : Text) (device_id : DeviceId) : Type 0 where
  pub active : (index : ℕ) → u.sending index ≡ some (some transferring)
  pub connects : (e : Envelope) → u.env.connect_and_send socket device_id e ≡ true
  pub fills : (index : ℕ) → transfer_chunk_size ≤ u.read index

module _ (p : Primitives) (base64_encode : List ℕ → Text) (u : Upload) (socket : Text)
    (device_id : DeviceId) (size : ℕ) (sending : IsSending u socket device_id) where
  full_read : (index : ℕ) → min (u.read index) transfer_chunk_size ≡ transfer_chunk_size
  full_read index = omega (arith, sending.fills index)

  send_none :
      (left index : ℕ)
      → send_chunks p base64_encode u socket device_id size left index [] ≡ ended (ok tt)
  unfolding send_chunks
  send_none zero index = refl
  send_none (suc left) index = rw (sending.active index, send_chunks, full_read index) refl

  send_some :
      (left index b : ℕ) (rest : List ℕ)
      → let raw = take transfer_chunk_size (b ∷ rest) in
        send_chunks p base64_encode u socket device_id size (suc left) index (b ∷ rest)
        ≡ sent_before
            (chunk_envelope p base64_encode u socket device_id size index raw)
            (progress p base64_encode u socket device_id size index)
            (send_chunks p base64_encode u socket device_id size left
              (index + 1)
              (drop (length raw) (b ∷ rest)))
  unfolding send_chunks
  send_some left index b rest =
      let raw = take transfer_chunk_size (b ∷ rest) in
      let e = chunk_envelope p base64_encode u socket device_id size index raw in
      rw (sending.active index, send_chunks, full_read index, sending.connects e) refl

-- Envelopes that arrive one after the other from a device that is trusted.
abbrev pub deliver :
    Primitives → (own : DeviceId) → Arrival → KnownDevice → List Envelope → DataDir → DataDir
deliver p own a known [] dir = dir
deliver p own a known (e ∷ envelopes) dir =
    deliver p own a known envelopes
      (dispatch p own (record a { envelope = e }) known e.message dir).data_dir

module _ (p : Primitives) (base64_encode : List ℕ → Text)
    (decodes : (b : List ℕ) → p.base64_decode (base64_encode b) ≡ some b) (u : Upload)
    (socket : Text) (device_id : DeviceId) (sending : IsSending u socket device_id) (own : DeviceId)
    (a : Arrival) (known : KnownDevice) (file_name path : Text) (contents : List ℕ)
    (s : MessageStore)
    (found : transfer_of a.peer_id u.transfer_id s
      ≡ some (accepted_file p u.transfer_id file_name path contents)) where
  -- The file is among the downloads, and the record of its transfer says so.
  abbrev pub IsArrived : DataDir → Type 0
  IsArrived dir =
      let place = final_path a.fs.root file_name in
      (lookup place dir.files ≡ some contents)
      × (dir.conversations
          ≡ (update_transfer a.peer_id u.transfer_id complete (some place) s).0.files)

  -- The message of a chunk, and what the listener leaves when it comes.
  abbrev chunk_of : (index : ℕ) (raw : List ℕ) → Message
  chunk_of index raw = file_chunk u.transfer_id index (digest_hex p raw) (base64_encode raw)

  abbrev after_chunk : (e : Envelope) (index : ℕ) (raw : List ℕ) → DataDir → DataDir
  after_chunk e index raw dir =
      (dispatch p own (record a { envelope = e }) known (chunk_of index raw) dir).data_dir

  module _ (e : Envelope) (index : ℕ) (present raw : List ℕ) (dir : DataDir)
      (at_index : length present ≡ index * transfer_chunk_size)
      (small : length raw ≤ transfer_chunk_size)
      (h : IsReceiving a.fs path (final_path a.fs.root file_name) s dir)
      (there : lookup path dir.files ≡ some present) where
    after_chunk_lem :
        after_chunk e index raw dir
        ≡ (write_chunk p
            (record a { envelope = e })
            u.transfer_id
            (chunk_at p base64_encode
              (record a { envelope = e })
              u.transfer_id
              file_name
              path
              contents
              s
              present
              raw)
            dir).data_dir
    unfolding dispatch
    after_chunk_lem =
        let a' = record a { envelope = e } in
        let c = chunk_at p base64_encode a' u.transfer_id file_name path contents s present raw in
        let admitted =
          admit_next p base64_encode a' u.transfer_id file_name path contents s dir h found index
            present raw (decodes raw) there at_index in
        ap (λ r. r.data_dir)
          (take_chunk_ok p a' u.transfer_id index (digest_hex p raw) (base64_encode raw) dir c
            admitted)

    after_more :
        length (present ++ raw) < length contents
        → after_chunk e index raw dir
          ≡ record dir { files = insert path (present ++ raw) dir.files }
    after_more more =
        after_chunk_lem
        ∙ write_next p base64_encode (record a { envelope = e }) u.transfer_id file_name path
            contents s dir h found present raw small more

    after_last : present ++ raw ≡ contents → IsArrived (after_chunk e index raw dir)
    after_last whole =
        let place = final_path a.fs.root file_name in
        let files = erase path (insert path contents dir.files) in
        let there' : lookup place (insert place contents files) ≡ some contents =
          rw (lookup-insert place place contents files, text_eq_refl place) refl in
        rw
          (after_chunk_lem
            ∙ write_last p base64_encode (record a { envelope = e }) u.transfer_id file_name path
                contents s dir h found present raw small whole)
          (there', refl)

  -- One envelope, and what follows it.
  after_first :
      (index : ℕ) (raw : List ℕ) (dir : DataDir) (event : Event) (all later now : Sent)
      → all
        ≡ sent_before
            (chunk_envelope p base64_encode u socket device_id (length contents) index raw)
            event
            later
      → later ≡ now
      → (now.result ≡ ok tt)
        × IsArrived (
            deliver p own a known now.envelopes (
              after_chunk
                (chunk_envelope p base64_encode u socket device_id (length contents) index raw)
                index
                raw
                dir))
      → (all.result ≡ ok tt) × IsArrived (deliver p own a known all.envelopes dir)
  unfolding chunk_envelope new_envelope
  after_first index raw dir event all later now first same h = rw (first, same) h

  arrive_from :
      (left index : ℕ) (present rest : List ℕ) (dir : DataDir)
      → present ++ rest ≡ contents
      → length present ≡ index * transfer_chunk_size
      → length rest ≤ left * transfer_chunk_size
      → 0 < length rest
      → IsReceiving a.fs path (final_path a.fs.root file_name) s dir
      → lookup path dir.files ≡ some present
      → let all =
          send_chunks p base64_encode u socket device_id (length contents) left index rest in
        (all.result ≡ ok tt) × IsArrived (deliver p own a known all.envelopes dir)
  arrive_from left index present [] dir whole at_index enough some_left h there =
      absurd (omega arith)
  arrive_from zero index present (b ∷ rest) dir whole at_index enough some_left h there =
      absurd (omega arith)
  arrive_from (suc left) index present (b ∷ rest) dir whole at_index enough some_left h there =
      let size = length contents in
      let raw = take transfer_chunk_size (b ∷ rest) in
      let step = send_some p base64_encode u socket device_id size sending left index b rest in
      let e = chunk_envelope p base64_encode u socket device_id size index raw in
      let dir' = after_chunk e index raw dir in
      let left_over = drop (length raw) (b ∷ rest) in
      let small : length raw ≤ transfer_chunk_size =
        omega (arith, length-take transfer_chunk_size (b ∷ rest)) in
      let split = take-append-drop_rest transfer_chunk_size (b ∷ rest) in
      elim (Bool-cases (leb (length (b ∷ rest)) transfer_chunk_size)) [
        | inl last ↦
            let all_in = take_whole transfer_chunk_size (b ∷ rest) (leb→le _ _ last) in
            let gone = ap (λ r. drop (length r) (b ∷ rest)) all_in ∙ drop_whole (b ∷ rest) in
            let nothing_left =
              ap (send_chunks p base64_encode u socket device_id size left (index + 1)) gone
              ∙ send_none p base64_encode u socket device_id size sending left (index + 1) in
            let whole' : present ++ raw ≡ contents = ap (λ r. present ++ r) all_in ∙ whole in
            after_first index raw dir _ _ _ (ended (ok tt)) step nothing_left
              (refl, after_last e index present raw dir at_index small h there whole')
        | inr more ↦
            let full : length raw ≡ transfer_chunk_size =
              let long = leb-false (length (b ∷ rest)) transfer_chunk_size more in
              omega (arith, length-take transfer_chunk_size (b ∷ rest), long) in
            let whole' : (present ++ raw) ++ left_over ≡ contents =
              append_assoc present raw left_over ∙ ap (λ r. present ++ r) split ∙ whole in
            let sizes = length-append raw left_over in
            let sizes' = length-append present raw in
            let total = ap length split in
            let all_bytes = ap length whole' in
            let joined = length-append (present ++ raw) left_over in
            let next = record dir { files = insert path (present ++ raw) dir.files } in
            let there' : lookup path next.files ≡ some (present ++ raw) =
              rw (lookup-insert path path (present ++ raw) dir.files, text_eq_refl path) refl in
            let rest_arrives =
              arrive_from left (index + 1) (present ++ raw) left_over next whole'
                (omega (arith, at_index, full, sizes')) (omega (arith, enough, full, sizes, total))
                (omega (
                  arith,
                  leb-false (length (b ∷ rest)) transfer_chunk_size more,
                  full,
                  sizes,
                  total,
                ))
                (still-IsReceiving h (insert path (present ++ raw) dir.files)) there' in
            let taken = after_more e index present raw dir at_index small h there (
              omega (
                arith,
                all_bytes,
                joined,
                sizes,
                total,
                leb-false (length (b ∷ rest)) transfer_chunk_size more,
                full,
              )) in
            let later =
              send_chunks p base64_encode u socket device_id size left (index + 1) left_over in
            after_first index raw dir _ _ later later step refl (rw taken rest_arrives)
      ]

-- An offer of a file that is not empty, accepted by the user and recorded with an empty temporary
-- file: if on the sender's side nobody ends the transfer, every connection succeeds and every read
-- fills its buffer, and on the receiver's side the store can be loaded and written and the file
-- system lets the file be written, read and moved, and if base64 decodes what it encodes, then the
-- sender ends without an error, and after its envelopes have arrived in their order the receiver
-- has the file, byte for byte, among its downloads, and its record of the transfer says that it is
-- complete and where it is.
pub file_round_trip :
    (p : Primitives) (base64_encode : List ℕ → Text)
    (decodes : (b : List ℕ) → p.base64_decode (base64_encode b) ≡ some b) (u : Upload)
    (socket : Text) (device_id : DeviceId) (sending : IsSending u socket device_id) (own : DeviceId)
    (a : Arrival) (known : KnownDevice) (file_name path : Text) (contents : List ℕ)
    (s : MessageStore) (c : Conversation) (dir : DataDir)
    → 0 < length contents
    → IsReceiving a.fs path (final_path a.fs.root file_name) s dir
    → lookup path dir.files ≡ some []
    → s.writable ≡ true
    → lookup a.peer_id s.conversations ≡ some c
    → find_transfer u.transfer_id c ≡ some (accepted_file p u.transfer_id file_name path contents)
    → let place = final_path a.fs.root file_name in
      let chunks = div_ceil (length contents) transfer_chunk_size in
      let all =
        send_chunks p base64_encode u socket device_id (length contents) chunks 0 contents in
      let dir' = deliver p own a known all.envelopes dir in
      (all.result ≡ ok tt)
      × (lookup place dir'.files ≡ some contents)
      × ((c' : Conversation) × (lookup a.peer_id dir'.conversations ≡ some c')
          × (find_transfer u.transfer_id c'
              ≡ some (record {
                transfer_id = u.transfer_id;
                file_name = file_name;
                size = length contents;
                digest = digest_hex p contents;
                local_path = some place;
                state = complete;
              })))
unfolding transfer_of div_ceil set_transfer_state
file_round_trip p base64_encode decodes u socket device_id sending own a known file_name path
      contents s c dir some_bytes h there w conversation recorded =
    let place = final_path a.fs.root file_name in
    let f = accepted_file p u.transfer_id file_name path contents in
    let found : transfer_of a.peer_id u.transfer_id s ≡ some f =
      rw (conversation, transfer_of) recorded in
    let chunks = div_ceil (length contents) transfer_chunk_size in
    let done =
      arrive_from p base64_encode decodes u socket device_id sending own a known file_name path
        contents s found chunks 0 [] contents dir refl (omega arith) (omega arith) some_bytes h
        there in
    let (updated, as_complete) =
      find_transfer-set_transfer_state u.transfer_id complete (some place) c f recorded in
    let c' = (set_transfer_state u.transfer_id complete (some place) c).0 in
    let kept =
      stored_transfer a.peer_id u.transfer_id complete (some place) s c conversation updated w in
    (done.0, done.1.0, (c', rw done.1.1 kept, as_complete))
