-- ===== src/Native/Inbox/Confined.antt =====
-- What an arrival may touch in the data directory.
pub mod Files
pub mod Disks
use capsi.Base.{
  ℕ, ◌≡◌, refl, ◌∙◌, ◌⊎◌, inl, inr, false, some, List, arith, Text, text_eq, text_eq_iff,
  text_cases,
}
use capsi.Base.Maps.{TextMap, lookup, insert, erase, lookup-insert, lookup-erase}
use capsi.Protocol.Message.{FileOffer, FileReceipt, file_offer, file_receipt, file_chunk}
use capsi.Storage.Conversation.{StoredFile}
use capsi.Storage.Store.{MessageStore, load}
use capsi.Native.Disk.{Disk}
use capsi.Native.Inbox.{DataDir, Arrival, load_messages, with_messages, transfer_of}
use capsi.Native.Inbox.Files.{temp_path, final_path}
use capsi.Storage.Store

-- The envelope is about a transfer: it has a chunk of it or a receipt for it.
abbrev pub IsAbout : Arrival → (transfer_id : Text) → Type 0
IsAbout a transfer_id =
    ((index : ℕ) × (digest : Text) × (chunk : Text) × (a.envelope.message
        ≡ file_chunk transfer_id index digest chunk))
    ⊎ ((state : FileReceipt) × (a.envelope.message ≡ file_receipt transfer_id state))

-- The files that the envelope may touch: the temporary file that is named after the transfer of the
-- offer that it has, and, for a transfer that it is about and that the conversation with the sender
-- records, the file that the record names and the place of the transfer among the downloads.
pub data IsOwnFile (a : Arrival) (dir : DataDir) (path : Text) : Type 0 where
  made :
      (offer : FileOffer)
      → a.envelope.message ≡ file_offer offer
      → path ≡ temp_path a.fs.root offer.transfer_id
      → IsOwnFile a dir path
  recorded :
      (transfer_id : Text) (s : MessageStore) (f : StoredFile)
      → IsAbout a transfer_id
      → load_messages dir ≡ some s
      → transfer_of a.peer_id transfer_id s ≡ some f
      → f.local_path ≡ some path
      → IsOwnFile a dir path
  placed :
      (transfer_id : Text) (s : MessageStore) (f : StoredFile)
      → IsAbout a transfer_id
      → load_messages dir ≡ some s
      → transfer_of a.peer_id transfer_id s ≡ some f
      → path ≡ final_path a.fs.root f.file_name
      → IsOwnFile a dir path

-- The conversations with others, the keys and the trust list are as they were, and so is every file
-- that the envelope may not touch.
pub record IsConfined (a : Arrival) (dir dir' : DataDir) : Type 0 where
  pub other_conversations :
      (other : Text)
      → text_eq a.peer_id other ≡ false
      → lookup other dir'.conversations ≡ lookup other dir.conversations
  pub same_id : dir'.disk.own_id ≡ dir.disk.own_id
  pub same_trust : dir'.disk.trust ≡ dir.disk.trust
  pub other_files :
      (path : Text) → (lookup path dir'.files ≡ lookup path dir.files) ⊎ IsOwnFile a dir path

pub files-load_messages :
    (dir : DataDir) (s : MessageStore) → load_messages dir ≡ some s → s.files ≡ dir.conversations
unfolding load_messages Store.load
files-load_messages dir s h = ground arith

module _ {a : Arrival} {dir : DataDir} where
  pub unchanged-IsConfined : IsConfined a dir dir
  unchanged-IsConfined = record {
    other_conversations = λ other apart. refl;
    same_id = refl;
    same_trust = refl;
    other_files = λ path. inl refl;
  }

  module _ {dir' : DataDir} (h : IsConfined a dir dir') where
    pub with_messages-IsConfined :
        (s : MessageStore)
        → ((other : Text)
            → text_eq a.peer_id other ≡ false
            → lookup other s.files ≡ lookup other dir.conversations)
        → IsConfined a dir (with_messages s dir')
    with_messages-IsConfined s others = record {
      other_conversations = others;
      same_id = h.same_id;
      same_trust = h.same_trust;
      other_files = h.other_files;
    }

    with_files :
        (files : TextMap (List ℕ))
        → ((path : Text) → (lookup path files ≡ lookup path dir.files) ⊎ IsOwnFile a dir path)
        → IsConfined a dir (record dir' { files = files })
    with_files files others = record {
      other_conversations = h.other_conversations;
      same_id = h.same_id;
      same_trust = h.same_trust;
      other_files = others;
    }

    pub insert-IsConfined :
        (path : Text) (bytes : List ℕ)
        → IsOwnFile a dir path
        → IsConfined a dir (record dir' { files = insert path bytes dir'.files })
    insert-IsConfined path bytes own = with_files (insert path bytes dir'.files) (λ q.
        elim (text_cases path q) [
          | inl same ↦ inr (rw same at own)
          | inr apart ↦ rw (lookup-insert q path bytes dir'.files) (
              let e : text_eq path q ≡ false = ground (arith, text_eq_iff path q) in
              rw e (h.other_files q))
        ])

    pub erase-IsConfined :
        (path : Text)
        → IsOwnFile a dir path
        → IsConfined a dir (record dir' { files = erase path dir'.files })
    erase-IsConfined path own = with_files (erase path dir'.files) (λ q. elim (text_cases path q) [
      | inl same ↦ inr (rw same at own)
      | inr apart ↦ rw (lookup-erase q path dir'.files) (
          let e : text_eq path q ≡ false = ground (arith, text_eq_iff path q) in
          rw e (h.other_files q))
    ])

    pub disk-IsConfined :
        (disk : Disk)
        → disk.own_id ≡ dir'.disk.own_id
        → disk.trust ≡ dir'.disk.trust
        → IsConfined a dir (record dir' { disk = disk })
    disk-IsConfined disk same_id same_trust = record {
      other_conversations = h.other_conversations;
      same_id = same_id ∙ h.same_id;
      same_trust = same_trust ∙ h.same_trust;
      other_files = h.other_files;
    }
