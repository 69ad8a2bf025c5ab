-- ===== src/Storage/Store/Apart.antt =====
-- The files of the other conversations, which no call for one device writes.
use capsi.Base.{
  ◌≡◌, refl, inl, inr, Bool, true, false, Option, arith, Option-cases, Text, text_eq, ℤ,
}
use capsi.Base.Maps.{lookup, lookup-insert, lookup-erase}
use capsi.Storage.Conversation.{TransferState, StoredMessage}
use capsi.Storage.Store.{
  MessageStore, persist, append, persist_if, mark_delivery_delivered, update_transfer,
}

module _ (device_id other : Text) (apart : text_eq device_id other ≡ false) where
  files-persist :
      (s : MessageStore) → lookup other (persist device_id s).0.files ≡ lookup other s.files
  unfolding persist
  files-persist s = elim (Option-cases (lookup device_id s.conversations)) [
    | inl missing ↦ rw (missing, persist) refl
    | inr (c, e) ↦
        rw (e, persist)
          (ground
            (arith, lookup-insert other device_id c s.files, lookup-erase other device_id s.files))
  ]

  files-persist_if :
      (updated : Bool) (s : MessageStore)
      → lookup other (persist_if updated device_id s).0.files ≡ lookup other s.files
  unfolding persist_if
  files-persist_if true s = files-persist s
  files-persist_if false s = refl

  pub files-append :
      (name : Text) (now : ℤ) (message : StoredMessage) (s : MessageStore)
      → lookup other (append device_id name now message s).0.files ≡ lookup other s.files
  unfolding append
  files-append name now message s = files-persist _

  pub files-update_transfer :
      (transfer_id : Text) (state : TransferState) (local_path : Option Text) (s : MessageStore)
      → lookup other (update_transfer device_id transfer_id state local_path s).0.files
        ≡ lookup other s.files
  unfolding update_transfer
  files-update_transfer transfer_id state local_path s =
      elim (Option-cases (lookup device_id s.conversations)) [
        | inl missing ↦ rw (missing, update_transfer) refl
        | inr (c, e) ↦ rw (e, update_transfer) (files-persist_if _ _)
      ]

  pub files-mark_delivery_delivered :
      (message_id : Text) (s : MessageStore)
      → lookup other (mark_delivery_delivered device_id message_id s).0.files ≡ lookup other s.files
  unfolding mark_delivery_delivered
  files-mark_delivery_delivered message_id s =
      elim (Option-cases (lookup device_id s.conversations)) [
        | inl missing ↦ rw (missing, mark_delivery_delivered) refl
        | inr (c, e) ↦ rw (e, mark_delivery_delivered) (files-persist_if _ _)
      ]
