-- ===== src/Storage/Store/Updated.antt =====
-- What `update_transfer` leaves on the disk.
use capsi.Base.{◌≡◌, refl, true, Option, some, any, Text, text_eq_refl}
use capsi.Base.Maps.{lookup, lookup-insert}
use capsi.Storage.Conversation.{TransferState, Conversation, is_transfer, set_transfer_state}
use capsi.Storage.Store.{MessageStore, persist_if, update_transfer}
use capsi.Storage.Store.InStep.{persist_new}

-- The conversation with the peer, in its file, after the update of a transfer that it records.
pub stored_transfer :
    (device_id transfer_id : Text) (state : TransferState) (local_path : Option Text)
    (s : MessageStore) (c : Conversation)
    → lookup device_id s.conversations ≡ some c
    → any (is_transfer transfer_id) c.messages ≡ true
    → s.writable ≡ true
    → lookup device_id (update_transfer device_id transfer_id state local_path s).0.files
      ≡ some (set_transfer_state transfer_id state local_path c).0
unfolding update_transfer persist_if set_transfer_state
stored_transfer device_id transfer_id state local_path s c there recorded w =
    let c' = (set_transfer_state transfer_id state local_path c).0 in
    let found = lookup-insert device_id device_id c' s.files in
    rw
      (
        there,
        update_transfer,
        recorded,
        persist_new device_id c' s,
        w,
        found,
        text_eq_refl device_id,
      )
      refl
