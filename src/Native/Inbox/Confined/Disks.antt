-- ===== src/Native/Inbox/Confined/Disks.antt =====
-- The arms for text messages, receipts and the workplace touch what is the sender's.
use capsi.Native.Disk.{Disk, CallError, load, save, delete}
use capsi.Base.{
  ◌≡◌, refl, ap, ◌∙◌, inl, inr, Bool, true, false, not, ◌&&◌, Option, none, some, List, arith,
  if◌then◌else◌, Bool-cases, Option-cases, Text, text_eq, Result, ok, err, Result-cases,
}
use capsi.Base.Maps.{lookup}
use capsi.Protocol.Message.{
  TextMessage, WorkplaceTextMessage, WorkplaceSyncMessage, WorkplaceBroadcastMessage,
  DeliveryReceipt, Envelope,
}
use capsi.Identity.Device.{DeviceId}
use capsi.Identity.Trust.{KnownDevice}
use capsi.Storage.Conversation.{new_text_message}
use capsi.Storage.Store.{MessageStore, StoreError, append, mark_delivery_delivered}
use capsi.Storage.Store.Apart.{files-append, files-mark_delivery_delivered}
use capsi.Workplace.State.{WorkspaceState}
use capsi.Workplace.Workspace.{Workspace, WorkplaceError, has_member, new}
use capsi.Native.Inbox.{DataDir, Arrival, Event, Reaction, load_messages, with_messages}
use capsi.Native.Inbox.Texts.{
  as_delivered, answer_text, take_text, confirm_delivery, confirm_messages, take_delivery_receipt,
}
use capsi.Native.Inbox.Workplaces.{
  with_disk, after_save, after_delete, bury_loaded, merge_state, save_merged, merge_loaded,
  take_sync, may_write_in, received, keep_message, take_text_loaded, take_workplace_text,
  keep_broadcast, take_broadcast_loaded, take_broadcast,
}
use capsi.Native.Inbox.Confined.{
  IsConfined, files-load_messages, unchanged-IsConfined, with_messages-IsConfined, disk-IsConfined,
}
use capsi.Storage.Store
use capsi.Workplace.Deliveries

-- A disk with the same keys and the same trust list.
abbrev pub HasSameKeys : (disk disk' : Disk) → Type 0
HasSameKeys disk disk' = (disk'.own_id ≡ disk.own_id) × (disk'.trust ≡ disk.trust)

pub save-HasSameKeys : (ws : Workspace) (disk : Disk) → HasSameKeys disk (save ws disk).0
unfolding save
save-HasSameKeys ws disk = ground arith

delete-HasSameKeys : (disk : Disk) → HasSameKeys disk (delete disk).0
unfolding delete
delete-HasSameKeys disk = elim (Option-cases disk.workspace) [
  | inl e ↦ ground arith
  | inr (ws, e) ↦ ground arith
]

module _ (own : DeviceId) (a : Arrival) (dir : DataDir) where
  answer_text-IsConfined :
      (body : Text) (r : MessageStore × Result StoreError (Unit {0}))
      → IsConfined a dir (with_messages r.0 dir)
      → IsConfined a dir (answer_text a body dir r).data_dir
  answer_text-IsConfined body (s, err e) h = h
  answer_text-IsConfined body (s, ok _) h = h

  pub take_text-IsConfined :
      (t : TextMessage) (known : KnownDevice) → IsConfined a dir (take_text a t known dir).data_dir
  unfolding take_text
  take_text-IsConfined t known =
      elim (Result-cases (new_text_message (a.env.new_id 0) a.env.now_millis t.body false)) [
        | inr (e, refused) ↦ rw (refused, take_text) unchanged-IsConfined
        | inl (stored, worded_well) ↦ elim (Option-cases (load_messages dir)) [
          | inl missing ↦ rw (worded_well, take_text, missing) unchanged-IsConfined
          | inr (s, loaded) ↦
              let m = as_delivered a stored in
              let r = append a.peer_id known.name a.env.now_millis m s in
              rw (worded_well, take_text, loaded)
                (answer_text-IsConfined t.body r (
                  with_messages-IsConfined unchanged-IsConfined r.0 (λ other apart.
                    files-append a.peer_id other apart known.name a.env.now_millis m s
                    ∙ ap (lookup other) (files-load_messages dir s loaded))))
        ]
      ]

  confirm_messages-IsConfined :
      (message_id : Text) (s : Option MessageStore)
      → load_messages dir ≡ s
      → IsConfined a dir (confirm_messages a message_id s dir)
  confirm_messages-IsConfined message_id none e = unchanged-IsConfined
  confirm_messages-IsConfined message_id (some s) e =
      with_messages-IsConfined unchanged-IsConfined
        ((Store.mark_delivery_delivered a.peer_id message_id s).0)
        (λ other apart.
          files-mark_delivery_delivered a.peer_id other apart message_id s
          ∙ ap (lookup other) (files-load_messages dir s e))

  confirm_delivery-HasSameKeys :
      (message_id : Text) (r : Result CallError (Option Workspace)) (disk : Disk)
      → HasSameKeys disk (confirm_delivery a message_id r disk)
  confirm_delivery-HasSameKeys message_id (err e) disk = (refl, refl)
  confirm_delivery-HasSameKeys message_id (ok none) disk = (refl, refl)
  confirm_delivery-HasSameKeys message_id (ok (some ws)) disk =
      elim (Bool-cases ((Deliveries.mark_delivery_delivered message_id a.peer_id ws).1)) [
        | inr e ↦ rw e (refl, refl)
        | inl e ↦ rw e (save-HasSameKeys _ disk)
      ]

  pub take_delivery_receipt-IsConfined :
      (receipt : DeliveryReceipt) → IsConfined a dir (take_delivery_receipt a receipt dir).data_dir
  unfolding take_delivery_receipt
  take_delivery_receipt-IsConfined receipt =
      let h = confirm_messages-IsConfined receipt.message_id (load_messages dir) refl in
      let dir' = confirm_messages a receipt.message_id (load_messages dir) dir in
      let (same_id, same_trust) =
        confirm_delivery-HasSameKeys receipt.message_id (load dir'.disk) dir'.disk in
      disk-IsConfined h (confirm_delivery a receipt.message_id (load dir'.disk) dir'.disk) same_id
        same_trust

  -- What a workplace arm does to the disk.
  kept_keys : (disk : Disk) → HasSameKeys dir.disk disk → IsConfined a dir (with_disk disk dir)
  kept_keys disk (same_id, same_trust) =
      disk-IsConfined unchanged-IsConfined disk same_id same_trust

  after_save-IsConfined :
      (event : Event) (replies : List (Text × Envelope)) (r : Disk × Result CallError (Unit {0}))
      → HasSameKeys dir.disk r.0
      → IsConfined a dir (after_save event replies dir r).data_dir
  after_save-IsConfined event replies (disk, err e) h = kept_keys disk h
  after_save-IsConfined event replies (disk, ok _) h = kept_keys disk h

  after_delete-IsConfined :
      (state : WorkspaceState) (r : Disk × Result CallError (Unit {0}))
      → HasSameKeys dir.disk r.0
      → IsConfined a dir (after_delete own a state dir r).data_dir
  after_delete-IsConfined state (disk, err e) h = kept_keys disk h
  after_delete-IsConfined state (disk, ok _) h = kept_keys disk h

  bury_loaded-IsConfined :
      (state : WorkspaceState) (r : Result CallError (Option Workspace))
      → IsConfined a dir (bury_loaded own a state r dir).data_dir
  bury_loaded-IsConfined state (err e) = unchanged-IsConfined
  bury_loaded-IsConfined state (ok none) = unchanged-IsConfined
  bury_loaded-IsConfined state (ok (some local)) =
      elim (Bool-cases (text_eq local.id state.id && text_eq local.owner_device_id a.peer_id)) [
        | inr e ↦ rw e unchanged-IsConfined
        | inl e ↦
            rw e (after_delete-IsConfined state (delete dir.disk) (delete-HasSameKeys dir.disk))
      ]

  save_merged-IsConfined :
      (r : Result WorkplaceError Workspace) → IsConfined a dir (save_merged own a r dir).data_dir
  save_merged-IsConfined (err e) = unchanged-IsConfined
  save_merged-IsConfined (ok ws) =
      after_save-IsConfined _ _ (save ws dir.disk) (save-HasSameKeys ws dir.disk)

  merge_loaded-IsConfined :
      (state : WorkspaceState) (r : Result CallError (Option Workspace))
      → IsConfined a dir (merge_loaded own a state r dir).data_dir
  merge_loaded-IsConfined state (err e) = unchanged-IsConfined
  merge_loaded-IsConfined state (ok existing) =
      save_merged-IsConfined (merge_state own a state existing)

  if-IsConfined :
      (test : Bool) (r r' : Reaction)
      → IsConfined a dir r.data_dir
      → IsConfined a dir r'.data_dir
      → IsConfined a dir (if test then r else r').data_dir
  if-IsConfined true r r' h h' = h
  if-IsConfined false r r' h h' = h'

  pub take_sync-IsConfined :
      (sync : WorkplaceSyncMessage) → IsConfined a dir (take_sync own a sync dir).data_dir
  unfolding take_sync
  take_sync-IsConfined sync =
      if-IsConfined (not (text_eq sync.actor_device_id a.peer_id)) _ _ unchanged-IsConfined (
        if-IsConfined sync.state.deleted _ _
          (if-IsConfined (not (text_eq sync.state.owner_device_id a.peer_id)) _ _
            unchanged-IsConfined (bury_loaded-IsConfined sync.state (load dir.disk)))
          (merge_loaded-IsConfined sync.state (load dir.disk)))

  keep_message-IsConfined :
      (m : WorkplaceTextMessage) (r : Workspace × Option Text)
      → IsConfined a dir (keep_message own a m dir r).data_dir
  keep_message-IsConfined m (ws, none) = unchanged-IsConfined
  keep_message-IsConfined m (ws, some id) =
      after_save-IsConfined _ _ (save (received own a id ws) dir.disk)
        (save-HasSameKeys (received own a id ws) dir.disk)

  take_text_loaded-IsConfined :
      (m : WorkplaceTextMessage) (r : Result CallError (Option Workspace))
      → IsConfined a dir (take_text_loaded own a m r dir).data_dir
  take_text_loaded-IsConfined m (err e) = unchanged-IsConfined
  take_text_loaded-IsConfined m (ok none) = unchanged-IsConfined
  take_text_loaded-IsConfined m (ok (some ws)) =
      elim (Bool-cases (Deliveries.has_received_message a.envelope.id ws)) [
        | inl old ↦ rw old unchanged-IsConfined
        | inr new ↦ elim (Bool-cases (may_write_in own a m.group_id ws)) [
          | inr cannot ↦ rw (new, cannot) unchanged-IsConfined
          | inl may ↦ rw (new, may) (keep_message-IsConfined m _)
        ]
      ]

  pub take_workplace_text-IsConfined :
      (m : WorkplaceTextMessage) → IsConfined a dir (take_workplace_text own a m dir).data_dir
  unfolding take_workplace_text
  take_workplace_text-IsConfined m = take_text_loaded-IsConfined m (load dir.disk)

  keep_broadcast-IsConfined :
      (broadcast_id : Text) (r : Workspace × Bool)
      → IsConfined a dir (keep_broadcast own a broadcast_id dir r).data_dir
  keep_broadcast-IsConfined broadcast_id (ws, false) = unchanged-IsConfined
  keep_broadcast-IsConfined broadcast_id (ws, true) =
      kept_keys ((save ws dir.disk).0) (save-HasSameKeys ws dir.disk)

  take_broadcast_loaded-IsConfined :
      (b : WorkplaceBroadcastMessage) (r : Result CallError (Option Workspace))
      → IsConfined a dir (take_broadcast_loaded own a b r dir).data_dir
  take_broadcast_loaded-IsConfined b (err e) = unchanged-IsConfined
  take_broadcast_loaded-IsConfined b (ok none) = unchanged-IsConfined
  take_broadcast_loaded-IsConfined b (ok (some ws)) =
      elim (Bool-cases (has_member a.peer_id ws.members)) [
        | inr e ↦ rw e unchanged-IsConfined
        | inl e ↦ rw e (keep_broadcast-IsConfined b.broadcast_id _)
      ]

  pub take_broadcast-IsConfined :
      (b : WorkplaceBroadcastMessage) → IsConfined a dir (take_broadcast own a b dir).data_dir
  unfolding take_broadcast
  take_broadcast-IsConfined b = elim (Bool-cases (text_eq a.peer_id own)) [
    | inl e ↦ rw e unchanged-IsConfined
    | inr e ↦ rw e (take_broadcast_loaded-IsConfined b (load dir.disk))
  ]
