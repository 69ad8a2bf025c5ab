-- ===== src/Native/Inbox/Receive/Authority.antt =====
-- Who can change the members, groups and departments of the stored workplace through the listener.
use capsi.Native.Disk.{Disk, CallError, load, save}
use capsi.Base.{
  ◌≡◌, refl, ap, ◌∙◌, inl, inr, Bool, true, false, not, Option, none, some, List, [], ◌∷◌, ◌++◌,
  arith, Bool-cases, Text, text_eq, pos, Result, ok, err,
}
use capsi.Protocol.Message.{
  WorkplaceTextMessage, WorkplaceBroadcastMessage, DeliveryReceipt, Message, text, file_offer,
  workplace_text, workplace_sync, workplace_broadcast, delivery_receipt, file_receipt, file_chunk,
  typing, goodbye,
}
use capsi.Identity.Device.{DeviceId}
use capsi.Identity.Keys.{Primitives}
use capsi.Identity.Trust.{KnownDevice, TrustStore, get}
use capsi.Workplace.Workspace.{Workspace, has_member, touch}
use capsi.Native.Outbox.{if_trusted}
use capsi.Workplace.History.{
  touched, message_appended, broadcast_received, delivery_confirmed, marked_received, Reach, here,
  next,
}
use capsi.Workplace.Deliveries.{
  mark_delivery_delivered, has_received_message, mark_received_message,
}
use capsi.Workplace.Messages.Appended.{written, append_message_lem}
use capsi.Native.Inbox.{DataDir, Arrival, load_messages}
use capsi.Native.Inbox.Texts.{confirm_delivery, confirm_messages, take_delivery_receipt}
use capsi.Native.Inbox.Workplaces.{
  with_disk, may_write_in, set_last_id, received, keep_message, take_text_loaded,
  take_workplace_text, keep_broadcast, take_broadcast_loaded, take_broadcast,
}
use capsi.Storage.Store.{MessageStore}
use capsi.Native.Inbox.Receive.Structure.{
  structure_of, IsAuthorized, kept, load-eq-ok, structure-append_message,
  structure-receive_broadcast, HasAuthority, if-HasAuthority, after_save-workspace,
  save-HasAuthority,
}
use capsi.Native.Inbox.Receive.Synced.{take_sync-HasAuthority}
use capsi.Native.Inbox.Receive.Unwritten.{
  disk-take_text, disk-take_offer, disk-take_chunk, disk-take_file_receipt,
}
use capsi.Native.Inbox.Receive.{dispatch, receive_from, receive_with, receive}
use capsi.Workplace.State.{WorkplaceMessage}
use capsi.Workplace.Messages.{append_message}
use capsi.Workplace.Deliveries

module _ (own : DeviceId) (a : Arrival) (dir : DataDir) where
  structure-set_last :
      (id : Text) (ws : Workspace) → structure_of (received own a id ws) ≡ structure_of ws
  unfolding touch Deliveries.mark_received_message
  structure-set_last id ws = refl

  -- The last message has its id already.
  set_last_id_snoc :
      (messages : List WorkplaceMessage) (m : WorkplaceMessage)
      → set_last_id own a m.id (messages ++ m ∷ []) ≡ messages ++ m ∷ []
  set_last_id_snoc [] m = refl
  set_last_id_snoc (n ∷ []) m = refl
  set_last_id_snoc (n ∷ n' ∷ messages) m =
      ap (λ rest. n ∷ rest) (set_last_id_snoc (n' ∷ messages) m)

  -- A message that is written, marked and given the new time.
  received_lem :
      (m : WorkplaceTextMessage) (ws : Workspace) (id : Text)
      → let r = append_message m.group_id a.peer_id m.body a.env.now a.env.now' ws in
        r.1 ≡ some id
        → Reach ws (received own a id (r.0))
          × (structure_of (received own a id (r.0)) ≡ structure_of ws)
  received_lem m ws id named =
      let r = append_message m.group_id a.peer_id m.body a.env.now a.env.now' ws in
      let named_already : record (r.0) { messages = set_last_id own a id (r.0).messages } ≡ r.0 =
        elim (append_message_lem m.group_id a.peer_id m.body a.env.now a.env.now' ws) [
          | inl (same, refused) ↦ absurd (ground arith)
          | inr (g, of_group, listed, known, answered, e) ↦
              let w = written m.group_id a.peer_id m.body a.env.now a.env.now' ws in
              let same : w.id ≡ id = ground arith in
              let snoc : set_last_id own a id (ws.messages ++ w ∷ []) ≡ ws.messages ++ w ∷ [] =
                rw (← same) (set_last_id_snoc ws.messages w) in
              rw e (ap (λ messages. record ws { messages = messages }) snoc)
        ] in
      (
        rw named_already (
            next
              (next
                (next here (message_appended m.group_id a.peer_id m.body a.env.now a.env.now' ws))
                (marked_received a.envelope.id (r.0)))
              (touched a.env.now_millis _)),
        structure-set_last id (r.0)
            ∙ structure-append_message m.group_id a.peer_id m.body a.env.now a.env.now' ws,
      )

  keep_message-HasAuthority :
      (m : WorkplaceTextMessage) (ws : Workspace) (r : Workspace × Option Text)
      → dir.disk.workspace ≡ some ws
      → ((id : Text)
          → r.1 ≡ some id
          → Reach ws (received own a id r.0)
            × (structure_of (received own a id r.0) ≡ structure_of ws))
      → HasAuthority own a dir (keep_message own a m dir r).data_dir
  keep_message-HasAuthority m ws (ws', none) there made = kept refl
  keep_message-HasAuthority m ws (ws', some id) there made =
      rw (after_save-workspace own a dir _ _ (save (received own a id ws') dir.disk)) (
        save-HasAuthority own a dir ws (received own a id ws') there (made id refl).0
          (made id refl).1)

  take_text_loaded-HasAuthority :
      (m : WorkplaceTextMessage) (r : Result CallError (Option Workspace))
      → load dir.disk ≡ r
      → HasAuthority own a dir (take_text_loaded own a m r dir).data_dir
  take_text_loaded-HasAuthority m (err e) loaded = kept refl
  take_text_loaded-HasAuthority m (ok none) loaded = kept refl
  take_text_loaded-HasAuthority m (ok (some ws)) loaded =
      if-HasAuthority own a dir (Deliveries.has_received_message a.envelope.id ws) _ _ (kept refl) (
        if-HasAuthority own a dir (not (may_write_in own a m.group_id ws)) _ _ (kept refl) (
          keep_message-HasAuthority m ws _ (load-eq-ok dir.disk (some ws) loaded)
            (λ id named. received_lem m ws id named)))

  keep_broadcast-HasAuthority :
      (broadcast_id : Text) (ws : Workspace) (r : Workspace × Bool)
      → dir.disk.workspace ≡ some ws
      → Reach ws r.0
      → structure_of r.0 ≡ structure_of ws
      → HasAuthority own a dir (keep_broadcast own a broadcast_id dir r).data_dir
  keep_broadcast-HasAuthority broadcast_id ws (ws', false) there steps same = kept refl
  keep_broadcast-HasAuthority broadcast_id ws (ws', true) there steps same =
      save-HasAuthority own a dir ws ws' there steps same

  take_broadcast_loaded-HasAuthority :
      (b : WorkplaceBroadcastMessage) (r : Result CallError (Option Workspace))
      → load dir.disk ≡ r
      → HasAuthority own a dir (take_broadcast_loaded own a b r dir).data_dir
  take_broadcast_loaded-HasAuthority b (err e) loaded = kept refl
  take_broadcast_loaded-HasAuthority b (ok none) loaded = kept refl
  take_broadcast_loaded-HasAuthority b (ok (some ws)) loaded =
      if-HasAuthority own a dir (not (has_member a.peer_id ws.members)) _ _ (kept refl) (
        keep_broadcast-HasAuthority b.broadcast_id ws _ (load-eq-ok dir.disk (some ws) loaded)
          (next here (
            broadcast_received b.broadcast_id b.title b.body a.peer_id b.department_id
              (pos a.env.now) ws))
          (structure-receive_broadcast b.broadcast_id b.title b.body a.peer_id b.department_id
            (pos a.env.now) ws))

  same_structure :
      (message_id : Text) (ws : Workspace)
      → structure_of
          (touch a.env.now_millis (Deliveries.mark_delivery_delivered message_id a.peer_id ws).0)
        ≡ structure_of ws
  unfolding touch Deliveries.mark_delivery_delivered
  same_structure message_id ws = refl

  confirm_delivery-HasAuthority :
      (message_id : Text) (r : Result CallError (Option Workspace))
      → load dir.disk ≡ r
      → HasAuthority own a dir (with_disk (confirm_delivery a message_id r dir.disk) dir)
  confirm_delivery-HasAuthority message_id (err e) loaded = kept refl
  confirm_delivery-HasAuthority message_id (ok none) loaded = kept refl
  confirm_delivery-HasAuthority message_id (ok (some ws)) loaded =
      let r = Deliveries.mark_delivery_delivered message_id a.peer_id ws in
      elim (Bool-cases (r.1)) [
        | inr same ↦ rw same (kept refl)
        | inl removed ↦ rw removed (
            save-HasAuthority own a dir ws (touch a.env.now_millis (r.0))
              (load-eq-ok dir.disk (some ws) loaded)
              (next (next here (delivery_confirmed message_id a.peer_id ws))
                (touched a.env.now_millis (r.0)))
              (same_structure message_id ws))
      ]

  confirmed-HasAuthority :
      (message_id : Text) (s : Option MessageStore)
      → let dir' = confirm_messages a message_id s dir in
        HasAuthority own a dir
          (with_disk (confirm_delivery a message_id (load dir'.disk) dir'.disk) dir')
  confirmed-HasAuthority message_id none =
      confirm_delivery-HasAuthority message_id (load dir.disk) refl
  confirmed-HasAuthority message_id (some s) =
      confirm_delivery-HasAuthority message_id (load dir.disk) refl

  take_workplace_text-HasAuthority :
      (m : WorkplaceTextMessage) → HasAuthority own a dir (take_workplace_text own a m dir).data_dir
  unfolding take_workplace_text
  take_workplace_text-HasAuthority m = take_text_loaded-HasAuthority m (load dir.disk) refl

  take_broadcast-HasAuthority :
      (b : WorkplaceBroadcastMessage) → HasAuthority own a dir (take_broadcast own a b dir).data_dir
  unfolding take_broadcast
  take_broadcast-HasAuthority b =
      if-HasAuthority own a dir (text_eq a.peer_id own) _ _ (kept refl)
        (take_broadcast_loaded-HasAuthority b (load dir.disk) refl)

  take_delivery_receipt-HasAuthority :
      (receipt : DeliveryReceipt)
      → HasAuthority own a dir (take_delivery_receipt a receipt dir).data_dir
  unfolding take_delivery_receipt
  take_delivery_receipt-HasAuthority receipt =
      confirmed-HasAuthority receipt.message_id (load_messages dir)

  same_disk :
      {disk : Disk} → disk ≡ dir.disk → IsAuthorized own a.peer_id dir.disk.workspace disk.workspace
  same_disk same = kept (ap (λ (d : Disk). d.workspace) same)

module _ (p : Primitives) (own : DeviceId) where
  dispatch-HasAuthority :
      (a : Arrival) (known : KnownDevice) (m : Message) (dir : DataDir)
      → HasAuthority own a dir (dispatch p own a known m dir).data_dir
  unfolding dispatch
  dispatch-HasAuthority a known (text t) dir = same_disk own a dir (disk-take_text p a dir t known)
  dispatch-HasAuthority a known (file_offer offer) dir =
      same_disk own a dir (disk-take_offer p a dir offer known)
  dispatch-HasAuthority a known (workplace_text m) dir =
      take_workplace_text-HasAuthority own a dir m
  dispatch-HasAuthority a known (workplace_sync sync) dir = take_sync-HasAuthority own a dir sync
  dispatch-HasAuthority a known (workplace_broadcast b) dir =
      take_broadcast-HasAuthority own a dir b
  dispatch-HasAuthority a known (delivery_receipt receipt) dir =
      take_delivery_receipt-HasAuthority own a dir receipt
  dispatch-HasAuthority a known (file_receipt transfer_id state) dir =
      same_disk own a dir (disk-take_file_receipt p a dir transfer_id state)
  dispatch-HasAuthority a known (file_chunk transfer_id index digest chunk) dir =
      same_disk own a dir (disk-take_chunk p a dir transfer_id index digest chunk)
  dispatch-HasAuthority a known (typing active) dir = kept refl
  dispatch-HasAuthority a known goodbye dir = kept refl

  receive_with-HasAuthority :
      (a : Arrival) (trust : Option TrustStore) (dir : DataDir)
      → HasAuthority own a dir (receive_with p own a trust dir).data_dir
  receive_with-HasAuthority a none dir = kept refl
  receive_with-HasAuthority a (some trust) dir = received_from (if_trusted (get a.peer_id trust))
    where
      received_from :
          (known : Option KnownDevice)
          → HasAuthority own a dir (receive_from p own a known dir).data_dir
      received_from none = kept refl
      received_from (some known) = dispatch-HasAuthority a known a.envelope.message dir

  -- Whatever envelope arrives, the stored workplace stays as it was, or goes through calls that keep
  -- its id, its owner, its members, its groups and its departments, unless its owner has had it
  -- removed, or a member that it lists as an owner or as an admin has sent a state that it takes
  -- over, or there was none and the sender is the owner of the one that it becomes.
  pub receive-HasAuthority :
      (a : Arrival) (dir : DataDir)
      → IsAuthorized own a.peer_id dir.disk.workspace (receive p own a dir).data_dir.disk.workspace
  unfolding receive
  receive-HasAuthority a dir = receive_with-HasAuthority a dir.disk.trust dir
