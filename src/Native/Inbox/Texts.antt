-- ===== src/Native/Inbox/Texts.antt =====
-- The arms of the listener of flutter/native/src/lib.rs for text messages and delivery receipts.
use capsi.Base.{false, Option, none, some, [], ◌∷◌, if◌then◌else◌, Text, Result, ok, err}
use capsi.Protocol.Message.{TextMessage, DeliveryReceipt, delivery_receipt}
use capsi.Identity.Trust.{KnownDevice}
use capsi.Storage.Conversation.{delivered, StoredMessage, new_text_message}
use capsi.Storage.Store.{MessageStore, StoreError, load, append, mark_delivery_delivered}
use capsi.Workplace.Workspace.{Workspace, touch}
use capsi.Native.Disk.{Disk, CallError, save}
use capsi.Native.Inbox.{
  DataDir, Arrival, messages_unreadable, message_not_stored, text_refused, message_arrived,
  delivery_receipt_event, Reaction, only, refuse, load_messages, with_messages, reply_to,
}
use capsi.Storage.Store
use capsi.Workplace.Deliveries
use capsi.Native.Disk

module _ (a : Arrival) where
  -- The message as it is kept, with the id and the time of its envelope.
  abbrev pub as_delivered : StoredMessage → StoredMessage
  as_delivered m = record m { id = a.envelope.id; sent_at = a.envelope.sent_at; state = delivered }

  abbrev pub answer_text :
      (body : Text) → DataDir → MessageStore × Result StoreError (Unit {0}) → Reaction
  answer_text body dir (s, err e) = refuse (message_not_stored e) (with_messages s dir)
  answer_text body dir (s, ok _) = record {
    data_dir = with_messages s dir;
    events = message_arrived a.peer_id a.envelope.id body ∷ [];
    replies = reply_to a (delivery_receipt (record { message_id = a.envelope.id })) ∷ [];
  }

  unfoldable pub take_text : TextMessage → KnownDevice → DataDir → Reaction
  unfolding new_text_message load_messages append reply_to
  take_text t known dir = elim (new_text_message (a.env.new_id 0) a.env.now_millis t.body false) [
    | err e ↦ refuse (text_refused e) dir
    | ok stored ↦ elim (load_messages dir) [
      | none ↦ refuse messages_unreadable dir
      | some messages ↦
          answer_text t.body dir
            (append a.peer_id known.name a.env.now_millis (as_delivered stored) messages)
    ]
  ]

  -- The workplace after a receipt, saved if an entry left its queue.
  abbrev pub confirm_delivery :
      (message_id : Text) → Result CallError (Option Workspace) → Disk → Disk
  confirm_delivery message_id (err e) disk = disk
  confirm_delivery message_id (ok none) disk = disk
  confirm_delivery message_id (ok (some ws)) disk =
      let (ws', removed) = Deliveries.mark_delivery_delivered message_id a.peer_id ws in
      if removed then (save (touch a.env.now_millis ws') disk).0 else disk

  abbrev pub confirm_messages : (message_id : Text) → Option MessageStore → DataDir → DataDir
  confirm_messages message_id none dir = dir
  confirm_messages message_id (some s) dir =
      with_messages ((Store.mark_delivery_delivered a.peer_id message_id s).0) dir

  unfoldable pub take_delivery_receipt : DeliveryReceipt → DataDir → Reaction
  unfolding load_messages Disk.load save touch
  take_delivery_receipt receipt dir =
      let dir' = confirm_messages receipt.message_id (load_messages dir) dir in
      only (delivery_receipt_event a.peer_id receipt.message_id)
        (record dir' { disk = confirm_delivery receipt.message_id (Disk.load dir'.disk) dir'.disk })
