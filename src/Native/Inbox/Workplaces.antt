-- ===== src/Native/Inbox/Workplaces.antt =====
-- The arms of the listener of flutter/native/src/lib.rs for the state of a workplace, its group
-- messages and its broadcasts.
pub mod Twice
use capsi.Base.{
  Bool, true, false, not, ◌&&◌, Option, none, some, List, [], ◌∷◌, if◌then◌else◌, find, Text,
  text_eq, pos, Result, ok, err,
}
use capsi.Protocol.Message.{
  WorkplaceTextMessage, WorkplaceSyncMessage, WorkplaceBroadcastMessage, delivery_receipt, Envelope,
}
use capsi.Identity.Device.{DeviceId}
use capsi.Workplace.State.{Group, WorkplaceMessage, WorkspaceState}
use capsi.Workplace.Workspace.{Workspace, WorkplaceError, is_group, contains_id, has_member, touch}
use capsi.Workplace.Sync.{apply_network_state, from_network_state}
use capsi.Workplace.Messages.{append_message, receive_broadcast}
use capsi.Workplace.Deliveries.{has_received_message, mark_received_message}
use capsi.Native.Disk.{Disk, CallError, load, save, delete}
use capsi.Native.Inbox.{
  DataDir, Arrival, workplace_unreadable, actor_mismatch, deletion_refused, workplace_not_saved,
  sync_rejected, sender_not_in_group, Event, workplace_deleted, workplace_sync_event,
  workplace_message, workplace_broadcast_event, Reaction, nothing, only, refuse, reply_to,
}

abbrev pub with_disk : Disk → DataDir → DataDir
with_disk disk dir = record dir { disk = disk }

-- `store.save`: an event, and perhaps a reply, if it succeeds.
abbrev pub after_save :
    Event → List (Text × Envelope) → DataDir → Disk × Result CallError (Unit {0}) → Reaction
after_save event replies dir (disk, err e) = refuse (workplace_not_saved e) (with_disk disk dir)
after_save event replies dir (disk, ok _) = record {
  data_dir = with_disk disk dir;
  events = event ∷ [];
  replies = replies;
}

module _ (own : DeviceId) (a : Arrival) where
  abbrev pub after_delete : WorkspaceState → DataDir → Disk × Result CallError (Unit {0}) → Reaction
  after_delete state dir (disk, err e) = nothing (with_disk disk dir)
  after_delete state dir (disk, ok _) =
      only (workplace_deleted a.peer_id state.id) (with_disk disk dir)

  -- The tombstone of the workplace that is stored here, from its owner.
  abbrev pub bury_loaded : WorkspaceState → Result CallError (Option Workspace) → DataDir → Reaction
  bury_loaded state (err e) dir = nothing dir
  bury_loaded state (ok none) dir = nothing dir
  bury_loaded state (ok (some local)) dir =
      if text_eq local.id state.id && text_eq local.owner_device_id a.peer_id
      then after_delete state dir (delete dir.disk)
      else nothing dir

  -- The workplace that a state makes of the one that is stored, if there is one.
  abbrev pub applied :
      Workspace × Result WorkplaceError (Unit {0}) → Result WorkplaceError Workspace
  applied (ws, ok _) = ok ws
  applied (ws, err e) = err e

  unfoldable pub merge_state : WorkspaceState → Option Workspace → Result WorkplaceError Workspace
  unfolding apply_network_state from_network_state
  merge_state state none = from_network_state state a.peer_id own
  merge_state state (some ws) = applied (apply_network_state ws state a.peer_id)

  abbrev pub save_merged : Result WorkplaceError Workspace → DataDir → Reaction
  save_merged (err e) dir = refuse (sync_rejected e a.peer_id) dir
  save_merged (ok ws) dir =
      after_save (workplace_sync_event a.peer_id ws.id ws.name) [] dir (save ws dir.disk)

  abbrev pub merge_loaded :
      WorkspaceState → Result CallError (Option Workspace) → DataDir → Reaction
  merge_loaded state (err e) dir = refuse workplace_unreadable dir
  merge_loaded state (ok existing) dir = save_merged (merge_state state existing) dir

  unfoldable pub take_sync : WorkplaceSyncMessage → DataDir → Reaction
  unfolding load delete save merge_state
  take_sync sync dir =
      if not (text_eq sync.actor_device_id a.peer_id)
      then refuse (actor_mismatch a.peer_id) dir
      else if sync.state.deleted
      then if not (text_eq sync.state.owner_device_id a.peer_id)
        then refuse (deletion_refused a.peer_id) dir
        else bury_loaded sync.state (load dir.disk) dir
      else merge_loaded sync.state (load dir.disk) dir

  -- A member of the workplace that the group lists.
  abbrev pub lists_peer : Option Group → Bool
  lists_peer none = false
  lists_peer (some g) = contains_id a.peer_id g.member_ids

  unfoldable pub may_write_in : (group_id : Text) → Workspace → Bool
  may_write_in group_id ws =
      lists_peer (find (is_group group_id) ws.groups) && has_member a.peer_id ws.members

  -- `messages.last_mut()` gets the id again.
  abbrev pub set_last_id : Text → List WorkplaceMessage → List WorkplaceMessage
  set_last_id id [] = []
  set_last_id id (m ∷ []) = record m { id = id } ∷ []
  set_last_id id (m ∷ m' ∷ messages) = m ∷ set_last_id id (m' ∷ messages)

  abbrev pub received : (message_id : Text) → Workspace → Workspace
  received message_id ws = touch a.env.now_millis (
      mark_received_message a.envelope.id
        (record ws { messages = set_last_id message_id ws.messages }))

  abbrev pub keep_message : WorkplaceTextMessage → DataDir → Workspace × Option Text → Reaction
  keep_message m dir (ws, none) = nothing dir
  keep_message m dir (ws, some message_id) =
      after_save (workplace_message a.peer_id m.group_id message_id m.body)
        (reply_to a (delivery_receipt (record { message_id = a.envelope.id })) ∷ []) dir
        (save (received message_id ws) dir.disk)

  abbrev pub take_text_loaded :
      WorkplaceTextMessage → Result CallError (Option Workspace) → DataDir → Reaction
  take_text_loaded m (err e) dir = refuse workplace_unreadable dir
  take_text_loaded m (ok none) dir = nothing dir
  take_text_loaded m (ok (some ws)) dir =
      if has_received_message a.envelope.id ws
      then nothing dir
      else if not (may_write_in m.group_id ws)
      then refuse (sender_not_in_group a.peer_id m.group_id) dir
      else keep_message m dir (append_message m.group_id a.peer_id m.body a.env.now a.env.now' ws)

  unfoldable pub take_workplace_text : WorkplaceTextMessage → DataDir → Reaction
  unfolding load has_received_message may_write_in append_message mark_received_message touch save
      reply_to
  take_workplace_text m dir = take_text_loaded m (load dir.disk) dir

  -- The result of `save` is not looked at.
  abbrev pub keep_broadcast : (broadcast_id : Text) → DataDir → Workspace × Bool → Reaction
  keep_broadcast broadcast_id dir (ws, false) = nothing dir
  keep_broadcast broadcast_id dir (ws, true) =
      only (workplace_broadcast_event broadcast_id) (with_disk ((save ws dir.disk).0) dir)

  abbrev pub take_broadcast_loaded :
      WorkplaceBroadcastMessage → Result CallError (Option Workspace) → DataDir → Reaction
  take_broadcast_loaded b (err e) dir = refuse workplace_unreadable dir
  take_broadcast_loaded b (ok none) dir = nothing dir
  take_broadcast_loaded b (ok (some ws)) dir =
      if not (has_member a.peer_id ws.members)
      then nothing dir
      else keep_broadcast b.broadcast_id dir (
          receive_broadcast b.broadcast_id b.title b.body a.peer_id b.department_id (pos a.env.now)
            ws)

  unfoldable pub take_broadcast : WorkplaceBroadcastMessage → DataDir → Reaction
  unfolding load receive_broadcast save
  take_broadcast b dir =
      if text_eq a.peer_id own then nothing dir else take_broadcast_loaded b (load dir.disk) dir
