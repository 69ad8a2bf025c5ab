-- ===== src/Native/Trusting.antt =====
-- The trust list in flutter/native/src/lib.rs: `capsi_trust_accept`, `capsi_trust_ignore`, and what
-- the thread of `capsi_discovery_start` writes to it.
pub mod Race
use capsi.Base.{
  Bool, false, not, Option, none, some, List, [], ◌∷◌, if◌then◌else◌, Text, text_eq, ℤ, Result, ok,
  err, ok_or, ◌>>=◌, ◌>>◌,
}
use capsi.Protocol.Message.{workplace_sync, Envelope, new_envelope}
use capsi.Identity.Device.{DeviceId, from_hex}
use capsi.Identity.Trust.{
  KnownDevice, display_name, TrustStore, TrustError, observe, accept, ignore,
}
use capsi.Workplace.State.{member}
use capsi.Workplace.Workspace.{Workspace, touch, network_state}
use capsi.Workplace.Members.{add_member}
use capsi.Native.Disk.{Disk, CallError, no_identity, Environment, load, save}
use capsi.Native.Outbox.{socket_of}

pub data TrustingError : Type 0 where
  bad_device_id list_unreadable list_not_saved : TrustingError
  not_nearby : TrustError → TrustingError
  on_workplace : CallError → TrustingError

-- `load_store`: what was read has nothing to save.
unfoldable pub load_store : Disk → Result TrustingError TrustStore
load_store disk = do s ← ok_or disk.trust list_unreadable; ok (record s { dirty = false })

-- The disk after a write of the list that failed: one that was cut is not JSON, so `load` sets it
-- aside and begins with an empty list.
abbrev pub list_not_written : Disk → Disk
list_not_written disk =
    if disk.cuts_short
    then record disk { trust = some (record { devices = []; dirty = false }) }
    else disk

-- `save_if_dirty`, with whether the file can be written.
unfoldable pub save_if_dirty :
    (can_save : Bool) → TrustStore → Disk → Disk × Result TrustingError (Unit {0})
save_if_dirty can_save s disk =
    if not s.dirty
    then (disk, ok tt)
    else if can_save
    then (record disk { trust = some (record s { dirty = false }) }, ok tt)
    else (list_not_written disk, err list_not_saved)

-- The list with a change that may fail, and the entry that the change answers.
abbrev pub save_change :
    (can_save : Bool)
    → TrustStore × Result TrustError KnownDevice
    → Disk
    → Disk × Result TrustingError KnownDevice
save_change can_save (s, err e) disk = (disk, err (not_nearby e))
save_change can_save (s, ok d) disk =
    let (disk', result) = save_if_dirty can_save s disk in
    (disk', elim result [ ok _ ↦ ok d | err e ↦ err e ])

unfoldable pub change_list :
    (can_save : Bool)
    → (TrustStore → TrustStore × Result TrustError KnownDevice)
    → Disk
    → Disk × Result TrustingError KnownDevice
unfolding load_store save_if_dirty
change_list can_save change disk = elim (load_store disk) [
  | err e ↦ (disk, err e)
  | ok s ↦ save_change can_save (change s) disk
]

-- The invitation of a new member; nothing is made of what becomes of it.
unfoldable pub invitation :
    Environment → (own : DeviceId) → KnownDevice → Workspace → Option (Text × Envelope)
unfolding socket_of new_envelope network_state
invitation env own d ws = elim d.last_address [
  | none ↦ none
  | some address ↦
      if env.has_runtime
      then some (
        socket_of address,
        new_envelope (env.new_id 0) env.now_millis
            (workplace_sync (record { actor_device_id = own; state = network_state ws })),
      )
      else none
]

-- What a call that accepts leaves: the disk, the invitation that goes out, and the answer.
pub record Accepted : Type 0 where
  pub disk : Disk
  pub invited : Option (Text × Envelope)
  pub result : Result TrustingError KnownDevice

abbrev pub without_invitation : Disk → Result TrustingError KnownDevice → Accepted
without_invitation disk result = record { disk = disk; invited = none; result = result }

module _ (env : Environment) (id : DeviceId) where
  -- `add_member` and `touch`.
  unfoldable pub with_new_member : KnownDevice → Workspace → Workspace
  unfolding display_name add_member touch
  with_new_member d ws = touch env.now_millis (add_member id (display_name d) member ws)

  abbrev pub saved_member :
      (own : DeviceId) → KnownDevice → Workspace → Disk × Result CallError (Unit {0}) → Accepted
  saved_member own d ws (disk, err e) = without_invitation disk (err (on_workplace e))
  saved_member own d ws (disk, ok _) = record {
    disk = disk;
    invited = invitation env own d ws;
    result = ok d;
  }

  abbrev pub join_loaded :
      KnownDevice → (own : DeviceId) → Result CallError (Option Workspace) → Disk → Accepted
  join_loaded d own (err e) disk = without_invitation disk (err (on_workplace e))
  join_loaded d own (ok none) disk = without_invitation disk (ok d)
  join_loaded d own (ok (some ws)) disk =
      if text_eq ws.owner_device_id own
      then saved_member own d (with_new_member d ws) (save (with_new_member d ws) disk)
      else without_invitation disk (ok d)

  -- The owner of the workplace takes the device that it accepted into it.
  abbrev pub join_workplace : Disk × Result TrustingError KnownDevice → Accepted
  join_workplace (disk, err e) = without_invitation disk (err e)
  join_workplace (disk, ok d) = elim disk.own_id [
    | none ↦ without_invitation disk (err (on_workplace no_identity))
    | some own ↦ join_loaded d own (load disk) disk
  ]

  unfoldable pub accept_device : (can_save : Bool) (alias : Option Text) → Disk → Accepted
  unfolding change_list accept with_new_member invitation load save
  accept_device can_save alias disk = join_workplace (change_list can_save (accept id alias) disk)

unfoldable pub capsi_trust_accept :
    Environment → (can_save : Bool) (device_id alias : Option Text) → Disk → Accepted
unfolding from_hex accept_device
capsi_trust_accept env can_save none alias disk = without_invitation disk (err bad_device_id)
capsi_trust_accept env can_save (some device) alias disk = elim (from_hex device) [
  | err e ↦ without_invitation disk (err bad_device_id)
  | ok id ↦ accept_device env id can_save alias disk
]

unfoldable pub capsi_trust_ignore :
    (can_save : Bool) (device_id : Option Text) → Disk → Disk × Result TrustingError KnownDevice
unfolding from_hex change_list ignore
capsi_trust_ignore can_save none disk = (disk, err bad_device_id)
capsi_trust_ignore can_save (some device) disk = elim (from_hex device) [
  | err e ↦ (disk, err bad_device_id)
  | ok id ↦ change_list can_save (ignore id) disk
]

-- A peer of the table: its id, name and `tcp_address()`.
pub record Sighting : Type 0 where
  pub device_id : DeviceId
  pub name : Text
  pub address : Text

-- The loop of the discovery thread over the peers.
unfoldable pub observe_all : List Sighting → (now : ℤ) → TrustStore → TrustStore
unfolding observe
observe_all [] now s = s
observe_all (peer ∷ peers) now s =
    observe_all peers now ((observe peer.device_id peer.name peer.address now s).0)
