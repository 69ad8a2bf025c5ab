-- ===== src/Native/Founding.antt =====
-- `capsi_workplace_create` of flutter/native/src/lib.rs.
pub mod Founded
use capsi.Base.{Option, none, some, List, [], ◌∷◌, update_first, Text, codes, Result, err}
use capsi.Identity.Device.{DeviceId}
use capsi.Identity.Trust.{KnownDevice, display_name, TrustStore, trusted_devices, nonblank}
use capsi.Workplace.State.{member, Member}
use capsi.Workplace.Workspace.{Workspace, is_device, new, network_state}
use capsi.Workplace.Members.{add_member}
use capsi.Native.Disk.{Disk, CallError, no_identity, name_invalid, Environment, save}
use capsi.Native.Outbox.{sync_state_to_members}
use capsi.Native.Calls.{Answer, distribute}

-- `iter_mut().find(..)` on the members, and the name of the owner.
abbrev pub called_this_device : Member → Member
called_this_device m = record m { display_name = codes "This device" }

unfoldable pub found_workplace : Environment → (own : DeviceId) (name : Text) → Workspace
unfolding new
found_workplace env own name =
    let ws = new name own env.now env.now' env.now_millis in
    record ws { members = update_first (is_device own) called_this_device ws.members }

-- The loop over the trusted devices.
unfoldable pub add_devices : List KnownDevice → Workspace → Workspace
unfolding display_name add_member
add_devices [] ws = ws
add_devices (d ∷ devices) ws =
    add_devices devices (add_member d.device_id (display_name d) member ws)

module _ (to_lowercase : Text → Text) where
  -- The devices that are members from the start; a list that cannot be read has none.
  abbrev pub invited_devices : Option TrustStore → List KnownDevice
  invited_devices none = []
  invited_devices (some trust) = trusted_devices to_lowercase trust

  -- What is done once the name and the keys are there.
  abbrev pub create_as :
      Environment → (name : Text) → Option DeviceId → Disk → Disk × Result CallError Answer
  create_as env name none disk = (disk, err no_identity)
  create_as env name (some own) disk =
      let ws = add_devices (invited_devices disk.trust) (found_workplace env own name) in
      distribute env own ws (save ws disk)

  unfoldable pub capsi_workplace_create :
      Environment → (name : Option Text) → Disk → Disk × Result CallError Answer
  unfolding found_workplace add_devices trusted_devices save sync_state_to_members network_state
  capsi_workplace_create env name disk = elim (nonblank name) [
    | none ↦ (disk, err name_invalid)
    | some title ↦ create_as env title disk.own_id disk
  ]
