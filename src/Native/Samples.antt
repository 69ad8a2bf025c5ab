-- ===== src/Native/Samples.antt =====
-- The theorems on the calls and the queue at one small disk.
use capsi.Base.{
  ◌≡◌, refl, ◌⊎◌, true, false, none, some, [], ◌∷◌, replicate, Text, codes, text_eq, pos, ok, err,
}
use capsi.Protocol.Message.{protocol_version, typing, Envelope}
use capsi.Identity.Trust.{trusted, TrustStore, newcomer}
use capsi.Identity.Device.{DeviceId}
use capsi.Workplace.State.{owner, member}
use capsi.Workplace.Workspace.{Workspace}
use capsi.Workplace.Deliveries.{new_delivery}
use capsi.Native.Disk.{IsFailed, Disk, CallError, not_the_owner, Environment, load_existing}
use capsi.Native.Outbox.{deliver_workplace_envelope, WorkplaceSyncStatus}
use capsi.Native.Outbox.Fate.{entry}
use capsi.Native.Outbox.Missed.{IsLeft, deliver_workplace_envelope_lem}
use capsi.Native.Calls.{Answer, to_create_group, perform_call}
use capsi.Native.Calls.Guarded.{IsPerformed, perform_call_lem}
use capsi.Native.Deletion.{capsi_workplace_delete, capsi_workplace_delete_lem}

abbrev anna : Text
anna = replicate 64 b'a'

abbrev ben : Text
ben = replicate 64 b'b'

abbrev around : Environment
around = record {
  now = 1000;
  now' = 1000;
  now_millis = pos 1000000;
  new_id = λ n. codes "e";
  has_runtime = true;
  connect_and_send = λ socket peer envelope. false;
}

abbrev ping : Envelope
ping = record {
  version = protocol_version;
  id = codes "e1";
  sent_at = pos 10;
  message = typing true;
}

abbrev office : Workspace
office = record {
  id = codes "workspace-1";
  name = codes "Office";
  created_at = pos 1;
  updated_at = pos 1;
  owner_device_id = anna;
  members =
      record { device_id = anna; display_name = []; role = owner; department_id = none }
      ∷ record { device_id = ben; display_name = []; role = member; department_id = none }
      ∷ [];
  groups = [];
  departments = [];
  broadcasts = [];
  messages = [];
  pending_deliveries = new_delivery ping ben (pos 20) ∷ [];
  received_message_ids = [];
}

abbrev disk : Disk
disk = record {
  own_id = some anna;
  trust = none;
  workspace = some office;
  readable = true;
  whole = true;
  writable = true;
  cuts_short = true;
  removable = true;
}

perform_call_lem_example :
    let (after, result) = perform_call around (to_create_group (some (codes "Team"))) disk in
    ((e : CallError) × (result ≡ err e) × IsFailed disk after e)
    ⊎ ((answer : Answer) × (result ≡ ok answer)
        × IsPerformed around (to_create_group (some (codes "Team"))) disk after answer)
perform_call_lem_example = perform_call_lem around (to_create_group (some (codes "Team"))) disk

abbrev trusting_ben : TrustStore
trusting_ben = record {
  devices =
      (
        ben,
        record (newcomer ben (codes "Ben") (codes "10.0.0.2:45892") (pos 1)) { state = trusted },
      )
      ∷ [];
  dirty = false;
}

abbrev empty_office : Workspace
empty_office = record office { pending_deliveries = [] }

deliver_workplace_envelope_lem_example :
    IsLeft around (some trusting_ben) ping (ben ∷ []) (codes "e1") ben none (
      entry (codes "e1") ben (
        (deliver_workplace_envelope around
          (some trusting_ben)
          ping
          (ben ∷ [])
          empty_office).pending_deliveries))
deliver_workplace_envelope_lem_example =
    deliver_workplace_envelope_lem around (some trusting_ben) ping (ben ∷ []) empty_office
      (codes "e1") ben

capsi_workplace_delete_lem_example :
    let (after, result) = capsi_workplace_delete around disk in
    ((e : CallError) × (result ≡ err e) × (after ≡ disk))
    ⊎ ((own : DeviceId) × (ws : Workspace) × (status : WorkplaceSyncStatus) × (disk.own_id
          ≡ some own)
        × (load_existing disk ≡ ok ws)
        × (ws.owner_device_id ≡ own)
        × (result ≡ ok status)
        × (after ≡ record disk { workspace = none }))
capsi_workplace_delete_lem_example = capsi_workplace_delete_lem around disk

-- The same call in the hands of a member that is not the owner.
capsi_workplace_delete_test :
    capsi_workplace_delete around (record disk { own_id = some ben })
    ≡ (record disk { own_id = some ben }, err not_the_owner)
unfolding capsi_workplace_delete text_eq
capsi_workplace_delete_test = refl
