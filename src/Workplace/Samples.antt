-- ===== src/Workplace/Samples.antt =====
-- The theorems on workplace.rs at one small workplace: an owner, an admin, a member, a group with
-- the member in it, and a message of that member.
use capsi.Base.{
  ◌≡◌, refl, ap, ◌≢◌, ◌⊎◌, inl, inr, true, none, some, [], ◌∷◌, arith, find, Text, codes, text_eq,
  text_eq_iff, In, pos, ◌≤ℤ◌, ≤ℤ_refl, ok, err,
}
use capsi.Base.Decimal.{to_decimal}
use capsi.Workplace.Groups.Departure.{remove_from_group_blocks_sync}
use capsi.Protocol.Message.{protocol_version, typing, Envelope}
use capsi.Workplace.State.{admin, manager, member, Member, Group, WorkplaceMessage}
use capsi.Workplace.Workspace.{Workspace, WorkplaceError, fresh_id, is_device, new, network_state}
use capsi.Workplace.Consistency.{IsGroupOf, IsConsistentWorkspace, HasOwner}
use capsi.Workplace.Sync.{
  groups_known, departments_known, check_member, check_message, for_each, privileged, is_subset,
  check_admin, admit, replace_state, apply_network_state,
}
use capsi.Workplace.Members.{add_member, set_member_role}
use capsi.Workplace.Members.Assignment.{IsAllowed, set_member_role_lem}
use capsi.Workplace.Groups.{create_group, add_to_group, remove_from_group}
use capsi.Workplace.Messages.{append_message}
use capsi.Workplace.Deliveries.{queue_delivery, has_received_message, mark_received_message}
use capsi.Workplace.Deliveries.Journal.{IsJournal, mark_received_message-IsJournal}
use capsi.Workplace.Sync.References.{
  apply_network_state-IsConsistent, apply_network_state_frame, owner_sync_accepted,
}
use capsi.Workplace.Sync.Authority.{admin_cannot_promote}
use capsi.Workplace.History.{
  member_added, group_created, group_joined, message_appended, Reach, here, next, IsSound,
  new-IsSound, Reach-IsSound, reachable-IsSound,
}

abbrev anna : Text
anna = codes "anna"

abbrev ben : Text
ben = codes "ben"

abbrev cleo : Text
cleo = codes "cleo"

abbrev design : Text
design = codes "group-200-0"

abbrev founded : Workspace
founded = new (codes "Studio") anna 100 100 (pos 100000)

abbrev staffed : Workspace
staffed = add_member cleo (codes "Cleo") member (add_member ben (codes "Ben") admin founded)

abbrev grouped : Workspace
grouped = (create_group (codes "Design") [] 200 staffed).0

abbrev joined : Workspace
joined = (add_to_group design cleo grouped).0

abbrev talking : Workspace
talking = (append_message design cleo (codes "hello") 300 300 joined).0

talking_reached : Reach founded talking
talking_reached =
    next
      (next
        (next
          (next (next here (member_added ben (codes "Ben") admin founded))
            (member_added cleo (codes "Cleo") member (add_member ben (codes "Ben") admin founded)))
          (group_created (codes "Design") [] 200 staffed))
        (group_joined design cleo grouped))
      (message_appended design cleo (codes "hello") 300 300 joined)

reachable-IsSound_example : IsSound talking
reachable-IsSound_example =
    reachable-IsSound (codes "Studio") anna 100 100 (pos 100000) talking_reached

talking-IsSound : IsSound talking
talking-IsSound =
    Reach-IsSound (new-IsSound (codes "Studio") anna 100 100 (pos 100000)) talking_reached

apply_network_state-IsConsistent_example :
    let after = (apply_network_state founded (network_state talking) anna).0 in
    (after ≡ founded) ⊎ IsConsistentWorkspace after × HasOwner after.owner_device_id after.members
apply_network_state-IsConsistent_example =
    apply_network_state-IsConsistent founded (network_state talking) anna

apply_network_state_frame_example :
    let after = (apply_network_state founded (network_state talking) anna).0 in
    (after.id ≡ founded.id)
    × (after.created_at ≡ founded.created_at)
    × (after.owner_device_id ≡ founded.owner_device_id)
    × (after.pending_deliveries ≡ founded.pending_deliveries)
    × (after.received_message_ids ≡ founded.received_message_ids)
    × (founded.updated_at ≤ℤ after.updated_at)
apply_network_state_frame_example = apply_network_state_frame founded (network_state talking) anna

owner_sync_accepted_example :
    apply_network_state talking (network_state talking) talking.owner_device_id
    ≡ (replace_state talking (network_state talking), ok tt)
owner_sync_accepted_example =
    owner_sync_accepted talking talking talking-IsSound.consistent talking-IsSound.has_owner refl
      refl talking-IsSound.has_owner (≤ℤ_refl talking.updated_at)

mark_received_message-IsJournal_example :
    let after = mark_received_message (codes "m1") founded in
    IsJournal after
    × (has_received_message (codes "m1") after ≡ true)
    × (has_received_message (codes "m1") founded ≡ true → after ≡ founded)
mark_received_message-IsJournal_example =
    mark_received_message-IsJournal (codes "m1") founded founded-IsJournal
  where
    founded-IsJournal : IsJournal founded
    founded-IsJournal = unfold new in record { bounded = omega arith; distinct = tt }

set_member_role_lem_example :
    let (after, result) = set_member_role anna cleo manager talking in
    ((e : WorkplaceError) × (result ≡ err e) × (after ≡ talking))
    ⊎ (a : IsAllowed anna cleo manager talking) × (result ≡ ok tt)
      × (find (is_device cleo) after.members ≡ some (record (a.target) { role = manager }))
      × ((other : Text)
          → other ≢ cleo
          → find (is_device other) after.members ≡ find (is_device other) talking.members)
set_member_role_lem_example = set_member_role_lem anna cleo manager talking

abbrev cleo_entry : Member
cleo_entry = record {
  device_id = cleo;
  display_name = codes "Cleo";
  role = member;
  department_id = none;
}

abbrev ben_entry : Member
ben_entry = record {
  device_id = ben;
  display_name = codes "Ben";
  role = admin;
  department_id = none;
}

ben_found : find (is_device ben) talking.members ≡ some ben_entry
unfolding append_message add_to_group create_group add_member new fresh_id to_decimal text_eq
ben_found = refl

ben_after : In ben_entry (apply_network_state talking (network_state talking) ben).0.members
unfolding apply_network_state network_state admit check_admin check_member check_message for_each
    groups_known departments_known is_subset privileged replace_state append_message add_to_group
    create_group add_member new fresh_id to_decimal text_eq
ben_after = inr (inl refl)

admin_cannot_promote_example :
    (old : Member) × In old talking.members × (old.device_id ≡ ben) × (old.role ≡ admin)
admin_cannot_promote_example =
    admin_cannot_promote talking (network_state talking) ben ben_entry ben_found
      (λ e. absurd (ground arith)) ben_entry ben_after (inr refl)

abbrev hello : WorkplaceMessage
hello = record {
  id = codes "workplace-message-300-0";
  group_id = design;
  sender_device_id = cleo;
  body = codes "hello";
  sent_at = pos 300;
}

abbrev design_group : Group
design_group = record {
  id = design;
  name = codes "Design";
  description = [];
  member_ids = cleo ∷ [];
}

design_found : IsGroupOf talking.groups design design_group
unfolding append_message add_to_group create_group add_member new fresh_id to_decimal text_eq
design_found = refl

hello_there : In hello talking.messages
unfolding append_message add_to_group create_group add_member new fresh_id to_decimal text_eq
hello_there = inl refl

remove_from_group_blocks_sync_example :
    (apply_network_state founded (network_state (remove_from_group design cleo talking).0) anna).0
    ≡ founded
remove_from_group_blocks_sync_example =
    remove_from_group_blocks_sync design cleo talking design_group hello design_found hello_there
      refl refl founded anna

silent :
    (message : WorkplaceMessage)
    → In message talking.messages
    → message.group_id ≡ design
    → message.sender_device_id ≢ ben
unfolding append_message add_to_group create_group add_member new fresh_id to_decimal text_eq
silent message (inl e) in_group by = ground (
  arith,
  ap (λ (m : WorkplaceMessage). text_eq m.sender_device_id ben) e,
  text_eq_iff message.sender_device_id ben,
)
silent message (inr nowhere) in_group by = nowhere

abbrev parcel : Envelope
parcel = record {
  version = protocol_version;
  id = codes "e1";
  sent_at = pos 1;
  message = typing true;
}

abbrev waiting : Workspace
waiting = queue_delivery parcel cleo (pos 10) talking
