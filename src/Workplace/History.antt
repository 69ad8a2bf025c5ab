-- ===== src/Workplace/History.antt =====
-- The life of a workplace on one device: the calls that change it, as a step relation.
use capsi.Base.{
  ℕ, ◌≡◌, refl, ◌≢◌, inl, inr, Option, none, [], arith, ltb, Bool-cases, length, any, find-append,
  Text, text_eq_refl, trim, is_empty, In, ℤ,
}
use capsi.Protocol.Message.{Envelope}
use capsi.Workplace.State.{Role, owner, WorkplaceMessage, WorkspaceState}
use capsi.Workplace.Workspace.{Workspace, is_device, has_member, new, touch, rename}
use capsi.Workplace.Consistency.{IsConsistentWorkspace, HasOwner}
use capsi.Workplace.Sync.{apply_network_state}
use capsi.Workplace.Sync.References.{apply_network_state-IsConsistent}
use capsi.Workplace.Members.{add_member, set_member_role}
use capsi.Workplace.Members.Assignment.{set_member_role-HasOwner}
use capsi.Workplace.Groups.{create_department, create_group, add_to_group, remove_from_group}
use capsi.Workplace.Groups.Consistent.{
  add_member-IsConsistent, set_member_role-IsConsistent, create_group-IsConsistent,
  create_department-IsConsistent, add_to_group-IsConsistent,
}
use capsi.Workplace.Groups.Departure.{remove_from_group-IsConsistent}
use capsi.Workplace.Messages.{append_message, receive_broadcast}
use capsi.Workplace.Messages.Appended.{
  append_message_lem, append_message-IsConsistent, receive_broadcast_lem,
}
use capsi.Workplace.Deliveries.{
  is_delivery, queue_delivery, mark_delivery_delivered, reschedule_delivery, mark_received_message,
}

-- One call, local or on behalf of a peer; `create_broadcast`, `delete_group` and
-- `assign_department` are not among them. A member leaves a group only while the group has no
-- message of that member.
pub data Step : Workspace → Workspace → Type 0 where
  touched : (time : ℤ) (ws : Workspace) → Step ws (touch time ws)
  renamed : (name : Text) (ws : Workspace) → Step ws (rename name ws).0
  synchronized :
      (state : WorkspaceState) (actor_id : Text) (ws : Workspace)
      → Step ws (apply_network_state ws state actor_id).0
  member_added :
      (device_id display_name : Text) (role : Role) (ws : Workspace)
      → Step ws (add_member device_id display_name role ws)
  role_set :
      (actor_id device_id : Text) (role : Role) (ws : Workspace)
      → Step ws (set_member_role actor_id device_id role ws).0
  group_created :
      (name description : Text) (now : ℕ) (ws : Workspace)
      → Step ws (create_group name description now ws).0
  department_created :
      (name : Text) (now : ℕ) (ws : Workspace) → Step ws (create_department name now ws).0
  group_joined :
      (group_id device_id : Text) (ws : Workspace) → Step ws (add_to_group group_id device_id ws).0
  group_left :
      (group_id device_id : Text) (ws : Workspace)
      → ((message : WorkplaceMessage)
          → In message ws.messages
          → message.group_id ≡ group_id
          → message.sender_device_id ≢ device_id)
      → Step ws (remove_from_group group_id device_id ws).0
  message_appended :
      (group_id sender_id body : Text) (now now' : ℕ) (ws : Workspace)
      → Step ws (append_message group_id sender_id body now now' ws).0
  broadcast_received :
      (id title body author_id : Text) (department_id : Option Text) (created_at : ℤ)
      (ws : Workspace)
      → Step ws (receive_broadcast id title body author_id department_id created_at ws).0
  delivery_queued :
      (envelope : Envelope) (recipient_id : Text) (time : ℤ) (ws : Workspace)
      → Step ws (queue_delivery envelope recipient_id time ws)
  delivery_confirmed :
      (envelope_id recipient_id : Text) (ws : Workspace)
      → Step ws (mark_delivery_delivered envelope_id recipient_id ws).0
  delivery_postponed :
      (envelope_id recipient_id : Text) (time : ℤ) (ws : Workspace)
      → Step ws (reschedule_delivery envelope_id recipient_id time ws)
  marked_received :
      (envelope_id : Text) (ws : Workspace) → Step ws (mark_received_message envelope_id ws)

pub data Reach (s : Workspace) : Workspace → Type 0 where
  here : Reach s s
  next : {t u : Workspace} → Reach s t → Step t u → Reach s u

-- What holds of a workplace at any time: its references are consistent, and its owner is a member
-- with the role of the owner.
pub record IsSound (ws : Workspace) : Type 0 where
  pub consistent : IsConsistentWorkspace ws
  pub has_owner : HasOwner ws.owner_device_id ws.members

rename-IsSound : (name : Text) (ws : Workspace) → IsSound ws → IsSound (rename name ws).0
unfolding rename
rename-IsSound name ws s = elim (Bool-cases (is_empty (trim name))) [
  | inl e ↦ rw (rename, e) s
  | inr e ↦ elim (Bool-cases (ltb 64 (length (trim name)))) [
    | inl long ↦ rw (rename, e, long) s
    | inr fits ↦
        rw (rename, e, fits) (record { consistent = s.consistent; has_owner = s.has_owner })
  ]
]

queue_delivery-IsSound :
    (envelope : Envelope) (recipient_id : Text) (time : ℤ) (ws : Workspace)
    → IsSound ws
    → IsSound (queue_delivery envelope recipient_id time ws)
unfolding queue_delivery
queue_delivery-IsSound envelope recipient_id time ws s =
    elim (Bool-cases (any (is_delivery envelope.id recipient_id) ws.pending_deliveries)) [
      | inl there ↦ rw there s
      | inr fresh ↦ rw fresh (record { consistent = s.consistent; has_owner = s.has_owner })
    ]

add_member-HasOwner :
    (device_id display_name : Text) (role : Role) (ws : Workspace)
    → HasOwner ws.owner_device_id ws.members
    → let after = add_member device_id display_name role ws in
      HasOwner after.owner_device_id after.members
unfolding add_member
add_member-HasOwner device_id display_name role ws (o, found, is_owner) =
    elim (Bool-cases (has_member device_id ws.members)) [
      | inl there ↦ rw there (o, found, is_owner)
      | inr fresh ↦
          rw fresh (o, find-append (is_device ws.owner_device_id) ws.members _ o found, is_owner)
    ]

set_member_role-owner :
    (actor_id device_id : Text) (role : Role) (ws : Workspace)
    → (set_member_role actor_id device_id role ws).0.owner_device_id ≡ ws.owner_device_id
unfolding set_member_role
set_member_role-owner actor_id device_id role ws = ground arith

add_to_group_frame :
    (group_id device_id : Text) (ws : Workspace)
    → (add_to_group group_id device_id ws).0
      ≡ record ws { groups = (add_to_group group_id device_id ws).0.groups }
unfolding add_to_group
add_to_group_frame group_id device_id ws = ground arith

remove_from_group_frame :
    (group_id device_id : Text) (ws : Workspace)
    → (remove_from_group group_id device_id ws).0
      ≡ record ws { groups = (remove_from_group group_id device_id ws).0.groups }
unfolding remove_from_group
remove_from_group_frame group_id device_id ws = ground arith

-- A new workplace has one member, its owner.
pub new-IsSound :
    (name owner_id : Text) (now now' : ℕ) (now_millis : ℤ)
    → IsSound (new name owner_id now now' now_millis)
unfolding new
new-IsSound name owner_id now now' now_millis = record {
  consistent = record {
    group_members = λ g there. absurd there;
    department_members = λ d there. absurd there;
    member_departments =
        λ m there i placed. elim there [ inl e ↦ absurd (cc) | inr nowhere ↦ absurd nowhere ];
    message_senders = λ message there. absurd there;
  };
  has_owner = (
    record { device_id = owner_id; display_name = []; role = owner; department_id = none },
    rw (text_eq_refl owner_id),
    refl,
  );
}

pub Step-IsSound : {t u : Workspace} → Step t u → IsSound t → IsSound u
Step-IsSound (renamed name ws) s = rename-IsSound name ws s
Step-IsSound (synchronized state actor_id ws) s =
    elim (apply_network_state-IsConsistent ws state actor_id) [
      | inl same ↦ rw same s
      | inr (c, o) ↦ record { consistent = c; has_owner = o }
    ]
Step-IsSound (touched time ws) s =
    unfold touch in record { consistent = s.consistent; has_owner = s.has_owner }
Step-IsSound (member_added device_id display_name role ws) s = record {
  consistent = add_member-IsConsistent device_id display_name role ws s.consistent;
  has_owner = add_member-HasOwner device_id display_name role ws s.has_owner;
}
Step-IsSound (role_set actor_id device_id role ws) s = record {
  consistent = set_member_role-IsConsistent actor_id device_id role ws s.consistent;
  has_owner =
      rw set_member_role-owner (set_member_role-HasOwner actor_id device_id role ws s.has_owner);
}
Step-IsSound (group_created name description now ws) s = record {
  consistent = create_group-IsConsistent name description now ws s.consistent;
  has_owner = unfold create_group in s.has_owner;
}
Step-IsSound (department_created name now ws) s = record {
  consistent = create_department-IsConsistent name now ws s.consistent;
  has_owner = unfold create_department in s.has_owner;
}
Step-IsSound (group_joined group_id device_id ws) s = record {
  consistent = add_to_group-IsConsistent group_id device_id ws s.consistent;
  has_owner = rw add_to_group_frame s.has_owner;
}
Step-IsSound (group_left group_id device_id ws silent) s = record {
  consistent = remove_from_group-IsConsistent group_id device_id ws s.consistent silent;
  has_owner = rw remove_from_group_frame s.has_owner;
}
Step-IsSound (message_appended group_id sender_id body now now' ws) s =
    elim (append_message_lem group_id sender_id body now now' ws) [
      | inl (same, _) ↦ rw same s
      | inr (_, _, _, _, _, e) ↦
          let c = append_message-IsConsistent group_id sender_id body now now' ws s.consistent in
          record { consistent = c; has_owner = rw e s.has_owner }
    ]
Step-IsSound (broadcast_received id title body author_id department_id created_at ws) s =
    rw (receive_broadcast_lem id title body author_id department_id created_at ws).0
      (record { consistent = s.consistent; has_owner = s.has_owner })
Step-IsSound (delivery_queued envelope recipient_id time ws) s =
    queue_delivery-IsSound envelope recipient_id time ws s
Step-IsSound (delivery_confirmed envelope_id recipient_id ws) s =
    unfold mark_delivery_delivered in record { consistent = s.consistent; has_owner = s.has_owner }
Step-IsSound (delivery_postponed envelope_id recipient_id time ws) s =
    unfold reschedule_delivery in record { consistent = s.consistent; has_owner = s.has_owner }
Step-IsSound (marked_received envelope_id ws) s =
    unfold mark_received_message in record { consistent = s.consistent; has_owner = s.has_owner }

pub Reach-IsSound : {s t : Workspace} → IsSound s → Reach s t → IsSound t
Reach-IsSound h here = h
Reach-IsSound h (next r step) = Step-IsSound step (Reach-IsSound h r)

-- From the creation of a workplace on, through any sequence of calls and synchronizations, all
-- references are consistent and the owner is a member with the role of the owner. A member leaves
-- a group only while the group has no message of that member, and no call is `create_broadcast`,
-- `delete_group` or `assign_department`.
pub reachable-IsSound :
    (name owner_id : Text) (now now' : ℕ) (now_millis : ℤ) {ws : Workspace}
    → Reach (new name owner_id now now' now_millis) ws
    → IsSound ws
reachable-IsSound name owner_id now now' now_millis r =
    Reach-IsSound (new-IsSound name owner_id now now' now_millis) r
