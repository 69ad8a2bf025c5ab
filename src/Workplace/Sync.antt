-- ===== src/Workplace/Sync.antt =====
-- `apply_network_state` and `from_network_state` of workplace.rs: a state that another device sent.
pub mod Accepted
pub mod Cases
pub mod Authority
pub mod References
use capsi.Base.{
  Text, text_eq, ℤ, ◌<ℤ◌, Option, none, some, Bool, true, false, List, [], ◌∷◌, any, all, find, not,
  ◌&&◌, ◌||◌, trim, is_empty, retain, if◌then◌else◌, Result, ok, err, ◌>>=◌, ◌>>◌, guard, ok_or,
}
use capsi.Workplace.State.{
  Role, owner, admin, manager, member, Member, Group, Department, WorkplaceMessage, WorkspaceState,
}
use capsi.Workplace.Roles.{role_eq}
use capsi.Workplace.Workspace.{
  Workspace, WorkplaceError, id_mismatch, owner_changed, sender_not_member, sender_not_admin,
  no_owner_member, invalid_owner_role, group_unknown_member, department_unknown_member,
  member_unknown_department, department_missing_member, message_unknown_group,
  message_sender_not_in_group, privileged_created, sender_role_changed, actor_not_owner, empty_id,
  not_a_member, is_device, is_group, is_department, contains_id, has_member,
}

-- `matches!(role, Role::Owner | Role::Admin)`.
abbrev pub is_privileged : Role → Bool
is_privileged owner = true
is_privileged admin = true
is_privileged manager = false
is_privileged member = false

-- The loop over the groups, and the loop over the departments.
unfoldable pub groups_known : List Member → List Group → Bool
groups_known members groups = all (λ g. all (λ i. has_member i members) g.member_ids) groups

unfoldable pub departments_known : List Member → List Department → Bool
departments_known members departments =
    all (λ d. all (λ i. has_member i members) d.member_ids) departments

-- The body of the loop over the members.
unfoldable pub check_member : List Department → Member → Result WorkplaceError (Unit {0})
check_member departments m = elim m.department_id [
  | none ↦ ok tt
  | some department_id ↦ elim (find (is_department department_id) departments) [
    | none ↦ err member_unknown_department
    | some d ↦ guard (contains_id m.device_id d.member_ids) department_missing_member
  ]
]

-- The body of the loop over the messages.
unfoldable pub check_message :
    List Member → List Group → WorkplaceMessage → Result WorkplaceError (Unit {0})
check_message members groups message = elim (find (is_group message.group_id) groups) [
  | none ↦ err message_unknown_group
  | some g ↦
      guard
        (has_member message.sender_device_id members
          && contains_id message.sender_device_id g.member_ids)
        message_sender_not_in_group
]

-- A `for` loop whose body may return an error.
unfoldable pub for_each :
    {A : Type 0}
    → (A → Result WorkplaceError (Unit {0}))
    → List A
    → Result WorkplaceError (Unit {0})
for_each body [] = ok tt
for_each body (x ∷ xs) = body x >> for_each body xs

-- The set of `(device_id, role)` of the owners and admins.
unfoldable pub privileged : List Member → List Member
privileged members = retain (λ m. is_privileged m.role) members

abbrev pub same_rank : Member → Member → Bool
same_rank a b = text_eq a.device_id b.device_id && role_eq a.role b.role

-- `incoming_privileged.is_subset(&local_privileged)`.
unfoldable pub is_subset : List Member → List Member → Bool
is_subset incoming locals = all (λ m. any (same_rank m) locals) incoming

-- The role of the sender in the incoming list, `Member` if it is not there.
abbrev role_or_member : Option Member → Role
role_or_member none = member
role_or_member (some m) = m.role

-- The checks on an actor that is not an owner.
unfoldable pub check_admin :
    Workspace
    → WorkspaceState
    → (actor : Member) (actor_id : Text) → Result WorkplaceError (Unit {0})
unfolding is_subset privileged
check_admin ws state actor actor_id = if role_eq actor.role owner then ok tt else do
  guard (is_subset (privileged state.members) (privileged ws.members)) privileged_created
  guard (role_eq actor.role (role_or_member (find (is_device actor_id) state.members)))
      sender_role_changed

-- All that `apply_network_state` checks of a state that is not stale.
unfoldable pub admit :
    Workspace → WorkspaceState → (actor_id : Text) → Result WorkplaceError (Unit {0})
admit ws state actor_id = do
  actor ← ok_or (find (is_device actor_id) ws.members) sender_not_member
  guard (is_privileged actor.role) sender_not_admin
  incoming_owner ← ok_or (find (is_device state.owner_device_id) state.members) no_owner_member
  guard (role_eq incoming_owner.role owner) invalid_owner_role
  guard (groups_known state.members state.groups) group_unknown_member
  guard (departments_known state.members state.departments) department_unknown_member
  for_each (check_member state.departments) state.members
  for_each (check_message state.members state.groups) state.messages
  check_admin ws state actor actor_id

-- The assignments at the end of `apply_network_state`.
unfoldable pub replace_state : Workspace → WorkspaceState → Workspace
replace_state ws state = record ws {
  name = state.name;
  updated_at = state.updated_at;
  members = state.members;
  groups = state.groups;
  departments = state.departments;
  broadcasts = state.broadcasts;
  messages = state.messages;
}

unfoldable pub apply_network_state :
    Workspace → WorkspaceState → (actor_id : Text) → Workspace × Result WorkplaceError (Unit {0})
apply_network_state ws state actor_id =
    if not (text_eq state.id ws.id)
    then (ws, err id_mismatch)
    else if not (text_eq state.owner_device_id ws.owner_device_id)
    then (ws, err owner_changed)
    else if state.updated_at <ℤ ws.updated_at
    then (ws, ok tt)
    else elim (admit ws state actor_id) [
      | ok _ ↦ (replace_state ws state, ok tt)
      | err e ↦ (ws, err e)
    ]

-- `from_network_state`: the first copy of a workplace, from its owner.
unfoldable pub from_network_state :
    WorkspaceState → (actor_id local_id : Text) → Result WorkplaceError Workspace
from_network_state state actor_id local_id = do
  guard (text_eq state.owner_device_id actor_id) actor_not_owner
  guard (not (is_empty (trim state.id))) empty_id
  o ← ok_or (find (is_device state.owner_device_id) state.members) no_owner_member
  guard (role_eq o.role owner) invalid_owner_role
  guard (has_member local_id state.members) not_a_member
  ok (record {
    id = state.id;
    name = state.name;
    created_at = state.created_at;
    updated_at = state.updated_at;
    owner_device_id = state.owner_device_id;
    members = state.members;
    groups = state.groups;
    departments = state.departments;
    broadcasts = state.broadcasts;
    messages = state.messages;
    pending_deliveries = [];
    received_message_ids = [];
  })
