-- ===== src/Workplace/Workspace.antt =====
-- `Workspace` of workplace.rs: the state that one device keeps, and the constructors.
use capsi.Base.{
  Text, codes, text_eq, ℕ, ℤ, pos, Option, none, Bool, true, false, List, [], ◌∷◌, ◌++◌, any, trim,
  is_empty, ltb, length, if◌then◌else◌, Result, ok, err,
}
use capsi.Base.Decimal.{to_decimal}
use capsi.Workplace.State.{
  owner, Member, Group, Department, Broadcast, WorkplaceMessage, WorkspaceState,
}
use capsi.Protocol.Message.{Envelope}

pub record PendingWorkplaceDelivery : Type 0 where
  pub envelope : Envelope
  pub recipient_device_id : Text
  pub attempts : ℕ
  pub next_attempt_at : ℤ
  pub last_error : Option Text

pub record Workspace : Type 0 where
  pub id : Text
  pub name : Text
  pub created_at : ℤ
  pub updated_at : ℤ
  pub owner_device_id : Text
  pub members : List Member
  pub groups : List Group
  pub departments : List Department
  pub broadcasts : List Broadcast
  pub messages : List WorkplaceMessage
  pub pending_deliveries : List PendingWorkplaceDelivery
  pub received_message_ids : List Text

-- The errors of the methods, one for each message.
pub data WorkplaceError : Type 0 where
  empty_name name_too_long : WorkplaceError
  id_mismatch owner_changed sender_not_member sender_not_admin : WorkplaceError
  no_owner_member invalid_owner_role : WorkplaceError
  group_unknown_member department_unknown_member : WorkplaceError
  member_unknown_department department_missing_member : WorkplaceError
  message_unknown_group message_sender_not_in_group : WorkplaceError
  privileged_created sender_role_changed : WorkplaceError
  actor_not_owner empty_id not_a_member : WorkplaceError
  member_not_found owner_role_fixed actor_not_member : WorkplaceError
  role_above_own target_above_own : WorkplaceError

-- `id(prefix, counter)`: `prefix-seconds-counter`.
unfoldable pub fresh_id : Text → (now : ℕ) (counter : ℕ) → Text
unfolding to_decimal
fresh_id prefix now counter =
    prefix ++ (codes "-" ++ (to_decimal now ++ (codes "-" ++ to_decimal counter)))

-- `|m| m.device_id == id`, `|g| g.id == id` and `|d| d.id == id`.
abbrev pub is_device : Text → Member → Bool
is_device id m = text_eq m.device_id id

abbrev pub is_group : Text → Group → Bool
is_group id g = text_eq g.id id

abbrev pub is_department : Text → Department → Bool
is_department id d = text_eq d.id id

-- `iter().any(|id| id == device_id)`.
abbrev pub contains_id : Text → List Text → Bool
contains_id id ids = any (λ i. text_eq i id) ids

abbrev pub has_member : Text → List Member → Bool
has_member id ms = any (is_device id) ms

-- `Workspace::new`, with the three readings of the clock.
unfoldable pub new : (name owner_id : Text) (now now' : ℕ) (now_millis : ℤ) → Workspace
unfolding to_decimal
new name owner_id now now' now_millis = record {
  id = codes "workspace-" ++ to_decimal now;
  name = name;
  created_at = pos now';
  updated_at = now_millis;
  owner_device_id = owner_id;
  members =
      record { device_id = owner_id; display_name = []; role = owner; department_id = none } ∷ [];
  groups = [];
  departments = [];
  broadcasts = [];
  messages = [];
  pending_deliveries = [];
  received_message_ids = [];
}

unfoldable pub touch : (now_millis : ℤ) → Workspace → Workspace
touch now_millis ws = record ws { updated_at = now_millis }

-- `Workspace::rename`.
unfoldable pub rename : Text → Workspace → Workspace × Result WorkplaceError (Unit {0})
rename name ws =
    let name = trim name in
    if is_empty name
    then (ws, err empty_name)
    else if ltb 64 (length name)
    then (ws, err name_too_long)
    else (record ws { name = name }, ok tt)

-- `Workspace::network_state`.
unfoldable pub network_state : Workspace → WorkspaceState
network_state ws = record {
  id = ws.id;
  name = ws.name;
  created_at = ws.created_at;
  updated_at = ws.updated_at;
  owner_device_id = ws.owner_device_id;
  members = ws.members;
  groups = ws.groups;
  departments = ws.departments;
  broadcasts = ws.broadcasts;
  messages = ws.messages;
  deleted = false;
}

-- `Workspace::tombstone_state`.
unfoldable pub tombstone_state : (now_millis : ℤ) → Workspace → WorkspaceState
unfolding network_state
tombstone_state now_millis ws =
    let state = network_state ws in record state { deleted = true; updated_at = now_millis }
