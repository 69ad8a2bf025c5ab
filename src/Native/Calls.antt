-- ===== src/Native/Calls.antt =====
-- The calls on the stored workplace, `capsi_workplace_*` of flutter/native/src/lib.rs. A string
-- argument is `none` when the pointer is null or not UTF-8.
mod Written
pub mod Guarded
use capsi.Base.{
  Bool, not, Option, none, some, List, [], map, if◌then◌else◌, retain, Text, text_eq, Result, ok,
  err, guard, ok_or, ◌>>=◌, ◌>>◌,
}
use capsi.Protocol.Message.{workplace_broadcast, Envelope, new_envelope}
use capsi.Identity.Device.{DeviceId}
use capsi.Identity.Trust.{TrustStore, nonblank}
use capsi.Workplace.State.{
  Role, Permission, manage_workspace, manage_members, manage_groups, manage_departments,
  send_broadcasts, Member,
}
use capsi.Workplace.Roles.{from_wire}
use capsi.Workplace.Workspace.{Workspace, WorkplaceError, touch, network_state, rename}
use capsi.Workplace.Permissions.{permits}
use capsi.Workplace.Members.{set_member_role}
use capsi.Workplace.Groups.{create_department, create_group, add_to_group, remove_from_group}
use capsi.Workplace.Messages.{create_broadcast}
use capsi.Native.Disk.{
  Disk, CallError, no_identity, not_allowed, name_invalid, title_invalid, body_invalid,
  group_id_invalid, device_id_invalid, role_invalid, role_unknown, creator_not_added,
  member_or_group_not_found, not_in_group, same_group, no_destination, broadcast_not_created,
  workplace_error, Environment, load_existing, save,
}
use capsi.Native.Outbox.{deliver_workplace_envelope, WorkplaceSyncStatus, sync_state_to_members}

-- The closure of a call.
abbrev pub Mutation : Type 0
Mutation = (own : DeviceId) → Workspace → Result CallError Workspace

-- A method with a `bool` or an error as its answer, followed by `?` or its like.
abbrev pub demand : CallError → Workspace × Bool → Result CallError Workspace
demand failure (ws, answer) = if answer then ok ws else err failure

abbrev pub succeed : Workspace × Result WorkplaceError (Unit {0}) → Result CallError Workspace
succeed (ws, ok _) = ok ws
succeed (ws, err e) = err (workplace_error e)

-- What a successful call answers: the workplace and what became of its distribution.
abbrev pub Answer : Type 0
Answer = Workspace × WorkplaceSyncStatus

-- The end of `workplace_mutate_path`, after `save`.
abbrev pub distribute :
    Environment
    → (own : DeviceId) (ws : Workspace) → Disk × Result CallError (Unit {0})
    → Disk × Result CallError Answer
distribute env own ws (disk, err e) = (disk, err e)
distribute env own ws (disk, ok _) =
    (disk, ok (ws, sync_state_to_members env own disk.trust ws (network_state ws)))

-- Everything in front of `save`.
unfoldable pub prepare : Mutation → Disk → Result CallError (DeviceId × Workspace)
unfolding load_existing
prepare mutate disk = do
  own ← ok_or disk.own_id no_identity
  ws ← load_existing disk
  ws' ← mutate own ws
  ok (own, ws')

unfoldable pub workplace_mutate_path :
    Environment → Mutation → Disk → Disk × Result CallError Answer
unfolding prepare save sync_state_to_members network_state
workplace_mutate_path env mutate disk = elim (prepare mutate disk) [
  | err e ↦ (disk, err e)
  | ok r ↦ distribute env r.0 r.1 (save r.1 disk)
]

-- The strings of a call: what is wrong with the first bad one, or what is done with them.
abbrev pub with_string : (argument : Option Text) → CallError → (Text → Mutation) → Mutation
with_string argument failure body own ws = do
  value ← ok_or (nonblank argument) failure
  body value own ws

-- `if !workspace.permissions_for(..).contains(..) { return Err(..) }`.
abbrev pub with_permission : Permission → Mutation → Mutation
with_permission p body own ws = do guard (permits ws own p) not_allowed; body own ws

unfoldable pub create_group_with : Environment → (name : Option Text) → Mutation
unfolding create_group add_to_group touch
create_group_with env name = with_permission manage_groups (
    with_string name name_invalid (λ name own ws. do
      let made : Workspace × Text = create_group name [] env.now ws
      added ← demand creator_not_added (add_to_group made.1 own made.0)
      ok (touch env.now_millis added)))

unfoldable pub add_group_member_with : Environment → (group_id device_id : Text) → Mutation
unfolding add_to_group touch
add_group_member_with env group_id device_id = with_permission manage_groups (λ own ws. do
  added ← demand member_or_group_not_found (add_to_group group_id device_id ws)
  ok (touch env.now_millis added))

unfoldable pub create_department_with : Environment → (name : Option Text) → Mutation
unfolding create_department touch
create_department_with env name = with_permission manage_departments (
    with_string name name_invalid
      (λ name own ws. ok (touch env.now_millis (create_department name env.now ws).0)))

-- The ids of the other members.
abbrev pub other_ids : (own : DeviceId) → List Member → List Text
other_ids own members =
    retain (λ id. not (text_eq id own)) (map (λ (m : Member). m.device_id) members)

abbrev pub created : Workspace × Option Text → Result CallError (Workspace × Text)
created (ws, none) = err broadcast_not_created
created (ws, some id) = ok (ws, id)

abbrev pub broadcast_envelope : Environment → (broadcast_id title body : Text) → Envelope
broadcast_envelope env broadcast_id title body = new_envelope (env.new_id 0) env.now_millis (
    workplace_broadcast
      (record { broadcast_id = broadcast_id; title = title; body = body; department_id = none }))

unfoldable pub create_broadcast_with :
    Environment → Option TrustStore → (title body : Option Text) → Mutation
unfolding create_broadcast new_envelope deliver_workplace_envelope touch
create_broadcast_with env trust title body = with_permission send_broadcasts (
    with_string title title_invalid (λ title. with_string body body_invalid (λ body own ws. do
      made ← created (create_broadcast title body own none env.now env.now' ws)
      ok (
          touch env.now_millis (
            deliver_workplace_envelope env trust (broadcast_envelope env made.1 title body)
              (other_ids own made.0.members) made.0)))))

unfoldable pub rename_with : Environment → (name : Text) → Mutation
unfolding rename touch
rename_with env name =
    with_permission manage_workspace
      (λ own ws. do changed ← succeed (rename name ws); ok (touch env.now_millis changed))

unfoldable pub remove_group_member_with : Environment → (group_id device_id : Text) → Mutation
unfolding remove_from_group touch
remove_group_member_with env group_id device_id = with_permission manage_groups (λ own ws. do
  left ← demand not_in_group (remove_from_group group_id device_id ws)
  ok (touch env.now_millis left))

unfoldable pub move_group_member_with :
    Environment → (from_group to_group device_id : Text) → Mutation
unfolding remove_from_group add_to_group touch
move_group_member_with env from_group to_group device_id = with_permission manage_groups (λ own ws.
    do
      guard (not (text_eq from_group to_group)) same_group
      left ← demand not_in_group (remove_from_group from_group device_id ws)
      moved ← demand no_destination (add_to_group to_group device_id left)
      ok (touch env.now_millis moved))

unfoldable pub set_member_role_with : Environment → (device_id : Text) → Role → Mutation
unfolding set_member_role touch
set_member_role_with env device_id role = with_permission manage_members (λ own ws. do
  assigned ← succeed (set_member_role own device_id role ws)
  ok (touch env.now_millis assigned))

-- A call with its arguments.
pub data Call : Type 0 where
  to_create_group to_create_department : (name : Option Text) → Call
  to_add_group_member to_remove_group_member : (group_id device_id : Option Text) → Call
  to_move_group_member : (from_group to_group device_id : Option Text) → Call
  to_create_broadcast : (title body : Option Text) → Call
  to_rename : (name : Option Text) → Call
  to_set_member_role : (device_id role : Option Text) → Call

-- The tests on the arguments in front of `workplace_mutate_path`, and its closure.
unfoldable pub mutation : Environment → Option TrustStore → Call → Result CallError Mutation
unfolding create_group_with add_group_member_with create_department_with create_broadcast_with
    rename_with remove_group_member_with move_group_member_with set_member_role_with from_wire
mutation env trust (to_create_group name) = ok (create_group_with env name)
mutation env trust (to_create_department name) = ok (create_department_with env name)
mutation env trust (to_add_group_member group_id device_id) = do
  group_id ← ok_or (nonblank group_id) group_id_invalid
  device_id ← ok_or (nonblank device_id) device_id_invalid
  ok (add_group_member_with env group_id device_id)
mutation env trust (to_remove_group_member group_id device_id) = do
  group_id ← ok_or (nonblank group_id) group_id_invalid
  device_id ← ok_or (nonblank device_id) device_id_invalid
  ok (remove_group_member_with env group_id device_id)
mutation env trust (to_move_group_member from_group to_group device_id) = do
  from_group ← ok_or (nonblank from_group) group_id_invalid
  to_group ← ok_or (nonblank to_group) group_id_invalid
  device_id ← ok_or (nonblank device_id) device_id_invalid
  ok (move_group_member_with env from_group to_group device_id)
mutation env trust (to_create_broadcast title body) =
    ok (create_broadcast_with env trust title body)
mutation env trust (to_rename name) = do name ← ok_or name name_invalid; ok (rename_with env name)
mutation env trust (to_set_member_role device_id role) = do
  device_id ← ok_or (nonblank device_id) device_id_invalid
  word ← ok_or (nonblank role) role_invalid
  role ← ok_or (from_wire word) role_unknown
  ok (set_member_role_with env device_id role)

unfoldable pub perform_call : Environment → Call → Disk → Disk × Result CallError Answer
unfolding mutation workplace_mutate_path
perform_call env call disk = elim (mutation env disk.trust call) [
  | err e ↦ (disk, err e)
  | ok mutate ↦ workplace_mutate_path env mutate disk
]
