-- ===== src/Workplace/Members.antt =====
-- The members of workplace.rs: `add_member` and `set_member_role`.
pub mod Assignment
use capsi.Base.{
  not, ◌||◌, none, [], ◌∷◌, ◌++◌, if◌then◌else◌, find, update_first, Text, text_eq, Result, ok, err,
  ◌>>=◌, ◌>>◌, guard, ok_or,
}
use capsi.Workplace.State.{Role, owner}
use capsi.Workplace.Roles.{can_assign, role_eq}
use capsi.Workplace.Workspace.{
  Workspace, WorkplaceError, member_not_found, owner_role_fixed, actor_not_member, role_above_own,
  target_above_own, is_device, has_member,
}

unfoldable pub add_member : (device_id display_name : Text) → Role → Workspace → Workspace
add_member device_id display_name role ws =
    if has_member device_id ws.members then ws else record ws {
      members =
          ws.members
          ++ record {
            device_id = device_id;
            display_name = display_name;
            role = role;
            department_id = none;
          }
            ∷ [];
    }

-- The guards of `set_member_role`, in their order.
unfoldable pub check_role_change :
    (actor_id device_id : Text) → Role → Workspace → Result WorkplaceError (Unit {0})
check_role_change actor_id device_id role ws = do
  target ← ok_or (find (is_device device_id) ws.members) member_not_found
  guard
      (not
        (text_eq device_id ws.owner_device_id || role_eq target.role owner || role_eq role owner))
      owner_role_fixed
  actor ← ok_or (find (is_device actor_id) ws.members) actor_not_member
  guard (can_assign actor.role role) role_above_own
  guard (can_assign actor.role target.role) target_above_own

unfoldable pub set_member_role :
    (actor_id device_id : Text) → Role → Workspace → Workspace × Result WorkplaceError (Unit {0})
set_member_role actor_id device_id role ws = elim (check_role_change actor_id device_id role ws) [
  | err e ↦ (ws, err e)
  | ok _ ↦ (
    record ws {
      members = update_first (is_device device_id) (λ m. record m { role = role }) ws.members;
    },
    ok tt,
  )
]
