-- ===== src/Workplace/Permissions.antt =====
-- `permissions_for` of workplace.rs. The `BTreeSet` lists its elements in the order of the enum.
use capsi.Base.{Bool, true, false, Option, none, some, List, [], ◌∷◌, find, any, Text}
use capsi.Workplace.State.{
  Role, owner, admin, manager, member, Permission, manage_workspace, manage_members, manage_groups,
  manage_departments, send_broadcasts, send_messages, transfer_files, Member,
}
use capsi.Workplace.Workspace.{Workspace, is_device}

-- The sets of the four roles.
unfoldable pub permissions_of : Role → List Permission
permissions_of owner =
    manage_workspace ∷ manage_members ∷ manage_groups ∷ manage_departments ∷ send_broadcasts
    ∷ send_messages ∷ transfer_files ∷ []
permissions_of admin =
    manage_members ∷ manage_groups ∷ manage_departments ∷ send_broadcasts ∷ send_messages
    ∷ transfer_files ∷ []
permissions_of manager = manage_groups ∷ send_broadcasts ∷ send_messages ∷ transfer_files ∷ []
permissions_of member = send_messages ∷ transfer_files ∷ []

permissions_of_found : Option Member → List Permission
permissions_of_found none = []
permissions_of_found (some m) = permissions_of m.role

unfoldable pub permissions_for : Workspace → Text → List Permission
unfolding permissions_of permissions_of_found
permissions_for ws device_id = permissions_of_found (find (is_device device_id) ws.members)

-- `BTreeSet::contains`.
abbrev pub permission_eq : Permission → Permission → Bool
permission_eq manage_workspace manage_workspace = true
permission_eq manage_members manage_members = true
permission_eq manage_groups manage_groups = true
permission_eq manage_departments manage_departments = true
permission_eq send_broadcasts send_broadcasts = true
permission_eq send_messages send_messages = true
permission_eq transfer_files transfer_files = true
permission_eq _ _ = false

unfoldable pub permits : Workspace → Text → Permission → Bool
unfolding permissions_for
permits ws device_id p = any (permission_eq p) (permissions_for ws device_id)
