-- ===== src/Workplace/Groups.antt =====
-- The groups and departments of workplace.rs.
pub mod Consistent
pub mod Departure
use capsi.Base.{
  ℕ, Bool, true, false, not, Option, none, some, List, [], ◌∷◌, ◌++◌, ◌==◌, if◌then◌else◌, length,
  find, any, retain, update_first, Text, codes, text_eq,
}
use capsi.Workplace.State.{Group, Department}
use capsi.Workplace.Workspace.{
  Workspace, fresh_id, is_device, is_group, is_department, contains_id, has_member,
}

unfoldable pub create_department : (name : Text) (now : ℕ) → Workspace → Workspace × Text
create_department name now ws =
    let id = fresh_id (codes "department") now (length ws.departments) in
    (
      record ws {
        departments = ws.departments ++ record { id = id; name = name; member_ids = [] } ∷ [];
      },
      id,
    )

unfoldable pub create_group : (name description : Text) (now : ℕ) → Workspace → Workspace × Text
create_group name description now ws =
    let id = fresh_id (codes "group") now (length ws.groups) in
    (
      record ws {
        groups =
            ws.groups
            ++ record { id = id; name = name; description = description; member_ids = [] } ∷ [];
      },
      id,
    )

-- `if !ids.contains(id) { ids.push(id) }`, and `ids.retain(|i| i != id)`.
abbrev pub insert_id : Text → List Text → List Text
insert_id id ids = if contains_id id ids then ids else ids ++ id ∷ []

abbrev pub remove_id : Text → List Text → List Text
remove_id id ids = retain (λ i. not (text_eq i id)) ids

abbrev pub join_group : Text → Group → Group
join_group device_id g = record g { member_ids = insert_id device_id g.member_ids }

abbrev pub leave_group : Text → Group → Group
leave_group device_id g = record g { member_ids = remove_id device_id g.member_ids }

unfoldable pub add_to_group : (group_id device_id : Text) → Workspace → Workspace × Bool
add_to_group group_id device_id ws =
    if not (has_member device_id ws.members)
    then (ws, false)
    else if any (is_group group_id) ws.groups
    then (
      record ws { groups = update_first (is_group group_id) (join_group device_id) ws.groups },
      true,
    )
    else (ws, false)

-- The result says whether the group's list became shorter.
unfoldable pub remove_from_group : (group_id device_id : Text) → Workspace → Workspace × Bool
remove_from_group group_id device_id ws = elim (find (is_group group_id) ws.groups) [
  | none ↦ (ws, false)
  | some g ↦ (
    record ws { groups = update_first (is_group group_id) (leave_group device_id) ws.groups },
    not (length g.member_ids == length (remove_id device_id g.member_ids)),
  )
]

unfoldable pub delete_group : (group_id : Text) → Workspace → Workspace × Bool
delete_group group_id ws =
    let kept = retain (λ g. not (is_group group_id g)) ws.groups in
    (record ws { groups = kept }, not (length ws.groups == length kept))

abbrev pub join_department : Text → Department → Department
join_department device_id d = record d { member_ids = insert_id device_id d.member_ids }

abbrev pub leave_department : Text → Department → Department
leave_department device_id d = record d { member_ids = remove_id device_id d.member_ids }

-- The member's old department forgets the member, unless it is the new one.
abbrev pub leave_old :
    (old : Option Text) (department_id device_id : Text) → List Department → List Department
leave_old none department_id device_id departments = departments
leave_old (some old_id) department_id device_id departments =
    if text_eq old_id department_id
    then departments
    else update_first (is_department old_id) (leave_department device_id) departments

unfoldable pub assign_department : (department_id device_id : Text) → Workspace → Workspace × Bool
assign_department department_id device_id ws =
    if not (any (is_department department_id) ws.departments)
    then (ws, false)
    else elim (find (is_device device_id) ws.members) [
      | none ↦ (ws, false)
      | some m ↦ (
        record ws {
          members =
              update_first (is_device device_id)
                (λ m. record m { department_id = some department_id }) ws.members;
          departments =
              update_first (is_department department_id) (join_department device_id)
                (leave_old m.department_id department_id device_id ws.departments);
        },
        true,
      )
    ]
