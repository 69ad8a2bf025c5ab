-- ===== src/Workplace/Consistency.antt =====
-- When the lists of a workplace refer only to what the workplace holds.
use capsi.Base.{
  ◌≡◌, true, some, List, find, Text, text_eq, text_eq_refl, text_eq→eq, In, any→In, In→any,
}
use capsi.Workplace.State.{owner, Member, Group, Department, WorkplaceMessage}
use capsi.Workplace.Workspace.{
  Workspace, is_device, is_group, is_department, contains_id, has_member,
}

-- Some member has the device id.
abbrev pub IsKnown : List Member → Text → Type 0
IsKnown members i = (m : Member) × In m members × (m.device_id ≡ i)

-- An id names the first group or department that has it, as every lookup of the program reads it.
abbrev pub IsGroupOf : List Group → Text → Group → Type 0
IsGroupOf groups i g = find (is_group i) groups ≡ some g

abbrev pub IsDepartmentOf : List Department → Text → Department → Type 0
IsDepartmentOf departments i d = find (is_department i) departments ≡ some d

-- Groups and departments list known members, a member's department lists the member, and the
-- sender of a message is a known member of the message's group.
pub record IsConsistent (members : List Member) (groups : List Group)
    (departments : List Department) (messages : List WorkplaceMessage) : Type 0 where
  pub group_members : (g : Group) → In g groups → (i : Text) → In i g.member_ids → IsKnown members i
  pub department_members :
      (d : Department) → In d departments → (i : Text) → In i d.member_ids → IsKnown members i
  pub member_departments :
      (m : Member)
      → In m members
      → (i : Text) → m.department_id ≡ some i
      → (d : Department) × IsDepartmentOf departments i d × In m.device_id d.member_ids
  pub message_senders :
      (message : WorkplaceMessage)
      → In message messages
      → (g : Group) × IsGroupOf groups message.group_id g
        × In message.sender_device_id g.member_ids
        × IsKnown members message.sender_device_id

-- The consistency of a whole workplace.
abbrev pub IsConsistentWorkspace : Workspace → Type 0
IsConsistentWorkspace ws = IsConsistent ws.members ws.groups ws.departments ws.messages

-- The device that owns the workplace is a member, with the role of the owner.
abbrev pub HasOwner : Text → List Member → Type 0
HasOwner owner_id members =
    (m : Member) × (find (is_device owner_id) members ≡ some m) × (m.role ≡ owner)

-- The Boolean searches by id, and membership.
pub has_member→IsKnown : (i : Text) (ms : List Member) → has_member i ms ≡ true → IsKnown ms i
has_member→IsKnown i ms h =
    let (m, in_ms, e) = any→In (is_device i) ms h in (m, in_ms, text_eq→eq m.device_id i e)

pub IsKnown→has_member : (i : Text) (ms : List Member) → IsKnown ms i → has_member i ms ≡ true
IsKnown→has_member i ms (m, in_ms, e) = In→any (is_device i) m ms in_ms (rw e (text_eq_refl i))

pub contains_id→In : (i : Text) (ids : List Text) → contains_id i ids ≡ true → In i ids
contains_id→In i ids h =
    let (j, in_ids, e) = any→In (λ j. text_eq j i) ids h in rw (text_eq→eq j i e) at in_ids

pub In→contains_id : (i : Text) (ids : List Text) → In i ids → contains_id i ids ≡ true
In→contains_id i ids h = In→any (λ j. text_eq j i) i ids h (text_eq_refl i)
