-- ===== src/Workplace/Groups/Consistent.antt =====
-- The operations that add to a workplace keep it consistent.
use capsi.Base.{
  ℕ, ◌≡◌, refl, sym, ◌∙◌, ◌⊎◌, inl, inr, true, some, List, [], ◌∷◌, ◌++◌, Bool-cases, any,
  update_first, find-append, Text, In, In-append_left, In-append, In-update_first, any-update_first,
  find-update_first, Result-cases,
}
use capsi.Workplace.State.{Role, Member}
use capsi.Workplace.Workspace.{
  Workspace, is_device, is_group, is_department, contains_id, has_member, new,
}
use capsi.Workplace.Consistency.{
  IsKnown, IsConsistent, IsConsistentWorkspace, has_member→IsKnown, IsKnown→has_member,
}
use capsi.Workplace.Members.{add_member, check_role_change, set_member_role}
use capsi.Workplace.Groups.{create_department, create_group, insert_id, join_group, add_to_group}

In-insert_id : (i id : Text) (ids : List Text) → In i (insert_id id ids) → In i ids ⊎ (i ≡ id)
In-insert_id i id ids h = elim (Bool-cases (contains_id id ids)) [
  | inl there ↦ inl (rw there at h)
  | inr fresh ↦ elim (In-append i ids (id ∷ []) (rw fresh at h)) [
    | inl old ↦ inl old
    | inr last ↦ elim last [ inl e ↦ inr (sym e) | inr nowhere ↦ absurd nowhere ]
  ]
]

insert_id-In : (i id : Text) (ids : List Text) → In i ids → In i (insert_id id ids)
insert_id-In i id ids h = elim (Bool-cases (contains_id id ids)) [
  | inl there ↦ rw there h
  | inr fresh ↦ rw fresh (In-append_left i ids (id ∷ []) h)
]

IsKnown-append : (ms more : List Member) (i : Text) → IsKnown ms i → IsKnown (ms ++ more) i
IsKnown-append ms more i (m, there, e) = (m, In-append_left m ms more there, e)

-- Adding a member, of any role, keeps the workplace consistent.
pub add_member-IsConsistent :
    (device_id display_name : Text) (role : Role) (ws : Workspace)
    → IsConsistentWorkspace ws
    → IsConsistentWorkspace (add_member device_id display_name role ws)
unfolding add_member
add_member-IsConsistent device_id display_name role ws c =
    elim (Bool-cases (has_member device_id ws.members)) [
      | inl there ↦ rw there c
      | inr fresh ↦ rw fresh (record {
        group_members =
            λ g there i listed. IsKnown-append ws.members _ i (c.group_members g there i listed);
        department_members = λ d there i listed.
            IsKnown-append ws.members _ i (c.department_members d there i listed);
        member_departments = λ m there i placed. elim (In-append m ws.members _ there) [
          | inl old ↦ c.member_departments m old i placed
          | inr last ↦ elim last [ inl e ↦ absurd (cc) | inr nowhere ↦ absurd nowhere ]
        ];
        message_senders = λ message there.
            let (g, found, listed, known) = c.message_senders message there in
            (g, found, listed, IsKnown-append ws.members _ _ known);
      })
    ]

-- Two lists of members with the same devices and departments.
IsConsistent-update_role :
    (device_id : Text) (role : Role) (ws : Workspace)
    → IsConsistentWorkspace ws
    → IsConsistent
        (update_first (is_device device_id) (λ m. record m { role = role }) ws.members)
        ws.groups
        ws.departments
        ws.messages
IsConsistent-update_role device_id role ws c = record {
  group_members = λ g there i listed. known i (c.group_members g there i listed);
  department_members = λ d there i listed. known i (c.department_members d there i listed);
  member_departments = λ m there i placed.
      elim (In-update_first (is_device device_id) (λ m. record m { role = role }) m ws.members
        there) [
          | inl old ↦ c.member_departments m old i placed
          | inr (old, was, _, e) ↦
              let placed' : old.department_id ≡ some i = cc in
              let same_device : old.device_id ≡ m.device_id = cc in
              rw same_device at (c.member_departments old was i placed')
        ];
  message_senders = λ message there.
      let (g, found, listed, sender) = c.message_senders message there in
      (g, found, listed, known message.sender_device_id sender);
}
  where
    known :
        (i : Text)
        → IsKnown ws.members i
        → IsKnown (update_first (is_device device_id) (λ m. record m { role = role }) ws.members) i
    known i k = has_member→IsKnown i _ (
        any-update_first (is_device device_id) (λ m. record m { role = role }) (is_device i)
          (λ m. refl) ws.members
        ∙ IsKnown→has_member i ws.members k)

-- A change of role, allowed or refused, keeps the workplace consistent.
pub set_member_role-IsConsistent :
    (actor_id device_id : Text) (role : Role) (ws : Workspace)
    → IsConsistentWorkspace ws
    → IsConsistentWorkspace (set_member_role actor_id device_id role ws).0
unfolding set_member_role
set_member_role-IsConsistent actor_id device_id role ws c =
    elim (Result-cases (check_role_change actor_id device_id role ws)) [
      | inr (e, refused) ↦ rw (refused, set_member_role) c
      | inl (_, passed) ↦
          rw (passed, set_member_role) (IsConsistent-update_role device_id role ws c)
    ]

-- A new group, and a new department, keep the workplace consistent.
pub create_group-IsConsistent :
    (name description : Text) (now : ℕ) (ws : Workspace)
    → IsConsistentWorkspace ws
    → IsConsistentWorkspace (create_group name description now ws).0
unfolding create_group
create_group-IsConsistent name description now ws c = record {
  group_members = λ g there i listed. elim (In-append g ws.groups _ there) [
    | inl old ↦ c.group_members g old i listed
    | inr last ↦ elim last [ inl e ↦ absurd (rw (← e) at listed) | inr nowhere ↦ absurd nowhere ]
  ];
  department_members = c.department_members;
  member_departments = c.member_departments;
  message_senders = λ message there.
      let (g, found, listed, known) = c.message_senders message there in
      (g, find-append (is_group message.group_id) ws.groups _ g found, listed, known);
}

pub create_department-IsConsistent :
    (name : Text) (now : ℕ) (ws : Workspace)
    → IsConsistentWorkspace ws
    → IsConsistentWorkspace (create_department name now ws).0
unfolding create_department
create_department-IsConsistent name now ws c = record {
  group_members = c.group_members;
  department_members = λ d there i listed. elim (In-append d ws.departments _ there) [
    | inl old ↦ c.department_members d old i listed
    | inr last ↦ elim last [ inl e ↦ absurd (rw (← e) at listed) | inr nowhere ↦ absurd nowhere ]
  ];
  member_departments = λ m there i placed.
      let (d, found, listed) = c.member_departments m there i placed in
      (d, find-append (is_department i) ws.departments _ d found, listed);
  message_senders = c.message_senders;
}

IsConsistent-join_group :
    (group_id device_id : Text) (ws : Workspace)
    → has_member device_id ws.members ≡ true
    → IsConsistentWorkspace ws
    → IsConsistent ws.members
        (update_first (is_group group_id) (join_group device_id) ws.groups)
        ws.departments
        ws.messages
IsConsistent-join_group group_id device_id ws joins c = record {
  group_members = λ g there i listed.
      elim (In-update_first (is_group group_id) (join_group device_id) g ws.groups there) [
        | inl old ↦ c.group_members g old i listed
        | inr (old, was, _, e) ↦
            elim (In-insert_id i device_id old.member_ids (rw (← e) at listed)) [
              | inl before ↦ c.group_members old was i before
              | inr new ↦ rw new (has_member→IsKnown device_id ws.members joins)
            ]
      ];
  department_members = c.department_members;
  member_departments = c.member_departments;
  message_senders = λ message there.
      let (g, found, listed, known) = c.message_senders message there in
      elim (find-update_first (is_group group_id) (join_group device_id) (is_group message.group_id)
        (λ g. refl) ws.groups g found) [
          | inl same ↦ (g, same, listed, known)
          | inr joined ↦
              (join_group device_id g, joined, insert_id-In _ device_id g.member_ids listed, known)
        ];
}

-- Joining a group, done or refused, keeps the workplace consistent.
pub add_to_group-IsConsistent :
    (group_id device_id : Text) (ws : Workspace)
    → IsConsistentWorkspace ws
    → IsConsistentWorkspace (add_to_group group_id device_id ws).0
unfolding add_to_group
add_to_group-IsConsistent group_id device_id ws c =
    elim (Bool-cases (has_member device_id ws.members)) [
      | inr stranger ↦ rw stranger c
      | inl known ↦ elim (Bool-cases (any (is_group group_id) ws.groups)) [
        | inr nowhere ↦ rw (known, nowhere) c
        | inl there ↦ rw (known, there) (IsConsistent-join_group group_id device_id ws known c)
      ]
    ]
