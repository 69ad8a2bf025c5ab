-- ===== src/Workplace/Sync/Accepted.antt =====
-- What a synchronized state has passed when `apply_network_state` takes it.
use capsi.Base.{
  ◌≡◌, refl, inl, inr, true, some, List, [], ◌∷◌, arith, Option-cases, find, all, Text, In, all→In,
  In→all, Result, ok, guard, ok_or, >>=-eq-ok, guard-eq-ok, ok_or-eq-ok,
}
use capsi.Workplace.State.{Role, owner, Member, Group, Department, WorkplaceMessage, WorkspaceState}
use capsi.Workplace.Roles.{role_eq}
use capsi.Workplace.Workspace.{
  Workspace, WorkplaceError, is_device, is_group, is_department, contains_id, has_member,
}
use capsi.Workplace.Consistency.{
  IsKnown, IsGroupOf, IsDepartmentOf, IsConsistent, HasOwner, has_member→IsKnown,
  IsKnown→has_member, contains_id→In, In→contains_id,
}
use capsi.Workplace.Sync.{
  is_privileged, groups_known, departments_known, check_member, check_message, for_each,
  check_admin, admit,
}

pub role_eq→eq : (a b : Role) → role_eq a b ≡ true → a ≡ b
role_eq→eq a b h = ground arith

for_each→In :
    {A : Type 0} (body : A → Result WorkplaceError (Unit {0})) (xs : List A)
    → for_each body xs ≡ ok tt
    → (x : A) → In x xs
    → body x ≡ ok tt
unfolding for_each
for_each→In body [] h x i = absurd i
for_each→In body (y ∷ xs) h x i =
    let (u, hy, hs) = >>=-eq-ok (body y) (λ _. for_each body xs) h in
    elim i [ inl e ↦ rw e at hy | inr j ↦ for_each→In body xs hs x j ]

In→for_each :
    {A : Type 0} (body : A → Result WorkplaceError (Unit {0})) (xs : List A)
    → ((x : A) → In x xs → body x ≡ ok tt)
    → for_each body xs ≡ ok tt
unfolding for_each
In→for_each body [] h = refl
In→for_each body (y ∷ xs) h = rw (h y (inl refl)) (In→for_each body xs (λ x i. h x (inr i)))

check_member_sound :
    (ds : List Department) (m : Member)
    → check_member ds m ≡ ok tt
    → (i : Text) → m.department_id ≡ some i
    → (d : Department) × IsDepartmentOf ds i d × In m.device_id d.member_ids
unfolding check_member
check_member_sound ds m h i e = elim (Option-cases (find (is_department i) ds)) [
  | inl missing ↦ absurd (ground arith)
  | inr (d, found) ↦
      let held : contains_id m.device_id d.member_ids ≡ true = ground arith in
      (d, found, contains_id→In m.device_id d.member_ids held)
]

check_message_sound :
    (ms : List Member) (gs : List Group) (message : WorkplaceMessage)
    → check_message ms gs message ≡ ok tt
    → (g : Group) × IsGroupOf gs message.group_id g
      × In message.sender_device_id g.member_ids
      × IsKnown ms message.sender_device_id
unfolding check_message
check_message_sound ms gs message h = elim (Option-cases (find (is_group message.group_id) gs)) [
  | inl missing ↦ absurd (ground arith)
  | inr (g, found) ↦
      let sender = message.sender_device_id in
      let held : contains_id sender g.member_ids ≡ true = ground arith in
      let known : has_member sender ms ≡ true = ground arith in
      (g, found, contains_id→In sender g.member_ids held, has_member→IsKnown sender ms known)
]

-- The record of what `admit` has checked.
pub record IsAdmitted (ws : Workspace) (state : WorkspaceState) (actor_id : Text) : Type 0 where
  pub actor : Member
  pub actor_found : find (is_device actor_id) ws.members ≡ some actor
  pub actor_privileged : is_privileged actor.role ≡ true
  pub owner_kept : HasOwner state.owner_device_id state.members
  pub consistent : IsConsistent state.members state.groups state.departments state.messages
  pub admin_checked : check_admin ws state actor actor_id ≡ ok tt

-- Every check that passed, read off a state that `admit` lets through.
pub admit_sound :
    (ws : Workspace) (state : WorkspaceState) (actor_id : Text)
    → admit ws state actor_id ≡ ok tt
    → IsAdmitted ws state actor_id
unfolding admit groups_known departments_known
admit_sound ws state actor_id h =
    let (actor, e₁, h₁) = >>=-eq-ok (ok_or (find (is_device actor_id) ws.members) _) _ h in
    let (_, e₂, h₂) = >>=-eq-ok (guard (is_privileged actor.role) _) _ h₁ in
    let (o, e₃, h₃) =
      >>=-eq-ok (ok_or (find (is_device state.owner_device_id) state.members) _) _ h₂ in
    let (_, e₄, h₄) = >>=-eq-ok (guard (role_eq o.role owner) _) _ h₃ in
    let (_, e₅, h₅) = >>=-eq-ok (guard (groups_known state.members state.groups) _) _ h₄ in
    let (_, e₆, h₆) =
      >>=-eq-ok (guard (departments_known state.members state.departments) _) _ h₅ in
    let (_, e₇, h₇) = >>=-eq-ok (for_each (check_member state.departments) state.members) _ h₆ in
    let (_, e₈, h₈) =
      >>=-eq-ok (for_each (check_message state.members state.groups) state.messages) _ h₇ in
    let known_group = guard-eq-ok _ _ e₅ in
    let known_department = guard-eq-ok _ _ e₆ in
    record {
      actor = actor;
      actor_found = ok_or-eq-ok _ _ e₁;
      actor_privileged = guard-eq-ok _ _ e₂;
      owner_kept = (o, ok_or-eq-ok _ _ e₃, role_eq→eq o.role owner (guard-eq-ok _ _ e₄));
      consistent = record {
        group_members = λ g in_groups i in_ids. has_member→IsKnown i state.members (
            all→In (λ j. has_member j state.members) i g.member_ids
              (all→In (λ g. all (λ j. has_member j state.members) g.member_ids) g state.groups
                known_group in_groups)
              in_ids);
        department_members = λ d in_departments i in_ids. has_member→IsKnown i state.members (
            all→In (λ j. has_member j state.members) i d.member_ids
              (all→In (λ d. all (λ j. has_member j state.members) d.member_ids) d state.departments
                known_department in_departments)
              in_ids);
        member_departments = λ m in_members.
            check_member_sound state.departments m
              (for_each→In (check_member state.departments) state.members e₇ m in_members);
        message_senders = λ message in_messages.
            check_message_sound state.members state.groups message (
              for_each→In (check_message state.members state.groups) state.messages e₈ message
                in_messages);
      };
      admin_checked = h₈;
    }

check_member_complete :
    (ds : List Department) (m : Member)
    → ((i : Text)
        → m.department_id ≡ some i
        → (d : Department) × IsDepartmentOf ds i d × In m.device_id d.member_ids)
    → check_member ds m ≡ ok tt
unfolding check_member
check_member_complete ds m h = elim (Option-cases m.department_id) [
  | inl nowhere ↦ rw nowhere
  | inr (i, e) ↦
      let (d, found, listed) = h i e in
      let held = In→contains_id m.device_id d.member_ids listed in ground arith
]

check_message_complete :
    (ms : List Member) (gs : List Group) (message : WorkplaceMessage) (g : Group)
    → IsGroupOf gs message.group_id g
    → In message.sender_device_id g.member_ids
    → IsKnown ms message.sender_device_id
    → check_message ms gs message ≡ ok tt
unfolding check_message
check_message_complete ms gs message g found listed known =
    let sender = message.sender_device_id in
    ground (arith, In→contains_id sender g.member_ids listed, IsKnown→has_member sender ms known)

module _ (ws : Workspace) (state : WorkspaceState) (actor_id : Text) where
  groups_known_complete :
      IsConsistent state.members state.groups state.departments state.messages
      → groups_known state.members state.groups ≡ true
  unfolding groups_known
  groups_known_complete c = In→all _ state.groups λ g in_groups.
      In→all _ g.member_ids
        λ i in_ids. IsKnown→has_member i state.members (c.group_members g in_groups i in_ids)

  departments_known_complete :
      IsConsistent state.members state.groups state.departments state.messages
      → departments_known state.members state.departments ≡ true
  unfolding departments_known
  departments_known_complete c = In→all _ state.departments λ d in_departments.
      In→all _ d.member_ids λ i in_ids.
        IsKnown→has_member i state.members (c.department_members d in_departments i in_ids)

  -- The checks refuse nothing else.
  pub admit_complete : IsAdmitted ws state actor_id → admit ws state actor_id ≡ ok tt
  unfolding admit
  admit_complete a =
      let (o, owner_found, is_owner) = a.owner_kept in
      let members_ok = In→for_each (check_member state.departments) state.members λ m in_members.
        check_member_complete state.departments m (a.consistent.member_departments m in_members) in
      let messages_ok =
        In→for_each (check_message state.members state.groups) state.messages λ message in_messages.
          let (g, found, listed, known) = a.consistent.message_senders message in_messages in
          check_message_complete state.members state.groups message g found listed known in
      rw
        (
          a.actor_found,
          a.actor_privileged,
          owner_found,
          is_owner,
          groups_known_complete a.consistent,
          departments_known_complete a.consistent,
          members_ok,
          messages_ok,
        )
        a.admin_checked
