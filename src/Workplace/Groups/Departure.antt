-- ===== src/Workplace/Groups/Departure.antt =====
-- Leaving a group, and deleting one, while the workplace keeps messages of it.
use capsi.Base.{
  ◌≡◌, refl, ap, ◌∙◌, ◌≢◌, inl, inr, true, false, not, some, List, arith, Option-cases, find,
  update_first, Text, text_eq, text_eq_iff, text_eq_refl, text_cases, In, In-retain, retain-In,
  In-update_first, find-update_first_ne, find-update_first_self, find-update_first,
}
use capsi.Workplace.State.{Group, WorkplaceMessage, WorkspaceState}
use capsi.Workplace.Workspace.{Workspace, is_group, network_state}
use capsi.Workplace.Consistency.{IsGroupOf, IsConsistent, IsConsistentWorkspace}
use capsi.Workplace.Sync.{apply_network_state}
use capsi.Workplace.Sync.Cases.{apply_cases}
use capsi.Workplace.Groups.{remove_id, leave_group, remove_from_group}

not-In-remove_id : (id : Text) (ids : List Text) → ¬ In id (remove_id id ids)
not-In-remove_id id ids there =
    let (_, kept) = In-retain (λ i. not (text_eq i id)) id ids there in
    ground (arith, text_eq_refl id)

In-remove_id : (i id : Text) (ids : List Text) → In i ids → i ≢ id → In i (remove_id id ids)
In-remove_id i id ids there differs =
    retain-In (λ i. not (text_eq i id)) i ids there (ground (arith, text_eq_iff i id))

-- A state with an inconsistent message changes nobody's workspace.
refused_everywhere :
    (state : WorkspaceState)
    → ¬ IsConsistent state.members state.groups state.departments state.messages
    → (receiver : Workspace) (actor_id : Text)
    → (apply_network_state receiver state actor_id).0 ≡ receiver
refused_everywhere state broken receiver actor_id = elim (apply_cases receiver state actor_id) [
  | inl same ↦ same
  | inr (taken, _) ↦ absurd (broken taken.admitted.consistent)
]

-- When the member who leaves has written a message in the group, every device that has a copy of the
-- workplace refuses the state that is left, whoever sends it: `apply_network_state` leaves the copy
-- as it was. (A first copy is not made by `apply_network_state`.)
pub remove_from_group_blocks_sync :
    (group_id device_id : Text) (ws : Workspace) (g : Group) (message : WorkplaceMessage)
    → IsGroupOf ws.groups group_id g
    → In message ws.messages
    → message.group_id ≡ group_id
    → message.sender_device_id ≡ device_id
    → (receiver : Workspace) (actor_id : Text)
    → (apply_network_state receiver
        (network_state (remove_from_group group_id device_id ws).0)
        actor_id).0
      ≡ receiver
unfolding remove_from_group network_state
remove_from_group_blocks_sync group_id device_id ws g message found there in_group by receiver
      actor_id =
    rw (found, remove_from_group) (refused_everywhere _ broken receiver actor_id)
  where
    broken :
        ¬ IsConsistent ws.members
          (update_first (is_group group_id) (leave_group device_id) ws.groups)
          ws.departments
          ws.messages
    broken c =
        let (g', found', listed, _) = c.message_senders message there in
        let left =
          find-update_first_self (is_group group_id) (leave_group device_id) (λ g h. h) ws.groups g
            found in
        let found_left : find (is_group group_id)
              (update_first (is_group group_id) (leave_group device_id) ws.groups)
            ≡ some g' =
          rw in_group at found' in
        let same : leave_group device_id g ≡ g' = ground (arith, left, found_left) in
        let ids_same : remove_id device_id g.member_ids ≡ g'.member_ids =
          ap (λ (g : Group). g.member_ids) same in
        not-In-remove_id device_id g.member_ids (rw (← ids_same) at (rw by at listed))

-- When the member who leaves has written no message in the group, the workplace stays consistent.
pub remove_from_group-IsConsistent :
    (group_id device_id : Text) (ws : Workspace)
    → IsConsistentWorkspace ws
    → ((message : WorkplaceMessage)
        → In message ws.messages
        → message.group_id ≡ group_id
        → message.sender_device_id ≢ device_id)
    → IsConsistentWorkspace (remove_from_group group_id device_id ws).0
unfolding remove_from_group
remove_from_group-IsConsistent group_id device_id ws c silent =
    elim (Option-cases (find (is_group group_id) ws.groups)) [
      | inl missing ↦ rw (missing, remove_from_group) c
      | inr (left, there) ↦
          rw (there, remove_from_group)
            (record {
              group_members = λ g in_groups i listed.
                  elim (In-update_first (is_group group_id) (leave_group device_id) g ws.groups
                    in_groups) [
                      | inl old ↦ c.group_members g old i listed
                      | inr (old, was, _, e) ↦
                          let (before, _) =
                            In-retain (λ i. not (text_eq i device_id)) i old.member_ids
                              (rw (← e) at listed) in
                          c.group_members old was i before
                    ];
              department_members = c.department_members;
              member_departments = c.member_departments;
              message_senders = λ message in_messages.
                  let (g, found, listed, known) = c.message_senders message in_messages in
                  elim (text_cases message.group_id group_id) [
                    | inl here ↦
                        elim (find-update_first (is_group group_id) (leave_group device_id)
                          (is_group message.group_id) (λ g. refl) ws.groups g found) [
                            | inl same ↦ (g, same, listed, known)
                            | inr shorter ↦ (
                              leave_group device_id g,
                              shorter,
                              In-remove_id message.sender_device_id device_id g.member_ids listed
                                  (silent message in_messages here),
                              known,
                            )
                          ]
                    | inr elsewhere ↦ (
                      g,
                      find-update_first_ne (is_group group_id) (leave_group device_id)
                            (is_group message.group_id)
                            (λ g h. other_group g message.group_id elsewhere h)
                            (λ g h. other_group g message.group_id elsewhere h) ws.groups
                          ∙ found,
                      listed,
                      known,
                    )
                  ];
            })
    ]
  where
    other_group :
        (g : Group) (other : Text)
        → other ≢ group_id
        → is_group group_id g ≡ true
        → is_group other g ≡ false
    other_group g other differs h =
        ground (arith, text_eq_iff g.id group_id, text_eq_iff g.id other)
