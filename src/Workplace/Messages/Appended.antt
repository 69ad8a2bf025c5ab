-- ===== src/Workplace/Messages/Appended.antt =====
-- Who can write a message, and who can have a broadcast accepted.
use capsi.Base.{
  ℕ, ◌+◌, ◌≡◌, refl, ◌⊎◌, inl, inr, true, false, ◌&&◌, Option, none, some, [], ◌∷◌, ◌++◌, arith,
  Bool-cases, Option-cases, length, find, any, length-append, Text, codes, text_eq, text_eq_iff, In,
  In-append, any→In, ℤ, pos,
}
use capsi.Workplace.State.{Group, Department, WorkplaceMessage}
use capsi.Workplace.Workspace.{
  Workspace, fresh_id, is_group, is_department, contains_id, has_member,
}
use capsi.Workplace.Consistency.{
  IsKnown, IsGroupOf, IsDepartmentOf, IsConsistentWorkspace, has_member→IsKnown, contains_id→In,
}
use capsi.Workplace.Messages.{append_message, reaches_department, receive_broadcast}

-- The message that `append_message` writes.
abbrev pub written : (group_id sender_id body : Text) (now now' : ℕ) → Workspace → WorkplaceMessage
written group_id sender_id body now now' ws = record {
  id = fresh_id (codes "workplace-message") now (length ws.messages);
  group_id = group_id;
  sender_device_id = sender_id;
  body = body;
  sent_at = pos now';
}

-- A message is either refused, and nothing changes, or its sender is a member both of the
-- workplace and of the group; it is then the last message, and its id is returned.
pub append_message_lem :
    (group_id sender_id body : Text) (now now' : ℕ) (ws : Workspace)
    → let (after, result) = append_message group_id sender_id body now now' ws in
      (after ≡ ws) × (result ≡ none)
      ⊎ (g : Group) × IsGroupOf ws.groups group_id g
        × In sender_id g.member_ids
        × IsKnown ws.members sender_id
        × (result ≡ some (written group_id sender_id body now now' ws).id)
        × (after ≡ record ws {
          messages = ws.messages ++ written group_id sender_id body now now' ws ∷ [];
        })
unfolding append_message
append_message_lem group_id sender_id body now now' ws =
    elim (Option-cases (find (is_group group_id) ws.groups)) [
      | inl missing ↦ rw (missing, append_message) (inl (refl, refl))
      | inr (g, found) ↦ elim (Bool-cases (contains_id sender_id g.member_ids)) [
        | inr outside ↦ rw (found, append_message, outside) (inl (refl, refl))
        | inl inside ↦ elim (Bool-cases (has_member sender_id ws.members)) [
          | inr stranger ↦ rw (found, append_message, inside, stranger) (inl (refl, refl))
          | inl known ↦
              rw (found, append_message, inside, known)
                (inr (
                  g,
                  refl,
                  contains_id→In sender_id g.member_ids inside,
                  has_member→IsKnown sender_id ws.members known,
                  refl,
                  refl,
                ))
        ]
      ]
    ]

-- Writing a message, done or refused, keeps the workplace consistent.
pub append_message-IsConsistent :
    (group_id sender_id body : Text) (now now' : ℕ) (ws : Workspace)
    → IsConsistentWorkspace ws
    → IsConsistentWorkspace (append_message group_id sender_id body now now' ws).0
append_message-IsConsistent group_id sender_id body now now' ws c =
    elim (append_message_lem group_id sender_id body now now' ws) [
      | inl (same, _) ↦ rw same c
      | inr (g, found, listed, known, _, e) ↦ rw e (record {
        group_members = c.group_members;
        department_members = c.department_members;
        member_departments = c.member_departments;
        message_senders = λ message there. elim (In-append message ws.messages _ there) [
          | inl old ↦ c.message_senders message old
          | inr last ↦ elim last [
            | inl same ↦ rw (← same) (g, found, listed, known)
            | inr nowhere ↦ absurd nowhere
          ]
        ];
      })
    ]

reaches_department_sound :
    (department_id : Option Text) (author_id : Text) (ws : Workspace)
    → reaches_department department_id author_id ws ≡ true
    → (i : Text) → department_id ≡ some i
    → (d : Department) × IsDepartmentOf ws.departments i d × In author_id d.member_ids
reaches_department_sound none author_id ws h i e = absurd (cc)
reaches_department_sound (some j) author_id ws h i e =
    let named : j ≡ i = cc in
    elim (Option-cases (find (is_department j) ws.departments)) [
      | inl missing ↦ absurd (ground arith)
      | inr (d, found) ↦
          let listed : any
                (λ k. any (λ m. text_eq m.device_id k && text_eq m.device_id author_id) ws.members)
                d.member_ids
              ≡ true =
            ground arith in
          let (k, in_ids, some_member) = any→In _ d.member_ids listed in
          let (m, _, both) = any→In _ ws.members some_member in
          let at_k : m.device_id ≡ k = ground (arith, text_eq_iff m.device_id k) in
          let at_author : m.device_id ≡ author_id =
            ground (arith, text_eq_iff m.device_id author_id) in
          let same : k ≡ author_id = cc in (d, rw named at found, rw same at in_ids)
    ]

-- A broadcast is taken only from a member, and one that names a department only from a member of
-- that department; whatever happens, nothing but the list of broadcasts changes, and no broadcast
-- is taken twice.
pub receive_broadcast_lem :
    (id title body author_id : Text) (department_id : Option Text) (created_at : ℤ) (ws : Workspace)
    → let (after, taken) = receive_broadcast id title body author_id department_id created_at ws in
      (after ≡ record ws { broadcasts = after.broadcasts })
      × (any (λ b. text_eq b.id id) ws.broadcasts ≡ true → (after ≡ ws) × (taken ≡ true))
      × (taken ≡ false → after ≡ ws)
      × (any (λ b. text_eq b.id id) ws.broadcasts ≡ false
          → taken ≡ true
          → IsKnown ws.members author_id
            × ((i : Text)
                → department_id ≡ some i
                → (d : Department) × IsDepartmentOf ws.departments i d × In author_id d.member_ids)
            × (length after.broadcasts ≡ length ws.broadcasts + 1))
unfolding receive_broadcast
receive_broadcast_lem id title body author_id department_id created_at ws =
    elim (Bool-cases (any (λ b. text_eq b.id id) ws.broadcasts)) [
      | inl there ↦
          rw (there, receive_broadcast)
            (refl, λ _. (refl, refl), λ _. refl, λ fresh _. absurd (ground arith))
      | inr fresh ↦ elim (Bool-cases (has_member author_id ws.members)) [
        | inr stranger ↦
            rw (fresh, receive_broadcast, stranger)
              (refl, λ there. absurd (ground arith), λ _. refl, λ _ taken. absurd (ground arith))
        | inl known ↦ elim (Bool-cases (reaches_department department_id author_id ws)) [
          | inr outside ↦
              rw (fresh, receive_broadcast, known, outside)
                (refl, λ there. absurd (ground arith), λ _. refl, λ _ taken. absurd (ground arith))
          | inl inside ↦
              rw (fresh, receive_broadcast, known, inside)
                (
                  refl,
                  λ there. absurd (ground arith),
                  λ refused. absurd (ground arith),
                  λ _ _. (
                    has_member→IsKnown author_id ws.members known,
                    reaches_department_sound department_id author_id ws inside,
                    omega (arith, length-append {0} ws.broadcasts),
                  ),
                )
        ]
      ]
    ]
