-- ===== src/Workplace/Messages.antt =====
-- The messages and broadcasts of workplace.rs.
pub mod Appended
use capsi.Base.{
  ℕ, Bool, true, false, not, ◌&&◌, Option, none, some, List, [], ◌∷◌, ◌++◌, if◌then◌else◌, length,
  find, any, Text, codes, text_eq, ℤ, pos,
}
use capsi.Workplace.State.{Department}
use capsi.Workplace.Workspace.{
  Workspace, fresh_id, is_group, is_department, contains_id, has_member,
}

-- `append_message`, with the two readings of the clock.
unfoldable pub append_message :
    (group_id sender_id body : Text) (now now' : ℕ) → Workspace → Workspace × Option Text
append_message group_id sender_id body now now' ws = elim (find (is_group group_id) ws.groups) [
  | none ↦ (ws, none)
  | some g ↦
      if not (contains_id sender_id g.member_ids)
      then (ws, none)
      else if not (has_member sender_id ws.members)
      then (ws, none)
      else (
        record ws {
          messages =
              ws.messages
              ++ record {
                id = fresh_id (codes "workplace-message") now (length ws.messages);
                group_id = group_id;
                sender_device_id = sender_id;
                body = body;
                sent_at = pos now';
              }
                ∷ [];
        },
        some (fresh_id (codes "workplace-message") now (length ws.messages)),
      )
]

-- What `receive_broadcast` asks of the department, if the broadcast names one.
abbrev pub reaches_department : Option Text → (author_id : Text) → Workspace → Bool
reaches_department none author_id ws = true
reaches_department (some department_id) author_id ws =
    elim (find (is_department department_id) ws.departments) [
      | none ↦ false
      | some d ↦
          any (λ i. any (λ m. text_eq m.device_id i && text_eq m.device_id author_id) ws.members)
            d.member_ids
    ]

-- A broadcast that is there already counts as received.
unfoldable pub receive_broadcast :
    (broadcast_id title body author_id : Text) (department_id : Option Text) (created_at : ℤ)
    → Workspace
    → Workspace × Bool
receive_broadcast broadcast_id title body author_id department_id created_at ws =
    if any (λ b. text_eq b.id broadcast_id) ws.broadcasts
    then (ws, true)
    else if not (has_member author_id ws.members)
    then (ws, false)
    else if not (reaches_department department_id author_id ws)
    then (ws, false)
    else (
      record ws {
        broadcasts =
            ws.broadcasts
            ++ record {
              id = broadcast_id;
              title = title;
              body = body;
              author_device_id = author_id;
              department_id = department_id;
              created_at = created_at;
            }
              ∷ [];
      },
      true,
    )

abbrev names_department : Option Text → List Department → Bool
names_department none departments = true
names_department (some department_id) departments = any (is_department department_id) departments

unfoldable pub create_broadcast :
    (title body author_id : Text) (department_id : Option Text) (now now' : ℕ)
    → Workspace
    → Workspace × Option Text
create_broadcast title body author_id department_id now now' ws =
    if not (has_member author_id ws.members)
    then (ws, none)
    else if not (names_department department_id ws.departments)
    then (ws, none)
    else (
      record ws {
        broadcasts =
            ws.broadcasts
            ++ record {
              id = fresh_id (codes "broadcast") now (length ws.broadcasts);
              title = title;
              body = body;
              author_device_id = author_id;
              department_id = department_id;
              created_at = pos now';
            }
              ∷ [];
      },
      some (fresh_id (codes "broadcast") now (length ws.broadcasts)),
    )
