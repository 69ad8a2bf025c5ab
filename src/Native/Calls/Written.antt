-- ===== src/Native/Calls/Written.antt =====
-- A mutation of the workplace that succeeds was permitted and ends in `touch`.
use capsi.Base.{
  ◌≡◌, true, not, Option, none, [], arith, Text, text_eq, ℤ, Result, ok, err, guard, ok_or, ◌>>=◌,
  >>=-eq-ok, guard-eq-ok,
}
use capsi.Identity.Device.{DeviceId}
use capsi.Identity.Trust.{TrustStore, nonblank}
use capsi.Workplace.State.{
  Role, Permission, manage_workspace, manage_members, manage_groups, manage_departments,
  send_broadcasts,
}
use capsi.Workplace.Workspace.{Workspace, touch, rename}
use capsi.Workplace.Permissions.{permits}
use capsi.Native.Disk.{
  CallError, not_allowed, name_invalid, title_invalid, body_invalid, group_id_invalid,
  device_id_invalid, role_invalid, role_unknown, creator_not_added, member_or_group_not_found,
  not_in_group, same_group, no_destination, Environment,
}
use capsi.Native.Calls.{
  Mutation, demand, succeed, create_group_with, add_group_member_with, create_department_with,
  other_ids, created, broadcast_envelope, create_broadcast_with, rename_with,
  remove_group_member_with, move_group_member_with, set_member_role_with, Call, to_create_group,
  to_create_department, to_add_group_member, to_remove_group_member, to_move_group_member,
  to_create_broadcast, to_rename, to_set_member_role, mutation,
}
use capsi.Workplace.Members.{set_member_role}
use capsi.Workplace.Groups.{create_department, create_group, add_to_group, remove_from_group}
use capsi.Workplace.Messages.{create_broadcast}
use capsi.Workplace.Roles.{from_wire}
use capsi.Native.Outbox.{deliver_workplace_envelope}

-- The permission that each call asks for.
abbrev pub needed : Call → Permission
needed (to_create_group name) = manage_groups
needed (to_create_department name) = manage_departments
needed (to_add_group_member group_id device_id) = manage_groups
needed (to_remove_group_member group_id device_id) = manage_groups
needed (to_move_group_member from_group to_group device_id) = manage_groups
needed (to_create_broadcast title body) = send_broadcasts
needed (to_rename name) = manage_workspace
needed (to_set_member_role device_id role) = manage_members

-- A workplace that a permitted device has just written.
pub record IsWritten (env : Environment) (p : Permission) (own : DeviceId) (ws ws' : Workspace)
    : Type 0 where
  pub permitted : permits ws own p ≡ true
  pub touched : ws'.updated_at ≡ env.now_millis

-- A body that ends in `touch`.
touched_last :
    {A : Type 0} (now : ℤ) (step : Result CallError A) (f : A → Workspace) (ws' : Workspace)
    → (step >>= (λ a. ok (touch now (f a)))) ≡ ok ws'
    → ws'.updated_at ≡ now
unfolding touch
touched_last now step f ws' h =
    let (a, found, last) = >>=-eq-ok step (λ a. ok (touch now (f a))) h in ground arith

module _ (env : Environment) (own : DeviceId) (ws ws' : Workspace) where
  written :
      (p : Permission) (rest : Result CallError Workspace)
      → (rest ≡ ok ws' → ws'.updated_at ≡ env.now_millis)
      → (guard (permits ws own p) not_allowed >>= (λ _. rest)) ≡ ok ws'
      → IsWritten env p own ws ws'
  written p rest touched h =
      let (done, passed, last) = >>=-eq-ok (guard (permits ws own p) not_allowed) (λ _. rest) h in
      record {
        permitted = guard-eq-ok (permits ws own p) not_allowed passed;
        touched = touched last;
      }

  -- A string argument that is there.
  given :
      (argument : Option Text) (failure : CallError) (body : Text → Result CallError Workspace)
      → ((value : Text) → body value ≡ ok ws' → ws'.updated_at ≡ env.now_millis)
      → (ok_or (nonblank argument) failure >>= body) ≡ ok ws'
      → ws'.updated_at ≡ env.now_millis
  given argument failure body touched h =
      let (value, found, rest) = >>=-eq-ok (ok_or (nonblank argument) failure) body h in
      touched value rest

  create_group_with-IsWritten :
      (name : Option Text)
      → create_group_with env name own ws ≡ ok ws'
      → IsWritten env manage_groups own ws ws'
  unfolding create_group_with
  create_group_with-IsWritten name h =
      written manage_groups _
        (given name name_invalid _ (λ value.
          touched_last env.now_millis
            (demand creator_not_added (
              add_to_group (create_group value [] env.now ws).1 own
                (create_group value [] env.now ws).0))
            (λ w. w) ws'))
        h

  create_department_with-IsWritten :
      (name : Option Text)
      → create_department_with env name own ws ≡ ok ws'
      → IsWritten env manage_departments own ws ws'
  unfolding create_department_with
  create_department_with-IsWritten name h =
      written manage_departments _
        (given name name_invalid _ (λ value.
          touched_last env.now_millis (ok (create_department value env.now ws)) (λ r. r.0) ws'))
        h

  create_broadcast_with-IsWritten :
      (trust : Option TrustStore) (title body : Option Text)
      → create_broadcast_with env trust title body own ws ≡ ok ws'
      → IsWritten env send_broadcasts own ws ws'
  unfolding create_broadcast_with
  create_broadcast_with-IsWritten trust title body h =
      written send_broadcasts _
        (given title title_invalid _ (λ t. given body body_invalid _ (λ b.
          touched_last env.now_millis (created (create_broadcast t b own none env.now env.now' ws))
            (λ made.
              deliver_workplace_envelope env trust (broadcast_envelope env made.1 t b)
                (other_ids own made.0.members) made.0)
            ws')))
        h

  add_group_member_with-IsWritten :
      (group_id device_id : Text)
      → add_group_member_with env group_id device_id own ws ≡ ok ws'
      → IsWritten env manage_groups own ws ws'
  unfolding add_group_member_with
  add_group_member_with-IsWritten group_id device_id h =
      written manage_groups _
        (touched_last env.now_millis
          (demand member_or_group_not_found (add_to_group group_id device_id ws)) (λ w. w) ws')
        h

  remove_group_member_with-IsWritten :
      (group_id device_id : Text)
      → remove_group_member_with env group_id device_id own ws ≡ ok ws'
      → IsWritten env manage_groups own ws ws'
  unfolding remove_group_member_with
  remove_group_member_with-IsWritten group_id device_id h =
      written manage_groups _
        (touched_last env.now_millis (demand not_in_group (remove_from_group group_id device_id ws))
          (λ w. w) ws')
        h

  move_group_member_with-IsWritten :
      (from_group to_group device_id : Text)
      → move_group_member_with env from_group to_group device_id own ws ≡ ok ws'
      → IsWritten env manage_groups own ws ws'
  unfolding move_group_member_with
  move_group_member_with-IsWritten from_group to_group device_id h =
      written manage_groups _
        (λ h.
          let (apart, differ, rest) =
            >>=-eq-ok (guard (not (text_eq from_group to_group)) same_group)
              (λ _. demand not_in_group (remove_from_group from_group device_id ws) >>= (λ left.
                demand no_destination (add_to_group to_group device_id left)
                >>= (λ w. ok (touch env.now_millis w))))
              h in
          let (left, found, last) =
            >>=-eq-ok (demand not_in_group (remove_from_group from_group device_id ws))
              (λ left.
                demand no_destination (add_to_group to_group device_id left)
                >>= (λ w. ok (touch env.now_millis w)))
              rest in
          touched_last env.now_millis (demand no_destination (add_to_group to_group device_id left))
            (λ w. w) ws' last)
        h

  rename_with-IsWritten :
      (name : Text)
      → rename_with env name own ws ≡ ok ws'
      → IsWritten env manage_workspace own ws ws'
  unfolding rename_with
  rename_with-IsWritten name h =
      written manage_workspace _
        (touched_last env.now_millis (succeed (rename name ws)) (λ w. w) ws') h

  set_member_role_with-IsWritten :
      (device_id : Text) (role : Role)
      → set_member_role_with env device_id role own ws ≡ ok ws'
      → IsWritten env manage_members own ws ws'
  unfolding set_member_role_with
  set_member_role_with-IsWritten device_id role h =
      written manage_members _
        (touched_last env.now_millis (succeed (set_member_role own device_id role ws)) (λ w. w) ws')
        h

  -- A mutation, if its arguments have been read, on this workplace.
  abbrev pub run : Result CallError Mutation → Result CallError Workspace
  run (ok mutate) = mutate own ws
  run (err e) = err e

  run->>= :
      {A : Type 0} (step : Result CallError A) (rest : A → Result CallError Mutation)
      → run (step >>= rest) ≡ ok ws'
      → (a : A) × (run (rest a) ≡ ok ws')
  run->>= (ok a) rest h = (a, h)
  run->>= (err e) rest h = absurd (ground arith)

  -- A call with a group and a device.
  two_ids :
      (p : Permission) (group_id device_id : Option Text) (body : Text → Text → Mutation)
      → ((g d : Text) → body g d own ws ≡ ok ws' → IsWritten env p own ws ws')
      → run (
          ok_or (nonblank group_id) group_id_invalid
          >>= (λ g. ok_or (nonblank device_id) device_id_invalid >>= (λ d. ok (body g d))))
        ≡ ok ws'
      → IsWritten env p own ws ws'
  two_ids p group_id device_id body each h =
      let (g, found) = run->>= (ok_or (nonblank group_id) group_id_invalid) _ h in
      let (d, last) = run->>= (ok_or (nonblank device_id) device_id_invalid) _ found in
      each g d last

  pub mutation-IsWritten :
      (trust : Option TrustStore) (call : Call)
      → run (mutation env trust call) ≡ ok ws'
      → IsWritten env (needed call) own ws ws'
  unfolding mutation
  mutation-IsWritten trust (to_create_group name) h = create_group_with-IsWritten name h
  mutation-IsWritten trust (to_create_department name) h = create_department_with-IsWritten name h
  mutation-IsWritten trust (to_add_group_member group_id device_id) h =
      two_ids manage_groups group_id device_id (add_group_member_with env)
        add_group_member_with-IsWritten h
  mutation-IsWritten trust (to_remove_group_member group_id device_id) h =
      two_ids manage_groups group_id device_id (remove_group_member_with env)
        remove_group_member_with-IsWritten h
  mutation-IsWritten trust (to_move_group_member from_group to_group device_id) h =
      let (f, rest) = run->>= (ok_or (nonblank from_group) group_id_invalid) _ h in
      two_ids manage_groups to_group device_id (move_group_member_with env f)
        (move_group_member_with-IsWritten f) rest
  mutation-IsWritten trust (to_create_broadcast title body) h =
      create_broadcast_with-IsWritten trust title body h
  mutation-IsWritten trust (to_rename name) h =
      let (n, rest) = run->>= (ok_or name name_invalid) _ h in rename_with-IsWritten n rest
  mutation-IsWritten trust (to_set_member_role device_id role) h =
      let (d, rest) = run->>= (ok_or (nonblank device_id) device_id_invalid) _ h in
      let (word, rest') = run->>= (ok_or (nonblank role) role_invalid) _ rest in
      let (r, last) = run->>= (ok_or (from_wire word) role_unknown) _ rest' in
      set_member_role_with-IsWritten d r last
