-- ===== src/Workplace/Members/Assignment.antt =====
-- What a change of role needs, and what it changes.
use capsi.Base.{
  ◌≡◌, refl, sym, ◌∙◌, ◌≢◌, ◌↔◌, ◌⊎◌, inl, inr, true, false, not, ◌||◌, some, arith, find,
  update_first, Text, text_eq, text_eq_iff, In, find-update_first_ne, find-update_first_self, ok,
  err, guard, ok_or, >>=-eq-ok, guard-eq-ok, ok_or-eq-ok, Result-cases,
}
use capsi.Workplace.State.{Role, owner, admin, manager, member, Member}
use capsi.Workplace.Roles.{can_assign, assignable_roles, role_eq}
use capsi.Workplace.Workspace.{Workspace, WorkplaceError, is_device}
use capsi.Workplace.Consistency.{HasOwner}
use capsi.Workplace.Members.{check_role_change, set_member_role}

-- A role is assignable exactly when `can_assign` says so: the list shown to the user agrees with
-- the rule that the change is checked by. No role can be used to make an owner.
pub assignable_roles_iff :
    (actor r : Role) → In r (assignable_roles actor) ↔ (can_assign actor r ≡ true)
unfolding assignable_roles can_assign
assignable_roles_iff owner owner = ground arith
assignable_roles_iff owner admin = ground arith
assignable_roles_iff owner manager = ground arith
assignable_roles_iff owner member = ground arith
assignable_roles_iff admin owner = ground arith
assignable_roles_iff admin admin = ground arith
assignable_roles_iff admin manager = ground arith
assignable_roles_iff admin member = ground arith
assignable_roles_iff manager owner = ground arith
assignable_roles_iff manager _ = ground arith
assignable_roles_iff member owner = ground arith
assignable_roles_iff member _ = ground arith

-- What a successful change of role has checked.
pub record IsAllowed (actor_id device_id : Text) (role : Role) (ws : Workspace) : Type 0 where
  pub target : Member
  pub target_found : find (is_device device_id) ws.members ≡ some target
  pub actor : Member
  pub actor_found : find (is_device actor_id) ws.members ≡ some actor
  pub not_owner_device : device_id ≢ ws.owner_device_id
  pub target_not_owner : target.role ≢ owner
  pub role_not_owner : role ≢ owner
  pub may_assign_new : can_assign actor.role role ≡ true
  pub may_assign_old : can_assign actor.role target.role ≡ true

check_role_change_sound :
    (actor_id device_id : Text) (role : Role) (ws : Workspace)
    → check_role_change actor_id device_id role ws ≡ ok tt
    → IsAllowed actor_id device_id role ws
unfolding check_role_change
check_role_change_sound actor_id device_id role ws h =
    let (target, e₁, h₁) = >>=-eq-ok (ok_or (find (is_device device_id) ws.members) _) _ h in
    let (_, e₂, h₂) = >>=-eq-ok (guard _ _) _ h₁ in
    let (actor, e₃, h₃) = >>=-eq-ok (ok_or (find (is_device actor_id) ws.members) _) _ h₂ in
    let (_, e₄, h₄) = >>=-eq-ok (guard (can_assign actor.role role) _) _ h₃ in
    let fixed : not
          (text_eq device_id ws.owner_device_id || role_eq target.role owner || role_eq role owner)
        ≡ true =
      guard-eq-ok _ _ e₂ in
    record {
      target = target;
      target_found = ok_or-eq-ok _ _ e₁;
      actor = actor;
      actor_found = ok_or-eq-ok _ _ e₃;
      not_owner_device = λ same. ground (arith, fixed, text_eq_iff device_id ws.owner_device_id);
      target_not_owner = λ same. ground (arith, fixed);
      role_not_owner = λ same. ground (arith, fixed);
      may_assign_new = guard-eq-ok _ _ e₄;
      may_assign_old = guard-eq-ok _ _ h₄;
    }

set_member_role_cases :
    (actor_id device_id : Text) (role : Role) (ws : Workspace)
    → ((e : WorkplaceError) × (set_member_role actor_id device_id role ws ≡ (ws, err e)))
      ⊎ IsAllowed actor_id device_id role ws
        × (set_member_role actor_id device_id role ws ≡ (
          record ws {
            members = update_first (is_device device_id) (λ m. record m { role = role }) ws.members;
          },
          ok tt,
        ))
unfolding set_member_role
set_member_role_cases actor_id device_id role ws =
    elim (Result-cases (check_role_change actor_id device_id role ws)) [
      | inr (e, refused) ↦ inl (e, rw (refused, set_member_role))
      | inl (_, passed) ↦
          inr (
            check_role_change_sound actor_id device_id role ws passed,
            rw (passed, set_member_role),
          )
    ]

-- A change of role that fails changes nothing. One that succeeds was asked by a member who may
-- assign both the old and the new role of a member that is not the owner, it gives that member
-- the new role, and every other device keeps the entry it had.
pub set_member_role_lem :
    (actor_id device_id : Text) (role : Role) (ws : Workspace)
    → let (after, result) = set_member_role actor_id device_id role ws in
      ((e : WorkplaceError) × (result ≡ err e) × (after ≡ ws))
      ⊎ (a : IsAllowed actor_id device_id role ws) × (result ≡ ok tt)
        × (find (is_device device_id) after.members ≡ some (record (a.target) { role = role }))
        × ((other : Text)
            → other ≢ device_id
            → find (is_device other) after.members ≡ find (is_device other) ws.members)
set_member_role_lem actor_id device_id role ws =
    elim (set_member_role_cases actor_id device_id role ws) [
      | inl (e, failed) ↦ inl (rw failed (e, refl, refl))
      | inr (a, done) ↦ inr (
          rw done (
            a,
            refl,
            find-update_first_self (is_device device_id) (λ m. record m { role = role }) (λ m h. h)
                ws.members a.target a.target_found,
            λ other differs.
                find-update_first_ne (is_device device_id) (λ m. record m { role = role })
                  (is_device other) (λ m h. device_ne m other differs h)
                  (λ m h. device_ne m other differs h) ws.members,
          ))
    ]
  where
    device_ne :
        (m : Member) (other : Text)
        → other ≢ device_id
        → is_device device_id m ≡ true
        → is_device other m ≡ false
    device_ne m other differs h =
        ground (arith, text_eq_iff m.device_id device_id, text_eq_iff m.device_id other)

-- The owner stays a member with the role of the owner, whoever asks for whatever change.
pub set_member_role-HasOwner :
    (actor_id device_id : Text) (role : Role) (ws : Workspace)
    → HasOwner ws.owner_device_id ws.members
    → HasOwner ws.owner_device_id (set_member_role actor_id device_id role ws).0.members
set_member_role-HasOwner actor_id device_id role ws (o, found, is_owner) =
    elim (set_member_role_lem actor_id device_id role ws) [
      | inl (e, _, same) ↦ rw same (o, found, is_owner)
      | inr (a, _, _, others) ↦
          (o, others ws.owner_device_id (λ same. a.not_owner_device (sym same)) ∙ found, is_owner)
    ]
