-- ===== src/Workplace/Sync/Authority.antt =====
-- Who can change a workplace by a synchronization, and what an administrator cannot do by one.
use capsi.Base.{
  ◌≡◌, refl, sym, ◌≢◌, ◌⊎◌, inl, inr, true, some, List, arith, Bool-cases, find, any, find-eq-some,
  Text, text_eq, text_eq→eq, In, any→In, all→In, find→In, In-retain, retain-In, ok, guard,
  >>=-eq-ok, guard-eq-ok,
}
use capsi.Workplace.State.{Role, owner, admin, Member, WorkspaceState}
use capsi.Workplace.Workspace.{Workspace, is_device}
use capsi.Workplace.Sync.{
  is_privileged, privileged, same_rank, is_subset, check_admin, replace_state, apply_network_state,
}
use capsi.Workplace.Roles.{role_eq}
use capsi.Workplace.Sync.Accepted.{role_eq→eq}
use capsi.Workplace.Sync.Cases.{apply_cases}

-- A synchronization changes the workspace only if its sender is a member with the role of an
-- owner or an admin in the receiver's own list.
pub apply_network_state_authorized :
    (ws : Workspace) (state : WorkspaceState) (actor_id : Text)
    → ((apply_network_state ws state actor_id).0 ≡ ws)
      ⊎ ((m : Member) × In m ws.members
          × (m.device_id ≡ actor_id)
          × ((m.role ≡ owner) ⊎ (m.role ≡ admin)))
apply_network_state_authorized ws state actor_id = elim (apply_cases ws state actor_id) [
  | inl same ↦ inl same
  | inr (taken, _) ↦
      let a = taken.admitted in
      let named = find-eq-some (is_device actor_id) ws.members a.actor a.actor_found in
      inr (
        a.actor,
        find→In (is_device actor_id) a.actor ws.members a.actor_found,
        text_eq→eq a.actor.device_id actor_id named,
        privileged_cases a.actor.role a.actor_privileged,
      )
]
  where
    privileged_cases : (r : Role) → is_privileged r ≡ true → (r ≡ owner) ⊎ (r ≡ admin)
    privileged_cases r h = ground arith

is_subset_sound :
    (incoming locals : List Member)
    → is_subset (privileged incoming) (privileged locals) ≡ true
    → (m : Member) → In m incoming
    → is_privileged m.role ≡ true
    → (old : Member) × In old locals × (old.device_id ≡ m.device_id) × (old.role ≡ m.role)
unfolding is_subset privileged
is_subset_sound incoming locals h m in_incoming ranked =
    let listed = retain-In (λ m. is_privileged m.role) m incoming in_incoming ranked in
    let covered = all→In (λ m. any (same_rank m) (privileged locals)) m _ h listed in
    let (old, in_old, same) = any→In (same_rank m) (privileged locals) covered in
    let (in_locals, _) = In-retain (λ m. is_privileged m.role) old locals in_old in
    let same_id : text_eq m.device_id old.device_id ≡ true = ground arith in
    let same_role : role_eq m.role old.role ≡ true = ground arith in
    (
      old,
      in_locals,
      sym (text_eq→eq m.device_id old.device_id same_id),
      sym (role_eq→eq m.role old.role same_role),
    )

check_admin_subset :
    (ws : Workspace) (state : WorkspaceState) (actor : Member) (actor_id : Text)
    → actor.role ≢ owner
    → check_admin ws state actor actor_id ≡ ok tt
    → is_subset (privileged state.members) (privileged ws.members) ≡ true
unfolding check_admin
check_admin_subset ws state actor actor_id not_owner h =
    elim (Bool-cases (role_eq actor.role owner)) [
      | inl is_owner ↦ absurd (not_owner (role_eq→eq actor.role owner is_owner))
      | inr other ↦
          let (_, passed, _) = >>=-eq-ok (guard (is_subset _ _) _) _ (rw other at h) in
          guard-eq-ok _ _ passed
    ]

-- A synchronization whose sender the receiver knows as an admin makes nobody an owner or admin:
-- whoever has such a role afterwards had the same one before.
pub admin_cannot_promote :
    (ws : Workspace) (state : WorkspaceState) (actor_id : Text) (actor : Member)
    → find (is_device actor_id) ws.members ≡ some actor
    → actor.role ≢ owner
    → (m : Member) → In m (apply_network_state ws state actor_id).0.members
    → (m.role ≡ owner) ⊎ (m.role ≡ admin)
    → (old : Member) × In old ws.members × (old.device_id ≡ m.device_id) × (old.role ≡ m.role)
admin_cannot_promote ws state actor_id actor found not_owner m in_after ranked =
    elim (apply_cases ws state actor_id) [
      | inl same ↦ (m, rw same at in_after, refl, refl)
      | inr (taken, e) ↦
          let a = taken.admitted in
          let same : a.actor ≡ actor = cc a.actor_found in
          let checked : check_admin ws state actor actor_id ≡ ok tt = rw same at a.admin_checked in
          is_subset_sound state.members ws.members
            (check_admin_subset ws state actor actor_id not_owner checked) m
            (unfold replace_state in rw e at in_after) (ground (arith, ranked))
    ]
