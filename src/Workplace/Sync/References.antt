-- ===== src/Workplace/Sync/References.antt =====
-- A synchronization keeps the workplace consistent, and every consistent state is taken.
use capsi.Base.{◌≡◌, refl, ◌⊎◌, inl, inr, Text, ◌≤ℤ◌, ≤ℤ_refl, ok}
use capsi.Workplace.State.{WorkspaceState}
use capsi.Workplace.Workspace.{Workspace, network_state}
use capsi.Workplace.Consistency.{IsConsistentWorkspace, HasOwner}
use capsi.Workplace.Sync.{check_admin, replace_state, apply_network_state}
use capsi.Workplace.Sync.Cases.{apply_cases, apply_taken}

-- Whatever state a peer sends, `apply_network_state` leaves the workspace as it was, or with
-- groups, departments, members and messages that refer only to what it holds, and with its
-- owner as a member of the owner's role.
pub apply_network_state-IsConsistent :
    (ws : Workspace) (state : WorkspaceState) (actor_id : Text)
    → let after = (apply_network_state ws state actor_id).0 in
      (after ≡ ws) ⊎ IsConsistentWorkspace after × HasOwner after.owner_device_id after.members
apply_network_state-IsConsistent ws state actor_id = elim (apply_cases ws state actor_id) [
  | inl same ↦ inl same
  | inr (taken, e) ↦
      let c = taken.admitted.consistent in
      let o = taken.admitted.owner_kept in
      inr (rw e (unfold replace_state in (c, rw taken.same_owner at o)))
]

-- The id, the creation time, the owner, the delivery queue and the journal of received ids
-- outlive every synchronization, and the time of the last update never goes back.
pub apply_network_state_frame :
    (ws : Workspace) (state : WorkspaceState) (actor_id : Text)
    → let after = (apply_network_state ws state actor_id).0 in
      (after.id ≡ ws.id)
      × (after.created_at ≡ ws.created_at)
      × (after.owner_device_id ≡ ws.owner_device_id)
      × (after.pending_deliveries ≡ ws.pending_deliveries)
      × (after.received_message_ids ≡ ws.received_message_ids)
      × (ws.updated_at ≤ℤ after.updated_at)
apply_network_state_frame ws state actor_id = elim (apply_cases ws state actor_id) [
  | inl same ↦ rw same (refl, refl, refl, refl, refl, ≤ℤ_refl ws.updated_at)
  | inr (taken, e) ↦ rw e (unfold replace_state in (refl, refl, refl, refl, refl, taken.not_stale))
]

-- The state of a consistent workplace that has its owner, sent by the owner, is taken by every
-- device that has a copy of the same workplace, knows the owner as such and is not ahead.
pub owner_sync_accepted :
    (sender receiver : Workspace)
    → IsConsistentWorkspace sender
    → HasOwner sender.owner_device_id sender.members
    → sender.id ≡ receiver.id
    → sender.owner_device_id ≡ receiver.owner_device_id
    → HasOwner receiver.owner_device_id receiver.members
    → receiver.updated_at ≤ℤ sender.updated_at
    → apply_network_state receiver (network_state sender) receiver.owner_device_id
      ≡ (replace_state receiver (network_state sender), ok tt)
unfolding network_state
owner_sync_accepted sender receiver consistent has_owner same_id same_owner (o, found, is_owner)
      recent =
    apply_taken receiver (network_state sender) receiver.owner_device_id (record {
      admitted = record {
        actor = o;
        actor_found = found;
        actor_privileged = rw is_owner;
        owner_kept = has_owner;
        consistent = consistent;
        admin_checked = unfold check_admin in rw is_owner;
      };
      same_id = same_id;
      same_owner = same_owner;
      not_stale = recent;
    })
