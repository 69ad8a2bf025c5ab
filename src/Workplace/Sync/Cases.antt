-- ===== src/Workplace/Sync/Cases.antt =====
-- `apply_network_state` either keeps the workspace or replaces it by an admitted state.
use capsi.Base.{
  ◌≡◌, ◌⊎◌, inl, inr, true, false, arith, Bool-cases, Text, text_eq, text_eq_iff, text_eq→eq, ◌<ℤ◌,
  ◌≤ℤ◌, ok, Result-cases,
}
use capsi.Workplace.State.{WorkspaceState}
use capsi.Workplace.Workspace.{Workspace}
use capsi.Workplace.Sync.{admit, replace_state, apply_network_state}
use capsi.Workplace.Sync.Accepted.{IsAdmitted, admit_sound, admit_complete}

-- What holds when the workspace is replaced.
pub record IsTaken (ws : Workspace) (state : WorkspaceState) (actor_id : Text) : Type 0 where
  pub admitted : IsAdmitted ws state actor_id
  pub same_id : state.id ≡ ws.id
  pub same_owner : state.owner_device_id ≡ ws.owner_device_id
  pub not_stale : ws.updated_at ≤ℤ state.updated_at

pub apply_cases :
    (ws : Workspace) (state : WorkspaceState) (actor_id : Text)
    → ((apply_network_state ws state actor_id).0 ≡ ws)
      ⊎ IsTaken ws state actor_id
        × (apply_network_state ws state actor_id ≡ (replace_state ws state, ok tt))
unfolding apply_network_state
apply_cases ws state actor_id = elim (Bool-cases (text_eq state.id ws.id)) [
  | inr other ↦ inl (rw other)
  | inl same ↦ elim (Bool-cases (text_eq state.owner_device_id ws.owner_device_id)) [
    | inr other ↦ inl (rw (same, other))
    | inl same_owner ↦ elim (Bool-cases (state.updated_at <ℤ ws.updated_at)) [
      | inl stale ↦ inl (rw (same, same_owner, stale))
      | inr recent ↦ elim (Result-cases (admit ws state actor_id)) [
        | inr (e, refused) ↦ inl (rw (same, same_owner, recent, refused))
        | inl (_, passed) ↦ inr (
          record {
            admitted = admit_sound ws state actor_id passed;
            same_id = text_eq→eq state.id ws.id same;
            same_owner = text_eq→eq state.owner_device_id ws.owner_device_id same_owner;
            not_stale = ground arith;
          },
          rw (same, same_owner, recent, passed),
        )
      ]
    ]
  ]
]

pub apply_taken :
    (ws : Workspace) (state : WorkspaceState) (actor_id : Text)
    → IsTaken ws state actor_id
    → apply_network_state ws state actor_id ≡ (replace_state ws state, ok tt)
unfolding apply_network_state
apply_taken ws state actor_id t =
    let same : text_eq state.id ws.id ≡ true = (text_eq_iff state.id ws.id).1 t.same_id in
    let same_owner : text_eq state.owner_device_id ws.owner_device_id ≡ true =
      (text_eq_iff state.owner_device_id ws.owner_device_id).1 t.same_owner in
    let recent : (state.updated_at <ℤ ws.updated_at) ≡ false = ground (arith, t.not_stale) in
    rw (same, same_owner, recent, admit_complete ws state actor_id t.admitted)
