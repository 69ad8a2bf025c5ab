-- ===== src/Native/Inbox/Receive/Synced.antt =====
-- Whose states and tombstones the listener takes over.
use capsi.Native.Disk.{Disk, CallError, load, save, delete}
use capsi.Base.{
  ◌≡◌, refl, sym, ap, ◌∙◌, ◌⊎◌, inl, inr, not, ◌&&◌, Option, none, some, [], arith, Bool-cases,
  text_eq, text_eq→eq, Result, ok, err,
}
use capsi.Protocol.Message.{WorkplaceSyncMessage}
use capsi.Identity.Device.{DeviceId}
use capsi.Workplace.State.{WorkspaceState}
use capsi.Workplace.Workspace.{Workspace, WorkplaceError}
use capsi.Workplace.Sync.{apply_network_state}
use capsi.Workplace.Sync.Authority.{apply_network_state_authorized}
use capsi.Native.Inbox.{DataDir, Arrival, workplace_sync_event}
use capsi.Native.Inbox.Workplaces.{
  after_delete, bury_loaded, applied, merge_state, save_merged, merge_loaded, take_sync,
}
use capsi.Native.Inbox.Receive.Structure.{
  IsAuthorized, kept, buried, replaced, founded, load-eq-ok, workspace-save, workspace-delete,
  from_network_state-owner, HasAuthority, if-HasAuthority, after_save-workspace,
}

module _ (own : DeviceId) (a : Arrival) (dir : DataDir) where
  after_delete-HasAuthority :
      (state : WorkspaceState) (ws : Workspace) (r : Disk × Result CallError (Unit {0}))
      → dir.disk.workspace ≡ some ws
      → ws.owner_device_id ≡ a.peer_id
      → (r.0.workspace ≡ dir.disk.workspace) ⊎ (r.0.workspace ≡ none)
      → HasAuthority own a dir (after_delete own a state dir r).data_dir
  after_delete-HasAuthority state ws (disk, err e) there of_owner (inl e') = kept e'
  after_delete-HasAuthority state ws (disk, err e) there of_owner (inr e') =
      buried ws there of_owner e'
  after_delete-HasAuthority state ws (disk, ok _) there of_owner (inl e') = kept e'
  after_delete-HasAuthority state ws (disk, ok _) there of_owner (inr e') =
      buried ws there of_owner e'

  bury_loaded-HasAuthority :
      (state : WorkspaceState) (r : Result CallError (Option Workspace))
      → load dir.disk ≡ r
      → HasAuthority own a dir (bury_loaded own a state r dir).data_dir
  bury_loaded-HasAuthority state (err e) loaded = kept refl
  bury_loaded-HasAuthority state (ok none) loaded = kept refl
  bury_loaded-HasAuthority state (ok (some ws)) loaded =
      elim (Bool-cases (text_eq ws.id state.id && text_eq ws.owner_device_id a.peer_id)) [
        | inr other ↦ rw other (kept refl)
        | inl same ↦ rw same (
            after_delete-HasAuthority state ws (delete dir.disk)
              (load-eq-ok dir.disk (some ws) loaded)
              (text_eq→eq ws.owner_device_id a.peer_id (ground arith)) (workspace-delete dir.disk))
      ]

  -- A state that the stored workplace takes over, or the first one.
  merged-IsAuthorized :
      (state : WorkspaceState) (existing : Option Workspace) (ws : Workspace)
      → dir.disk.workspace ≡ existing
      → merge_state own a state existing ≡ ok ws
      → (after : Option Workspace) → after ≡ some ws
      → IsAuthorized own a.peer_id dir.disk.workspace after
  unfolding merge_state
  merged-IsAuthorized state none ws there merged after saved =
      founded ws state there (from_network_state-owner state a.peer_id own ws merged) merged saved
  merged-IsAuthorized state (some old) ws there merged after saved =
      let result = apply_network_state old state a.peer_id in
      let same : result.0 ≡ ws = applied_lem result ws merged in
      elim (apply_network_state_authorized old state a.peer_id) [
        | inl unchanged ↦ kept (saved ∙ ap some (sym same ∙ unchanged) ∙ sym there)
        | inr (m, inside, named, ranked) ↦
            replaced old m state there inside named ranked (saved ∙ ap some (sym same))
      ]
    where
      applied_lem :
          (result : Workspace × Result WorkplaceError (Unit {0})) (w : Workspace)
          → applied own a result ≡ ok w
          → result.0 ≡ w
      applied_lem (w', ok _) w h = ground arith
      applied_lem (w', err e) w h = absurd (ground arith)

  save_merged-HasAuthority :
      (state : WorkspaceState) (existing : Option Workspace) (r : Result WorkplaceError Workspace)
      → dir.disk.workspace ≡ existing
      → merge_state own a state existing ≡ r
      → HasAuthority own a dir (save_merged own a r dir).data_dir
  save_merged-HasAuthority state existing (err e) there merged = kept refl
  save_merged-HasAuthority state existing (ok ws) there merged =
      rw
        (after_save-workspace own a dir (workplace_sync_event a.peer_id ws.id ws.name) []
          (save ws dir.disk))
        (elim (workspace-save ws dir.disk) [
          | inl unsaved ↦ kept unsaved
          | inr saved ↦ merged-IsAuthorized state existing ws there merged _ saved
        ])

  merge_loaded-HasAuthority :
      (state : WorkspaceState) (r : Result CallError (Option Workspace))
      → load dir.disk ≡ r
      → HasAuthority own a dir (merge_loaded own a state r dir).data_dir
  merge_loaded-HasAuthority state (err e) loaded = kept refl
  merge_loaded-HasAuthority state (ok existing) loaded =
      save_merged-HasAuthority state existing (merge_state own a state existing)
        (load-eq-ok dir.disk existing loaded) refl

  pub take_sync-HasAuthority :
      (sync : WorkplaceSyncMessage) → HasAuthority own a dir (take_sync own a sync dir).data_dir
  unfolding take_sync
  take_sync-HasAuthority sync =
      if-HasAuthority own a dir (not (text_eq sync.actor_device_id a.peer_id)) _ _ (kept refl) (
        if-HasAuthority own a dir sync.state.deleted _ _
          (if-HasAuthority own a dir (not (text_eq sync.state.owner_device_id a.peer_id)) _ _
            (kept refl) (bury_loaded-HasAuthority sync.state (load dir.disk) refl))
          (merge_loaded-HasAuthority sync.state (load dir.disk) refl))
