-- ===== src/Native/Deletion.antt =====
-- `capsi_workplace_delete` of flutter/native/src/lib.rs.
use capsi.Base.{
  ◌≡◌, refl, sym, ap, ◌∙◌, ◌⊎◌, inl, inr, false, Option, none, some, Bool-cases, Option-cases,
  text_eq, text_eq→eq, Result, ok, err, guard, ok_or, ◌>>=◌, ◌>>◌, >>=-eq-ok, guard-eq-ok,
  ok_or-eq-ok, Result-cases,
}
use capsi.Identity.Device.{DeviceId}
use capsi.Workplace.State.{manage_workspace}
use capsi.Workplace.Workspace.{Workspace, tombstone_state}
use capsi.Workplace.Permissions.{permits}
use capsi.Native.Disk.{
  Disk, CallError, no_identity, not_deleted, not_allowed, not_the_owner, Environment, load_existing,
  delete,
}
use capsi.Native.Outbox.{WorkplaceSyncStatus, sync_state_to_members}

-- `capsi_workplace_delete`: the members are told before the file goes.
unfoldable pub may_delete : Disk → Result CallError (DeviceId × Workspace)
unfolding load_existing permits
may_delete disk = do
  own ← ok_or disk.own_id no_identity
  ws ← load_existing disk
  guard (text_eq ws.owner_device_id own) not_the_owner
  guard (permits ws own manage_workspace) not_allowed
  ok (own, ws)

abbrev told :
    WorkplaceSyncStatus
    → Disk × Result CallError (Unit {0})
    → Disk × Result CallError WorkplaceSyncStatus
told status (disk, err e) = (disk, err e)
told status (disk, ok _) = (disk, ok status)

unfoldable pub capsi_workplace_delete :
    Environment → Disk → Disk × Result CallError WorkplaceSyncStatus
unfolding may_delete sync_state_to_members tombstone_state delete
capsi_workplace_delete env disk = elim (may_delete disk) [
  | err e ↦ (disk, err e)
  | ok r ↦
      told (sync_state_to_members env r.0 disk.trust r.1 (tombstone_state env.now_millis r.1))
        (delete disk)
]

deletion :
    (disk : Disk) (status : WorkplaceSyncStatus)
    → let (after, result) = told status (delete disk) in
      ((e : CallError) × (result ≡ err e) × (after ≡ disk))
      ⊎ ((result ≡ ok status) × (after ≡ record disk { workspace = none }))
unfolding delete
deletion disk status = elim (Option-cases disk.workspace) [
  | inl nothing ↦
      rw (nothing, delete)
        (inr (refl, ap (λ (w : Option Workspace). record disk { workspace = w }) nothing))
  | inr (ws, e) ↦ elim (Bool-cases disk.removable) [
    | inl free ↦ rw (e, free, delete) (inr (refl, refl))
    | inr held ↦
        rw (e, held, delete)
          (inl (
            not_deleted,
            refl,
            ap (λ (w : Option Workspace). record disk { workspace = w; removable = false }) e,
          ))
  ]
]

may_delete_lem :
    (disk : Disk) (own : DeviceId) (ws : Workspace)
    → may_delete disk ≡ ok (own, ws)
    → (disk.own_id ≡ some own) × (load_existing disk ≡ ok ws) × (ws.owner_device_id ≡ own)
unfolding may_delete
may_delete_lem disk own ws h =
    let (own', identified, rest) = >>=-eq-ok (ok_or disk.own_id no_identity) _ h in
    let (ws', stored, rest') = >>=-eq-ok (load_existing disk) _ rest in
    let (done, mine, rest'') =
      >>=-eq-ok (guard (text_eq ws'.owner_device_id own') not_the_owner)
        (λ _. guard (permits ws' own' manage_workspace) not_allowed >>= (λ _. ok (own', ws')))
        rest' in
    let (done', allowed, last) =
      >>=-eq-ok (guard (permits ws' own' manage_workspace) not_allowed) (λ _. ok (own', ws'))
        rest'' in
    let same_own : own' ≡ own = ap (λ r. elim r [ ok a ↦ a.0 | err e ↦ own' ]) last in
    let same_ws : ws' ≡ ws = ap (λ r. elim r [ ok a ↦ a.1 | err e ↦ ws' ]) last in
    let owner_here = text_eq→eq ws'.owner_device_id own' (guard-eq-ok _ not_the_owner mine) in
    (
      ok_or-eq-ok disk.own_id no_identity identified ∙ ap some same_own,
      stored ∙ ap ok same_ws,
      (sym (ap (λ (w : Workspace). w.owner_device_id) same_ws) ∙ owner_here) ∙ same_own,
    )

-- A deletion either fails and leaves the disk as it was, or the device is the owner of the workplace
-- that was stored, and the disk differs from the one before only in that it has no workplace.
pub capsi_workplace_delete_lem :
    (env : Environment) (disk : Disk)
    → let (after, result) = capsi_workplace_delete env disk in
      ((e : CallError) × (result ≡ err e) × (after ≡ disk))
      ⊎ ((own : DeviceId) × (ws : Workspace) × (status : WorkplaceSyncStatus) × (disk.own_id
            ≡ some own)
          × (load_existing disk ≡ ok ws)
          × (ws.owner_device_id ≡ own)
          × (result ≡ ok status)
          × (after ≡ record disk { workspace = none }))
unfolding capsi_workplace_delete
capsi_workplace_delete_lem env disk = elim (Result-cases (may_delete disk)) [
  | inr (e, bad) ↦ rw (bad, capsi_workplace_delete) (inl (e, refl, refl))
  | inl ((own, ws), fine) ↦
      let (identified, stored, mine) = may_delete_lem disk own ws fine in
      let status =
        sync_state_to_members env own disk.trust ws (tombstone_state env.now_millis ws) in
      elim (deletion disk status) [
        | inl failed ↦ rw (fine, capsi_workplace_delete) (inl failed)
        | inr (result, gone) ↦
            rw (fine, capsi_workplace_delete)
              (inr (own, ws, status, identified, stored, mine, result, gone))
      ]
]
