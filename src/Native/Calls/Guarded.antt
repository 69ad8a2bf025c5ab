-- ===== src/Native/Calls/Guarded.antt =====
-- What a call on the stored workplace can change, and who may make it.
use capsi.Base.{
  ◌≡◌, refl, sym, ap, ◌∙◌, ◌⊎◌, inl, inr, Bool, true, false, if◌then◌else◌, some, Result, ok, err,
  ok_or, >>=-eq-ok, ok_or-eq-ok, Result-cases,
}
use capsi.Identity.Device.{DeviceId}
use capsi.Workplace.Workspace.{Workspace}
use capsi.Workplace.Permissions.{permits}
use capsi.Native.Disk.{
  Disk, CallError, no_identity, not_saved, Environment, load_existing, save, written, not_written,
  IsFailed, not_written-IsFailed,
}
use capsi.Native.Calls.Written.{needed, run, mutation-IsWritten}
use capsi.Native.Calls.{
  Mutation, Answer, distribute, prepare, workplace_mutate_path, Call, mutation, perform_call,
}

-- What a call that succeeds leaves and answers.
pub record IsPerformed (env : Environment) (call : Call) (before after : Disk) (answer : Answer)
    : Type 0 where
  pub own : DeviceId
  pub ws : Workspace
  pub identified : before.own_id ≡ some own
  pub stored : load_existing before ≡ ok ws
  pub permitted : permits ws own (needed call) ≡ true
  pub saved : after ≡ written answer.0 before
  pub touched : answer.0.updated_at ≡ env.now_millis

-- What a mutation of the stored workplace came to.
abbrev Outcome :
    (env : Environment) (mutate : Mutation) (disk : Disk) → Disk × Result CallError Answer → Type 0
Outcome env mutate disk (after, result) =
    ((e : CallError) × (result ≡ err e) × IsFailed disk after e)
    ⊎ ((own : DeviceId) × (ws : Workspace) × (answer : Answer) × (disk.own_id ≡ some own)
        × (load_existing disk ≡ ok ws)
        × (mutate own ws ≡ ok answer.0)
        × (result ≡ ok answer)
        × (after ≡ written answer.0 disk))

prepare_lem :
    (mutate : Mutation) (disk : Disk) (own : DeviceId) (ws' : Workspace)
    → prepare mutate disk ≡ ok (own, ws')
    → (ws : Workspace) × (disk.own_id ≡ some own)
      × (load_existing disk ≡ ok ws)
      × (mutate own ws ≡ ok ws')
unfolding prepare
prepare_lem mutate disk own ws' h =
    let (own', identified, rest) = >>=-eq-ok (ok_or disk.own_id no_identity) _ h in
    let (ws, stored, rest') = >>=-eq-ok (load_existing disk) _ rest in
    let (made, changed, last) = >>=-eq-ok (mutate own' ws) (λ w. ok (own', w)) rest' in
    let known = ok_or-eq-ok disk.own_id no_identity identified in
    let same_own : own' ≡ own = ap (λ r. elim r [ ok a ↦ a.0 | err e ↦ own' ]) last in
    let same_made : made ≡ ws' = ap (λ r. elim r [ ok a ↦ a.1 | err e ↦ made ]) last in
    (ws, known ∙ ap some same_own, stored, rw same_own at (changed ∙ ap ok same_made))

module _ (env : Environment) (own : DeviceId) (ws : Workspace) (disk : Disk) where
  -- What `save` has come to, distributed.
  abbrev IsDistributed : Disk × Result CallError Answer → Type 0
  IsDistributed (after, result) =
      ((e : CallError) × (result ≡ err e) × IsFailed disk after e)
      ⊎ ((answer : Answer) × (answer.0 ≡ ws) × (result ≡ ok answer) × (after ≡ written ws disk))

  distribute_with :
      (b : Bool)
      → disk.writable ≡ b
      → IsDistributed (
          distribute env own ws
            (if b then (written ws disk, ok tt) else (not_written ws disk, err not_saved)))
  distribute_with true free = inr ((ws, _), refl, refl, refl)
  distribute_with false shut = inl (not_saved, refl, not_written-IsFailed ws disk shut)

  pub distribute_lem : IsDistributed (distribute env own ws (save ws disk))
  unfolding save
  distribute_lem = distribute_with disk.writable refl

workplace_mutate_path_lem :
    (env : Environment) (mutate : Mutation) (disk : Disk)
    → Outcome env mutate disk (workplace_mutate_path env mutate disk)
unfolding workplace_mutate_path
workplace_mutate_path_lem env mutate disk = elim (Result-cases (prepare mutate disk)) [
  | inr (e, bad) ↦ rw (bad, workplace_mutate_path) (inl (e, refl, inl refl))
  | inl ((own, ws'), fine) ↦
      let (ws, identified, stored, changed) = prepare_lem mutate disk own ws' fine in
      elim (distribute_lem env own ws' disk) [
        | inl failed ↦ rw (fine, workplace_mutate_path) (inl failed)
        | inr (answer, same, result, saved) ↦
            rw (fine, workplace_mutate_path)
              (inr (
                own,
                ws,
                answer,
                identified,
                stored,
                changed ∙ ap ok (sym same),
                result,
                saved ∙ ap (λ (w : Workspace). written w disk) (sym same),
              ))
      ]
]

-- A call either fails and leaves the disk as it was, or fails in writing the workplace, after the
-- write has emptied the file: then nothing else has changed and the workplace can no longer be read.
-- Or it succeeds: then the device is identified, the workplace stored before was readable and gives
-- the device the permission that the call asks for, and the disk differs from the one before only in
-- the workplace file, which holds the workplace of the answer with the time of the call.
pub perform_call_lem :
    (env : Environment) (call : Call) (disk : Disk)
    → let (after, result) = perform_call env call disk in
      ((e : CallError) × (result ≡ err e) × IsFailed disk after e)
      ⊎ ((answer : Answer) × (result ≡ ok answer) × IsPerformed env call disk after answer)
unfolding perform_call
perform_call_lem env call disk = elim (Result-cases (mutation env disk.trust call)) [
  | inr (e, bad) ↦ rw (bad, perform_call) (inl (e, refl, inl refl))
  | inl (mutate, fine) ↦ elim (workplace_mutate_path_lem env mutate disk) [
    | inl failed ↦ rw (fine, perform_call) (inl failed)
    | inr (own, ws, answer, identified, stored, changed, result, saved) ↦
        let made =
          mutation-IsWritten env own ws answer.0 disk.trust call
            (ap (run env own ws answer.0) fine ∙ changed) in
        rw (fine, perform_call)
          (inr (
            answer,
            result,
            record {
              own = own;
              ws = ws;
              identified = identified;
              stored = stored;
              permitted = made.permitted;
              saved = saved;
              touched = made.touched;
            },
          ))
  ]
]
