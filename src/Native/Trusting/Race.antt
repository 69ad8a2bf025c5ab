-- ===== src/Native/Trusting/Race.antt =====
-- The discovery thread and the calls of the user share the file of the trust list without a lock.
use capsi.Base.{
  ◌≡◌, refl, ap, ◌∙◌, Bool, true, false, Option, none, some, List, [], ◌∷◌, ◌++◌, arith, all, Text,
  ℤ, Result, ok, err,
}
use capsi.Identity.Trust.{TrustStore}
use capsi.Native.Disk.{Disk, Environment}
use capsi.Native.Trusting.{
  TrustingError, load_store, save_if_dirty, capsi_trust_accept, capsi_trust_ignore, Sighting,
  observe_all,
}

-- The disk, and the list that the discovery thread has loaded and not yet saved.
pub record Shared : Type 0 where
  pub disk : Disk
  pub loaded : Option TrustStore

-- What the two threads do, one after the other: a round of the discovery thread is two steps.
pub data Step : Type 0 where
  loading : Step
  saving : List Sighting → (now : ℤ) (can_save : Bool) → Step
  accepting : Environment → (can_save : Bool) (device_id alias : Option Text) → Step
  ignoring : (can_save : Bool) (device_id : Option Text) → Step

abbrev pub loaded_list : Result TrustingError TrustStore → Option TrustStore
loaded_list (ok s) = some s
loaded_list (err e) = none

unfoldable pub step : Step → Shared → Shared
unfolding load_store observe_all save_if_dirty capsi_trust_accept capsi_trust_ignore
step loading shared = record shared { loaded = loaded_list (load_store shared.disk) }
step (saving peers now can_save) shared = elim shared.loaded [
  | none ↦ shared
  | some s ↦ record {
    disk = (save_if_dirty can_save (observe_all peers now s) shared.disk).0;
    loaded = none;
  }
]
step (accepting env can_save device_id alias) shared = record shared {
  disk = (capsi_trust_accept env can_save device_id alias shared.disk).disk;
}
step (ignoring can_save device_id) shared = record shared {
  disk = (capsi_trust_ignore can_save device_id shared.disk).0;
}

unfoldable pub run : List Step → Shared → Shared
unfolding step
run [] shared = shared
run (s ∷ steps) shared = run steps (step s shared)

abbrev pub is_of_user : Step → Bool
is_of_user loading = false
is_of_user (saving peers now can_save) = false
is_of_user (accepting env can_save device_id alias) = true
is_of_user (ignoring can_save device_id) = true

run-append :
    (steps steps' : List Step) (shared : Shared)
    → run (steps ++ steps') shared ≡ run steps' (run steps shared)
unfolding run
run-append [] steps' shared = refl
run-append (s ∷ steps) steps' shared = run-append steps steps' (step s shared)

loaded-step :
    (s : Step) (shared : Shared) → is_of_user s ≡ true → (step s shared).loaded ≡ shared.loaded
unfolding step
loaded-step loading shared h = absurd (ground arith)
loaded-step (saving peers now can_save) shared h = absurd (ground arith)
loaded-step (accepting env can_save device_id alias) shared h = refl
loaded-step (ignoring can_save device_id) shared h = refl

loaded-run :
    (steps : List Step) (shared : Shared)
    → all is_of_user steps ≡ true
    → (run steps shared).loaded ≡ shared.loaded
unfolding run
loaded-run [] shared h = refl
loaded-run (s ∷ steps) shared h =
    loaded-run steps (step s shared) (ground arith) ∙ loaded-step s shared (ground arith)

-- A store that the discovery thread saves over whatever is there.
saved_over :
    (s : TrustStore) (peers : List Sighting) (now : ℤ) (shared : Shared)
    → shared.loaded ≡ some s
    → (observe_all peers now s).dirty ≡ true
    → (step (saving peers now true) shared).disk.trust
      ≡ some (record (observe_all peers now s) { dirty = false })
unfolding step save_if_dirty
saved_over s peers now shared loaded dirty = rw (loaded, step, dirty) refl

-- If the list can be read, and the sightings change it, then whatever the user accepts and ignores
-- between the loading and the saving of a round of the discovery thread is lost: the file then
-- holds what the sightings make of the list as it was before.
pub decisions_are_lost :
    (decisions : List Step) (peers : List Sighting) (now : ℤ) (s : TrustStore) (shared : Shared)
    → shared.disk.trust ≡ some s
    → all is_of_user decisions ≡ true
    → (observe_all peers now (record s { dirty = false })).dirty ≡ true
    → (run (loading ∷ decisions ++ saving peers now true ∷ []) shared).disk.trust
      ≡ some (record (observe_all peers now (record s { dirty = false })) { dirty = false })
unfolding run load_store
decisions_are_lost decisions peers now s shared there of_user dirty =
    let s' = record s { dirty = false } in
    let loaded = step loading shared in
    let has : loaded.loaded ≡ some s' = unfold step in rw there refl in
    ap (λ t. t.disk.trust) (run-append decisions (saving peers now true ∷ []) loaded)
    ∙ saved_over s' peers now (run decisions loaded) (loaded-run decisions loaded of_user ∙ has)
        dirty
