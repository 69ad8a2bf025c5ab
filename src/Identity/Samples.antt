-- ===== src/Identity/Samples.antt =====
-- The theorems on device ids and the trust list at concrete values.
use capsi.Base.{
  ◌≡◌, refl, true, none, List, [], ◌∷◌, if◌then◌else◌, replicate, any, Text, codes, text_eq, pos,
}
use capsi.Base.Maps.{insert, update}
use capsi.Identity.Device.{DeviceId}
use capsi.Identity.Trust.{empty_store, is_trusted, observe, accept}
use capsi.Identity.Trust.Decisions.{
  Call, observing, accepting, ignoring, perform, state_of, subject, decide, perform-state_of,
  perform_all, accepts, trusted_was_accepted,
}

abbrev some_hex : Text
some_hex = replicate 64 b'A'

abbrev ben_id : DeviceId
ben_id = codes "be"

abbrev met_and_accepted : List Call
met_and_accepted =
    accepting ben_id none ∷ observing ben_id (codes "Ben") (codes "10.0.0.2:1") (pos 5) ∷ []

perform-state_of_example :
    state_of ben_id (perform (ignoring ben_id) (perform_all met_and_accepted empty_store)) ≡ (
      if text_eq (subject (ignoring ben_id)) ben_id
      then decide (ignoring ben_id) (state_of ben_id (perform_all met_and_accepted empty_store))
      else state_of ben_id (perform_all met_and_accepted empty_store))
perform-state_of_example =
    perform-state_of (ignoring ben_id) ben_id (perform_all met_and_accepted empty_store)

trusted_was_accepted_example : any (accepts ben_id) met_and_accepted ≡ true
unfolding is_trusted observe accept insert text_eq update
trusted_was_accepted_example = trusted_was_accepted met_and_accepted ben_id refl
