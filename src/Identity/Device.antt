-- ===== src/Identity/Device.antt =====
-- Device ids of crates/capsi-core/src/identity/device.rs, and the keys behind them.
pub mod Fingerprints
use capsi.Base.{
  ℕ, zero, suc, not, ◌||◌, List, [], ◌∷◌, ◌++◌, ltb, ◌==◌, if◌then◌else◌, length, take, drop, all,
  Text, to_ascii_uppercase, to_ascii_lowercase, is_ascii_hexdigit, utf8_len, Result, ok, err,
}

-- `DeviceId` is a string behind a private field: an id that was decoded from JSON is any text.
abbrev pub DeviceId : Type 0
DeviceId = Text

pub data IdentityError : Type 0 where
  bad_device_id : Text → IdentityError

-- `DeviceId::from_hex`.
unfoldable pub from_hex : Text → Result IdentityError DeviceId
unfolding to_ascii_lowercase utf8_len
from_hex hex =
    if not (utf8_len hex == 64) || not (all is_ascii_hexdigit hex)
    then err (bad_device_id hex)
    else ok (to_ascii_lowercase hex)

-- `DeviceId::short`.
unfoldable pub short : DeviceId → Text
short id = take 8 id

-- The loop of `Fingerprint::from_hex`, on texts of ASCII: at most so many groups of four.
unfoldable pub groups_of_four : (left : ℕ) → Text → List Text
groups_of_four zero s = []
groups_of_four (suc left) s =
    let rest = groups_of_four left (drop 4 s) in if ltb 3 (length s) then take 4 s ∷ rest else []

-- `join(" ")`.
unfoldable pub join_groups : List Text → Text
join_groups [] = []
join_groups (g ∷ []) = g
join_groups (g ∷ h ∷ gs) = g ++ (b' ' ∷ join_groups (h ∷ gs))

-- `Fingerprint::from_hex`, which is also `DeviceId::fingerprint`.
unfoldable pub fingerprint : DeviceId → Text
unfolding to_ascii_uppercase groups_of_four join_groups
fingerprint id = join_groups (groups_of_four 4 (to_ascii_uppercase id))
