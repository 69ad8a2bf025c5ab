-- ===== src/Identity/Trust.antt =====
-- The trust list of crates/capsi-core/src/identity/trust.rs.
pub mod Decisions
use capsi.Base.{
  Bool, true, false, not, ◌||◌, Option, none, some, List, [], ◌∷◌, if◌then◌else◌, retain, Text,
  text_eq, text_lt, trim, is_empty, ℤ, Result, ok, err,
}
use capsi.Base.Maps.{TextMap, lookup, insert, erase, update, contains_key, values}
use capsi.Base.Sorting.{sort_by}
use capsi.Identity.Device.{DeviceId, short, fingerprint}

pub data TrustState : Type 0 where
  pending trusted blocked : TrustState

-- The derived `PartialEq`.
abbrev pub trust_eq : TrustState → TrustState → Bool
trust_eq pending pending = true
trust_eq trusted trusted = true
trust_eq blocked blocked = true
trust_eq _ _ = false

pub record KnownDevice : Type 0 where
  pub device_id : DeviceId
  pub name : Text
  pub alias : Option Text
  pub state : TrustState
  pub fingerprint : Text
  pub first_seen : ℤ
  pub last_seen : ℤ
  pub last_address : Option Text

-- `KnownDevice::display_name`.
unfoldable pub display_name : KnownDevice → Text
display_name d = elim d.alias [ none ↦ d.name | some alias ↦ alias ]

pub record TrustStore : Type 0 where
  pub devices : TextMap KnownDevice
  pub dirty : Bool

pub data TrustError : Type 0 where
  no_nearby_device : (short : Text) → TrustError

-- `TrustStore::default()`.
abbrev pub empty_store : TrustStore
empty_store = record { devices = []; dirty = false }

-- `load`, after the file has been read: the entries by their ids, the last one of an id wins.
unfoldable pub collect : List KnownDevice → TextMap KnownDevice → TextMap KnownDevice
collect [] m = m
collect (d ∷ ds) m = collect ds (insert d.device_id d m)

unfoldable pub store_of_file : List KnownDevice → TrustStore
unfolding collect
store_of_file devices = record { devices = collect devices []; dirty = false }

-- `get`, `is_trusted` and `is_blocked`.
unfoldable pub get : DeviceId → TrustStore → Option KnownDevice
unfolding lookup
get id s = lookup id s.devices

unfoldable pub has_state : TrustState → Option KnownDevice → Bool
has_state state none = false
has_state state (some d) = trust_eq d.state state

unfoldable pub is_trusted : DeviceId → TrustStore → Bool
unfolding get has_state
is_trusted id s = has_state trusted (get id s)

unfoldable pub is_blocked : DeviceId → TrustStore → Bool
unfolding get has_state
is_blocked id s = has_state blocked (get id s)

-- `all`, `trusted` and `pending`, with the case folding of `str::to_lowercase`.
module _ (to_lowercase : Text → Text) where
  unfoldable pub all_devices : TrustStore → List KnownDevice
  unfolding display_name values sort_by
  all_devices s =
      sort_by (λ a b. text_lt (to_lowercase (display_name a)) (to_lowercase (display_name b)))
        (values s.devices)

  unfoldable pub trusted_devices : TrustStore → List KnownDevice
  unfolding all_devices
  trusted_devices s = retain (λ d. trust_eq d.state trusted) (all_devices s)

  unfoldable pub pending_devices : TrustStore → List KnownDevice
  unfolding all_devices
  pending_devices s = retain (λ d. trust_eq d.state pending) (all_devices s)

-- A sighting refreshes a known device.
abbrev pub sighted : (name address : Text) (now : ℤ) → KnownDevice → KnownDevice
sighted name address now d = record d { name = name; last_address = some address; last_seen = now }

-- `d.name != name || d.last_address.as_deref() != Some(address)`.
abbrev pub has_moved : (name address : Text) → KnownDevice → Bool
has_moved name address d =
    not (text_eq d.name name)
    || not (elim d.last_address [ none ↦ false | some a ↦ text_eq a address ])

-- The entry of a device that is seen for the first time.
abbrev pub newcomer : (id name address : Text) (now : ℤ) → KnownDevice
newcomer id name address now = record {
  device_id = id;
  name = name;
  alias = none;
  state = pending;
  fingerprint = fingerprint id;
  first_seen = now;
  last_seen = now;
  last_address = some address;
}

unfoldable pub observe : (id name address : Text) (now : ℤ) → TrustStore → TrustStore × TrustState
observe id name address now s = elim (lookup id s.devices) [
  | none ↦ (
    record { devices = insert id (newcomer id name address now) s.devices; dirty = true },
    pending,
  )
  | some d ↦ (
    record {
      devices = update id (sighted name address now) s.devices;
      dirty = s.dirty || has_moved name address d;
    },
    d.state,
  )
]

-- `alias.filter(|a| !a.trim().is_empty())`.
abbrev pub nonblank : Option Text → Option Text
nonblank none = none
nonblank (some a) = if is_empty (trim a) then none else some a

abbrev pub relabelled : Option Text → KnownDevice → KnownDevice
relabelled none d = d
relabelled (some a) d = record d { alias = some a }

abbrev pub is_given : Option Text → Bool
is_given none = false
is_given (some a) = true

-- What `accept` makes of an entry.
abbrev pub accepted : Option Text → KnownDevice → KnownDevice
accepted alias d = relabelled (nonblank alias) (record d { state = trusted })

unfoldable pub accept :
    (id : DeviceId) (alias : Option Text) → TrustStore → TrustStore × Result TrustError KnownDevice
unfolding short
accept id alias s = elim (lookup id s.devices) [
  | none ↦ (s, err (no_nearby_device (short id)))
  | some d ↦ (
    record {
      devices = update id (accepted alias) s.devices;
      dirty = s.dirty || (not (trust_eq d.state trusted) || is_given (nonblank alias));
    },
    ok (accepted alias d),
  )
]

abbrev pub ignored : KnownDevice → KnownDevice
ignored d = record d { state = blocked }

unfoldable pub ignore : (id : DeviceId) → TrustStore → TrustStore × Result TrustError KnownDevice
unfolding short
ignore id s = elim (lookup id s.devices) [
  | none ↦ (s, err (no_nearby_device (short id)))
  | some d ↦ (
    record {
      devices = update id ignored s.devices;
      dirty = s.dirty || not (trust_eq d.state blocked);
    },
    ok (ignored d),
  )
]

abbrev pub renamed : Option Text → KnownDevice → KnownDevice
renamed alias d = record d { alias = nonblank alias }

unfoldable pub rename :
    (id : DeviceId) (alias : Option Text) → TrustStore → TrustStore × Result TrustError KnownDevice
unfolding short
rename id alias s = elim (lookup id s.devices) [
  | none ↦ (s, err (no_nearby_device (short id)))
  | some d ↦
      (record { devices = update id (renamed alias) s.devices; dirty = true }, ok (renamed alias d))
]

unfoldable pub forget : (id : DeviceId) → TrustStore → TrustStore
forget id s = record { devices = erase id s.devices; dirty = s.dirty || contains_key id s.devices }
