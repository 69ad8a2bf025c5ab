-- ===== src/Identity/Trust/Decisions.antt =====
-- The trust list as one small state machine for each device.
use capsi.Base.{
  ◌≡◌, refl, inl, inr, Bool, true, false, Option, none, some, List, [], ◌∷◌, arith, if◌then◌else◌,
  Bool-cases, Option-cases, any, Text, text_eq, text_eq_iff, ℤ, pos,
}
use capsi.Base.Maps.{lookup, contains_key, lookup-insert, lookup-erase, lookup-update}
use capsi.Identity.Device.{DeviceId}
use capsi.Identity.Trust.{
  TrustState, pending, trusted, blocked, trust_eq, KnownDevice, TrustStore, empty_store, get,
  has_state, is_trusted, sighted, newcomer, observe, accepted, accept, ignored, ignore, renamed,
  rename, forget,
}

-- What the user or the network does to the list.
pub data Call : Type 0 where
  observing : (id name address : Text) (now : ℤ) → Call
  accepting : (id : DeviceId) (alias : Option Text) → Call
  ignoring : (id : DeviceId) → Call
  renaming : (id : DeviceId) (alias : Option Text) → Call
  forgetting : (id : DeviceId) → Call

abbrev pub perform : Call → TrustStore → TrustStore
perform (observing id name address now) s = (observe id name address now s).0
perform (accepting id alias) s = (accept id alias s).0
perform (ignoring id) s = (ignore id s).0
perform (renaming id alias) s = (rename id alias s).0
perform (forgetting id) s = forget id s

-- The state of one device, if it is known.
abbrev pub state_of : DeviceId → TrustStore → Option TrustState
state_of id s = elim (get id s) [ none ↦ none | some d ↦ some d.state ]

-- The device that a call is about.
abbrev pub subject : Call → DeviceId
subject (observing id _ _ _) = id
subject (accepting id _) = id
subject (ignoring id) = id
subject (renaming id _) = id
subject (forgetting id) = id

abbrev pub if_known : Option TrustState → TrustState → Option TrustState
if_known none state = none
if_known (some _) state = some state

-- The machine: what a call makes of the state of its own device.
abbrev pub decide : Call → Option TrustState → Option TrustState
decide (observing _ _ _ _) none = some pending
decide (observing _ _ _ _) (some state) = some state
decide (accepting _ _) old = if_known old trusted
decide (ignoring _) old = if_known old blocked
decide (renaming _ _) old = old
decide (forgetting _) old = none

-- Every call moves its own device as the machine says, and no other device: a sighting never
-- changes a decision, and only `accept` makes a device trusted.
pub perform-state_of :
    (call : Call) (j : DeviceId) (s : TrustStore)
    → state_of j (perform call s)
      ≡ (if text_eq (subject call) j then decide call (state_of j s) else state_of j s)
unfolding get observe accept ignore rename forget
perform-state_of (observing id name address now) j s = ground (
  arith,
  text_eq_iff id j,
  lookup-insert j id (newcomer id name address now) s.devices,
  lookup-update j id (sighted name address now) s.devices,
)
perform-state_of (accepting id alias) j s =
    ground (arith, text_eq_iff id j, lookup-update j id (accepted alias) s.devices)
perform-state_of (ignoring id) j s =
    ground (arith, text_eq_iff id j, lookup-update j id ignored s.devices)
perform-state_of (renaming id alias) j s =
    ground (arith, text_eq_iff id j, lookup-update j id (renamed alias) s.devices)
perform-state_of (forgetting id) j s = ground (arith, text_eq_iff id j, lookup-erase j id s.devices)

-- The list after a sequence of calls, the newest call first.
abbrev pub perform_all : List Call → TrustStore → TrustStore
perform_all [] s = s
perform_all (call ∷ calls) s = perform call (perform_all calls s)

abbrev pub accepts : DeviceId → Call → Bool
accepts j (accepting id alias) = text_eq id j
accepts j _ = false

trusted_step :
    (call : Call) (j : DeviceId) (s : TrustStore)
    → accepts j call ≡ false
    → state_of j (perform call s) ≡ some trusted
    → state_of j s ≡ some trusted
trusted_step (observing id name address now) j s h e =
    ground (arith, perform-state_of (observing id name address now) j s)
trusted_step (accepting id alias) j s h e =
    ground (arith, perform-state_of (accepting id alias) j s)
trusted_step (ignoring id) j s h e = ground (arith, perform-state_of (ignoring id) j s)
trusted_step (renaming id alias) j s h e = ground (arith, perform-state_of (renaming id alias) j s)
trusted_step (forgetting id) j s h e = ground (arith, perform-state_of (forgetting id) j s)

accepted_once :
    (calls : List Call) (j : DeviceId)
    → state_of j (perform_all calls empty_store) ≡ some trusted
    → any (accepts j) calls ≡ true
unfolding get
accepted_once [] j h = absurd (ground arith)
accepted_once (call ∷ calls) j h = elim (Bool-cases (accepts j call)) [
  | inl e ↦ rw e
  | inr e ↦ rw e (accepted_once calls j (trusted_step call j (perform_all calls empty_store) e h))
]

is_trusted→state_of :
    (j : DeviceId) (s : TrustStore) → is_trusted j s ≡ true → state_of j s ≡ some trusted
unfolding is_trusted has_state
is_trusted→state_of j s h = ground arith

-- On a list that began empty, a device is trusted only if the user has accepted this very device:
-- no sighting, name or order of calls does it.
pub trusted_was_accepted :
    (calls : List Call) (j : DeviceId)
    → is_trusted j (perform_all calls empty_store) ≡ true
    → any (accepts j) calls ≡ true
trusted_was_accepted calls j h =
    accepted_once calls j (is_trusted→state_of j (perform_all calls empty_store) h)

-- An entry without the time of its last sighting.
abbrev pub timeless : Option KnownDevice → Option KnownDevice
timeless none = none
timeless (some d) = some (record d { last_seen = pos 0 })

trusted_eq : (state : TrustState) → trust_eq state trusted ≡ true → state ≡ trusted
trusted_eq pending h = absurd (ground arith)
trusted_eq trusted h = refl
trusted_eq blocked h = absurd (ground arith)

blocked_eq : (state : TrustState) → trust_eq state blocked ≡ true → state ≡ blocked
blocked_eq pending h = absurd (ground arith)
blocked_eq trusted h = absurd (ground arith)
blocked_eq blocked h = refl

-- A call after which the list does not ask to be saved has left every entry as it was, up to the
-- time of its last sighting.
pub clean_unchanged :
    (call : Call) (s : TrustStore)
    → (perform call s).dirty ≡ false
    → (j : DeviceId) → timeless (get j (perform call s)) ≡ timeless (get j s)
unfolding get observe accept ignore rename forget contains_key
clean_unchanged (observing id name address now) s h j = elim (Option-cases (lookup id s.devices)) [
  | inl unknown ↦ absurd (ground arith)
  | inr (d, e) ↦ elim (Option-cases d.last_address) [
    | inl nowhere ↦ absurd (ground arith)
    | inr (a, there) ↦ ground (
      arith,
      text_eq_iff id j,
      text_eq_iff d.name name,
      text_eq_iff a address,
      lookup-update j id (sighted name address now) s.devices,
    )
  ]
]
clean_unchanged (accepting id alias) s h j = elim (Option-cases (lookup id s.devices)) [
  | inl unknown ↦ ground arith
  | inr (d, e) ↦
      ground
        (arith, text_eq_iff id j, trusted_eq d.state, lookup-update j id (accepted alias) s.devices)
]
clean_unchanged (ignoring id) s h j = elim (Option-cases (lookup id s.devices)) [
  | inl unknown ↦ ground arith
  | inr (d, e) ↦
      ground (arith, text_eq_iff id j, blocked_eq d.state, lookup-update j id ignored s.devices)
]
clean_unchanged (renaming id alias) s h j = ground arith
clean_unchanged (forgetting id) s h j =
    ground (arith, text_eq_iff id j, lookup-erase j id s.devices)
