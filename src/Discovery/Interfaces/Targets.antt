-- ===== src/Discovery/Interfaces/Targets.antt =====
-- The bits of a directed broadcast address, and what stands among the targets.

use native.Mathlib.Nat.{pow-suc}
use capsi.Base.{
  ℕ, zero, suc, ◌-◌, ◌/◌, ◌^◌, ◌<◌, ◌≡◌, refl, ◌⊎◌, inl, inr, Bool, true, false, ◌||◌, Option, none,
  some, List, [], ◌∷◌, ◌++◌, arith, leb, ◌==◌, if◌then◌else◌, Bool-cases, any, All, any-append,
  All-append, In_All, All-of_In,
}
use capsi.Base.Bits.{testbit, testbit-le_one, testbit-bit_or, bit_or-lt, testbit-cases}
use capsi.Discovery.Interfaces.{
  limited_broadcast, is_loopback, is_unspecified, count_ones, complement, directed_broadcast,
  Ifaddrs, local_broadcasts, SocketAddrV4, same_target, push_new, targets_for, announce_targets,
}
use capsi.Discovery.Interfaces.Sources.{
  IsInterfaceBroadcast, local_broadcasts_sound, local_broadcasts_complete,
}

testbit-complement : (w x b : ℕ) → x < 2 ^ w → b < w → testbit (2 ^ w - 1 - x) b ≡ 1 - testbit x b
testbit-complement zero x b h k = absurd (omega arith)
testbit-complement (suc w) x zero h k = omega (arith, pow-suc 2 w)
testbit-complement (suc w) x (suc b) h k =
    let half : (2 ^ suc w - 1 - x) / 2 ≡ 2 ^ w - 1 - x / 2 = omega (arith, pow-suc 2 w) in
    rw half (testbit-complement w (x / 2) b (omega (arith, pow-suc 2 w)) (omega arith))

-- Whether an interface has no directed broadcast address.
abbrev pub is_without : (address netmask : ℕ) → Bool
is_without address netmask =
    is_loopback address || is_unspecified address || leb 31 (count_ones 32 netmask)

-- What a directed broadcast address has to be.
abbrev pub IsBroadcast : (address netmask : ℕ) → Option ℕ → Type 0
IsBroadcast address netmask none = is_without address netmask ≡ true
IsBroadcast address netmask (some broadcast) =
    (is_without address netmask ≡ false)
    × (broadcast < 2 ^ 32)
    × ((i : ℕ)
        → i < 32
        → testbit broadcast i ≡ (if testbit netmask i == 1 then testbit address i else 1))

-- The address that stands for the hosts of a network has the bits of the interface's address where
-- the mask has ones and ones everywhere else. There is none exactly for a loopback or unspecified
-- address and for a mask with 31 ones or more.
pub directed_broadcast_lem :
    (address netmask : ℕ)
    → address < 2 ^ 32
    → netmask < 2 ^ 32
    → IsBroadcast address netmask (directed_broadcast address netmask)
unfolding directed_broadcast
directed_broadcast_lem address netmask ha hn =
    elim (Bool-cases (is_loopback address || is_unspecified address)) [
      | inl special ↦ rw special (ground arith)
      | inr usual ↦ elim (Bool-cases (leb 31 (count_ones 32 netmask))) [
        | inl narrow ↦ rw (usual, narrow) (ground arith)
        | inr wide ↦
            rw (usual, wide)
              (
                ground arith,
                bit_or-lt 32 address (complement netmask) ha (omega arith),
                λ i lt.
                    rw
                      (
                        testbit-bit_or address (complement netmask) i,
                        testbit-complement 32 netmask i hn lt,
                      )
                      (ground (
                        arith,
                        testbit-cases netmask i,
                        testbit-le_one address i,
                        testbit-le_one netmask i,
                      )),
              )
      ]
    ]

-- No target stands twice.
abbrev pub IsWithoutRepeat : List SocketAddrV4 → Type 0
IsWithoutRepeat [] = Unit
IsWithoutRepeat (t ∷ targets) = (any (same_target t) targets ≡ false) × IsWithoutRepeat targets

-- Each target has the port, and is the broadcast address of an interface or the limited one.
abbrev pub IsAnnounced : Option (List Ifaddrs) → (port : ℕ) → SocketAddrV4 → Type 0
IsAnnounced interfaces port t =
    (t.port ≡ port) × ((t.ip ≡ limited_broadcast) ⊎ IsInterfaceBroadcast interfaces t.ip)

IsWithoutRepeat-snoc :
    (targets : List SocketAddrV4) (t : SocketAddrV4)
    → any (same_target t) targets ≡ false
    → IsWithoutRepeat targets
    → IsWithoutRepeat (targets ++ t ∷ [])
IsWithoutRepeat-snoc [] t h alone = (refl, tt)
IsWithoutRepeat-snoc (s ∷ targets) t h (hs, alone) = (
  ground (arith, any-append (same_target s) targets (t ∷ [])),
  IsWithoutRepeat-snoc targets t (ground arith) alone,
)

-- A target at an address.
abbrev pub target : (port address : ℕ) → SocketAddrV4
target port address = record { ip = address; port = port }

any-push_new :
    (p : SocketAddrV4 → Bool) (t : SocketAddrV4) (targets : List SocketAddrV4)
    → any p targets ≡ true
    → any p (push_new t targets) ≡ true
any-push_new p t targets h = ground (arith, any-append p targets (t ∷ []))

any-targets_for :
    (p : SocketAddrV4 → Bool) (port : ℕ) (found : List ℕ) (targets : List SocketAddrV4)
    → any p targets ≡ true
    → any p (targets_for port found targets) ≡ true
unfolding targets_for
any-targets_for p port [] targets h = h
any-targets_for p port (a ∷ found) targets h =
    any-targets_for p port found (push_new (target port a) targets)
      (any-push_new p (target port a) targets h)

push_new_self :
    (t : SocketAddrV4) (targets : List SocketAddrV4)
    → any (same_target t) (push_new t targets) ≡ true
push_new_self t targets = ground (arith, any-append (same_target t) targets (t ∷ []))

-- Every address that was found is a target.
all_present :
    (port : ℕ) (found : List ℕ) (targets : List SocketAddrV4)
    → All
        (λ (a : ℕ). any (same_target (target port a)) (targets_for port found targets) ≡ true)
        found
unfolding targets_for
all_present port [] targets = tt
all_present port (a ∷ found) targets = (
  any-targets_for (same_target (target port a)) port found (push_new (target port a) targets)
      (push_new_self (target port a) targets),
  all_present port found (push_new (target port a) targets),
)

module _ (P : SocketAddrV4 → Type 0) where
  push_new_lem :
      (t : SocketAddrV4) (targets : List SocketAddrV4)
      → P t
      → All P targets × IsWithoutRepeat targets
      → All P (push_new t targets) × IsWithoutRepeat (push_new t targets)
  push_new_lem t targets ht (hs, alone) = elim (Bool-cases (any (same_target t) targets)) [
    | inl known ↦ rw known (hs, alone)
    | inr fresh ↦
        rw fresh
          (All-append P targets (t ∷ []) hs (ht, tt), IsWithoutRepeat-snoc targets t fresh alone)
  ]

  targets_for_lem :
      (port : ℕ) (found : List ℕ) (targets : List SocketAddrV4)
      → All (λ (a : ℕ). P (target port a)) found
      → All P targets × IsWithoutRepeat targets
      → All P (targets_for port found targets) × IsWithoutRepeat (targets_for port found targets)
  unfolding targets_for
  targets_for_lem port [] targets _ h = h
  targets_for_lem port (a ∷ found) targets (ha, hs) h =
      targets_for_lem port found (push_new (target port a) targets) hs
        (push_new_lem (target port a) targets ha h)

-- The targets of an announcement: each has the port and is the limited broadcast address or the
-- directed one of an interface that is up, can broadcast, is no loopback device and has an IPv4
-- address and a mask; none stands twice; and the limited one and that of every such interface are
-- among them.
pub announce_targets_lem :
    (interfaces : Option (List Ifaddrs)) (port : ℕ)
    → let targets = announce_targets interfaces port in
      All (IsAnnounced interfaces port) targets
      × IsWithoutRepeat targets
      × (any (same_target (target port limited_broadcast)) targets ≡ true)
      × ((a : ℕ)
          → IsInterfaceBroadcast interfaces a
          → any (same_target (target port a)) targets ≡ true)
unfolding announce_targets
announce_targets_lem interfaces port =
    let found = local_broadcasts interfaces in
    let limited = target port limited_broadcast in
    let sound : All (λ (a : ℕ). IsAnnounced interfaces port (target port a)) found =
      All-of_In (λ (a : ℕ). IsAnnounced interfaces port (target port a)) found
        (λ a h. (refl, inr (local_broadcasts_sound a interfaces h))) in
    let (announced, alone) =
      push_new_lem (IsAnnounced interfaces port) limited (targets_for port found [])
        (refl, inl refl)
        (targets_for_lem (IsAnnounced interfaces port) port found [] sound (tt, tt)) in
    (
      announced,
      alone,
      push_new_self limited (targets_for port found []),
      λ a h. any-push_new (same_target (target port a)) limited (targets_for port found []) (
          In_All a (λ (b : ℕ). any (same_target (target port b)) (targets_for port found []) ≡ true)
            found (all_present port found []) (local_broadcasts_complete a interfaces h)),
    )
