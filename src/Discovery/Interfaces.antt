-- ===== src/Discovery/Interfaces.antt =====
-- The targets of an announcement: crates/capsi-core/src/discovery/interfaces.rs.
pub mod Sources
pub mod Targets
use Prim.Native.Nat.{bit_or}
use capsi.Base.{
  ℕ, zero, suc, ◌+◌, ◌-◌, ◌/◌, ◌%◌, ◌^◌, Bool, not, ◌&&◌, ◌||◌, Option, none, some, List, [], ◌∷◌,
  ◌++◌, leb, ◌==◌, if◌then◌else◌, any,
}

-- An `Ipv4Addr` is its 32 bits; the limited broadcast address is all ones.
abbrev pub limited_broadcast : ℕ
limited_broadcast = 2 ^ 32 - 1

abbrev pub is_loopback : ℕ → Bool
is_loopback address = address / 2 ^ 24 == 127

abbrev pub is_unspecified : ℕ → Bool
is_unspecified address = address == 0

-- The ones among the lowest bits, so many of them: `u32::count_ones` for 32.
unfoldable pub count_ones : (bits : ℕ) → ℕ → ℕ
count_ones zero x = 0
count_ones (suc bits) x = x % 2 + count_ones bits (x / 2)

-- `!mask` on `u32`.
abbrev pub complement : ℕ → ℕ
complement mask = 2 ^ 32 - 1 - mask

unfoldable pub directed_broadcast : (address netmask : ℕ) → Option ℕ
unfolding count_ones
directed_broadcast address netmask =
    if is_loopback address || is_unspecified address
    then none
    else if leb 31 (count_ones 32 netmask)
    then none
    else some (bit_or address (complement netmask))

-- A `sockaddr`: of the family `AF_INET` or not, and the bits where `sockaddr_in` has its address,
-- in the order of the host.
pub record Sockaddr : Type 0 where
  pub is_inet : Bool
  pub address : ℕ

-- An entry of `getifaddrs`, with the three flags that are read; a null pointer is `none`.
pub record Ifaddrs : Type 0 where
  pub is_up : Bool
  pub is_broadcast : Bool
  pub is_loopback_device : Bool
  pub address : Option Sockaddr
  pub netmask : Option Sockaddr

-- `interface_broadcast` on its two pointers.
abbrev pub broadcast_of : (address netmask : Option Sockaddr) → Option ℕ
broadcast_of none _ = none
broadcast_of (some address) none = none
broadcast_of (some address) (some netmask) =
    if address.is_inet then directed_broadcast address.address netmask.address else none

unfoldable pub interface_broadcast : Ifaddrs → Option ℕ
unfolding directed_broadcast
interface_broadcast entry =
    if entry.is_up && entry.is_broadcast && not entry.is_loopback_device
    then broadcast_of entry.address entry.netmask
    else none

abbrev pub found_with : Option ℕ → List ℕ → List ℕ
found_with none found = found
found_with (some broadcast) found = broadcast ∷ found

abbrev pub broadcasts : List Ifaddrs → List ℕ
broadcasts [] = []
broadcasts (entry ∷ entries) = found_with (interface_broadcast entry) (broadcasts entries)

-- `local_broadcasts` on Unix, on the answer of `getifaddrs`.
unfoldable pub local_broadcasts : Option (List Ifaddrs) → List ℕ
unfolding interface_broadcast
local_broadcasts none = []
local_broadcasts (some entries) = broadcasts entries

-- `SocketAddrV4`.
pub record SocketAddrV4 : Type 0 where
  pub ip : ℕ
  pub port : ℕ

abbrev pub same_target : SocketAddrV4 → SocketAddrV4 → Bool
same_target s t = s.ip == t.ip && s.port == t.port

-- `if !targets.contains(&target) { targets.push(target) }`.
abbrev pub push_new : SocketAddrV4 → List SocketAddrV4 → List SocketAddrV4
push_new target targets =
    if any (same_target target) targets then targets else targets ++ target ∷ []

unfoldable pub targets_for : (port : ℕ) → List ℕ → List SocketAddrV4 → List SocketAddrV4
targets_for port [] targets = targets
targets_for port (address ∷ found) targets =
    targets_for port found (push_new (record { ip = address; port = port }) targets)

-- `announce_targets`, on the answer of `getifaddrs`.
unfoldable pub announce_targets : Option (List Ifaddrs) → (port : ℕ) → List SocketAddrV4
unfolding local_broadcasts targets_for
announce_targets interfaces port =
    push_new (record { ip = limited_broadcast; port = port })
      (targets_for port (local_broadcasts interfaces) [])
