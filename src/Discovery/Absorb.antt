-- ===== src/Discovery/Absorb.antt =====
-- The decision of crates/capsi-core/src/discovery/service.rs on one datagram.
pub mod Decision
use capsi.Base.{
  ℕ, Bool, false, not, ◌||◌, Option, none, some, List, if◌then◌else◌, text_eq, ℤ, pos, ok, err,
}
use capsi.Base.Maps.{lookup, contains_key}
use capsi.Util.{is_lan_address}
use capsi.Identity.Keys.{Primitives}
use capsi.Identity.Device.{DeviceId}
use capsi.Discovery.Beacon.{Beacon, verify, is_fresh}
use capsi.Discovery.Peers.{SocketAddr, Peer, PeerTable, observe}

-- The tests on a datagram, in their order: the beacon that counts, if any. `parse` reads JSON.
unfoldable pub accepted_beacon :
    Primitives
    → (parse : List ℕ → Option Beacon) (own_id : DeviceId) (now : ℤ)
    → (datagram : List ℕ) (source : SocketAddr) → Option Beacon
unfolding is_lan_address verify is_fresh
accepted_beacon p parse own_id now datagram source =
    if not (is_lan_address source.ip) then none else elim (parse datagram) [
      | none ↦ none
      | some b ↦ elim (verify p b) [
        | err e ↦ none
        | ok _ ↦
            if text_eq b.device_id own_id || not (is_fresh (pos 60) now b) then none else some b
      ]
    ]

-- `absorb_reporting`: the table afterwards, the peer, and whether it is seen for the first time.
unfoldable pub absorb_reporting :
    Primitives
    → (parse : List ℕ → Option Beacon) (own_id : DeviceId) (now : ℤ)
    → (datagram : List ℕ) (source : SocketAddr) → PeerTable
    → PeerTable × Option Peer × Bool
unfolding accepted_beacon observe
absorb_reporting p parse own_id now datagram source table =
    elim (accepted_beacon p parse own_id now datagram source) [
      | none ↦ (table, none, false)
      | some b ↦
          let first_sight = not (contains_key b.device_id table) in
          let (table', _) = observe b source now table in
          (table', lookup b.device_id table', first_sight)
    ]
