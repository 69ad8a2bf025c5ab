-- ===== src/Discovery/Samples.antt =====
-- The theorems on discovery at concrete datagrams, peers and interfaces.
use capsi.Base.{
  ℕ, ◌+◌, ◌-◌, ◌*◌, ◌^◌, ◌≡◌, refl, true, false, Option, none, some, List, [], ◌∷◌, arith, any, All,
  codes, pos, ok, err,
}
use capsi.Base.Maps.Keys.{IsOrdered}
use capsi.Util.{v4}
use capsi.Identity.Toy.{toy}
use capsi.Identity.Keys.{from_secrets}
use capsi.Discovery.Beacon.{Beacon, create}
use capsi.Discovery.Peers.{SocketAddr, Peer, PeerTable}
use capsi.Discovery.Absorb.{absorb_reporting}
use capsi.Discovery.Absorb.Decision.{IsAbsorbed, absorb_reporting_lem}
use capsi.Discovery.Interfaces.{
  limited_broadcast, directed_broadcast, Ifaddrs, same_target, announce_targets,
}
use capsi.Discovery.Interfaces.Sources.{IsInterfaceBroadcast}
use capsi.Discovery.Interfaces.Targets.{
  IsBroadcast, directed_broadcast_lem, IsWithoutRepeat, IsAnnounced, target, announce_targets_lem,
}

-- 192.168.1.24 in a network of 24 bits.
abbrev home_address : ℕ
home_address = ((192 * 256 + 168) * 256 + 1) * 256 + 24

abbrev home_mask : ℕ
home_mask = 2 ^ 32 - 2 ^ 8

directed_broadcast_lem_example :
    IsBroadcast home_address home_mask (directed_broadcast home_address home_mask)
directed_broadcast_lem_example =
    directed_broadcast_lem home_address home_mask (omega arith) (omega arith)

directed_broadcast_test : directed_broadcast home_address home_mask ≡ some (home_address + 231)
unfolding directed_broadcast
directed_broadcast_test = refl

abbrev home : List Ifaddrs
home =
    record {
      is_up = true;
      is_broadcast = true;
      is_loopback_device = false;
      address = some (record { is_inet = true; address = home_address });
      netmask = some (record { is_inet = true; address = home_mask });
    }
    ∷ []

announce_targets_lem_example :
    let targets = announce_targets (some home) 45893 in
    All (IsAnnounced (some home) 45893) targets
    × IsWithoutRepeat targets
    × (any (same_target (target 45893 limited_broadcast)) targets ≡ true)
    × ((a : ℕ)
        → IsInterfaceBroadcast (some home) a
        → any (same_target (target 45893 a)) targets ≡ true)
announce_targets_lem_example = announce_targets_lem (some home) 45893

abbrev source_address : SocketAddr
source_address = record { ip = v4 192 168 1 9; port = 45893 }

abbrev bens_peer : Peer
bens_peer = record {
  device_id = codes "be";
  name = codes "Ben";
  address = source_address;
  port = 45892;
  fingerprint = [];
  last_seen = pos 100;
}

abbrev one_peer : PeerTable
one_peer = (codes "be", bens_peer) ∷ []

abbrev parse_one : List ℕ → Option Beacon
parse_one datagram =
    elim (create toy (from_secrets toy (1 ∷ []) (5 ∷ [])) (codes "Ben") 45892 (pos 100)) [
      | ok b ↦ some b
      | err e ↦ none
    ]

absorb_reporting_lem_example :
    IsAbsorbed toy parse_one (codes "me") (pos 101) [] source_address one_peer
    × IsOrdered
        ((absorb_reporting toy parse_one (codes "me") (pos 101) [] source_address one_peer).0)
absorb_reporting_lem_example =
    absorb_reporting_lem toy parse_one (codes "me") (pos 101) [] source_address one_peer (tt, tt)
