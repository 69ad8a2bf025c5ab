-- ===== src/Discovery/Peers.antt =====
-- The table of the peers of crates/capsi-core/src/discovery/beacon.rs.
pub mod Seen
use capsi.Base.{
  ℕ, Bool, true, false, not, List, [], ◌∷◌, map, if◌then◌else◌, retain, Text, text_lt, ℤ, pos, ◌<ℤ◌,
  ◌-ℤ◌,
}
use capsi.Base.Maps.{TextMap, insert, erase, contains_key, values}
use capsi.Base.Sorting.{sort_by}
use capsi.Util.{IpAddr}
use capsi.Identity.Device
use capsi.Identity.Device.{DeviceId}
use capsi.Discovery.Beacon.{peer_timeout_secs, Beacon}

-- `SocketAddr`.
pub record SocketAddr : Type 0 where
  pub ip : IpAddr
  pub port : ℕ

pub record Peer : Type 0 where
  pub device_id : DeviceId
  pub name : Text
  pub address : SocketAddr
  pub port : ℕ
  pub fingerprint : Text
  pub last_seen : ℤ

-- `Peer::is_stale`.
unfoldable pub is_stale : (now : ℤ) → Peer → Bool
unfolding ◌-ℤ◌
is_stale now peer = pos peer_timeout_secs <ℤ (now -ℤ peer.last_seen)

-- `PeerTable`.
abbrev pub PeerTable : Type 0
PeerTable = TextMap Peer

-- The entry of a beacon.
abbrev pub peer_of : Beacon → (source : SocketAddr) (now : ℤ) → Peer
peer_of b source now = record {
  device_id = b.device_id;
  name = b.name;
  address = source;
  port = b.port;
  fingerprint = Device.fingerprint b.device_id;
  last_seen = now;
}

unfoldable pub observe : Beacon → (source : SocketAddr) (now : ℤ) → PeerTable → PeerTable × Bool
unfolding contains_key
observe b source now table =
    (insert b.device_id (peer_of b source now) table, not (contains_key b.device_id table))

-- The ids of the stale peers, and the table without them.
unfoldable pub stale_ids : (now : ℤ) → PeerTable → List DeviceId
unfolding is_stale
stale_ids now table = map (λ (e : Text × Peer). e.0) (retain (λ e. is_stale now e.1) table)

unfoldable pub erase_all : List DeviceId → PeerTable → PeerTable
erase_all [] table = table
erase_all (id ∷ ids) table = erase_all ids (erase id table)

unfoldable pub prune : (now : ℤ) → PeerTable → PeerTable × List DeviceId
unfolding stale_ids erase_all
prune now table = (erase_all (stale_ids now table) table, stale_ids now table)

-- `online`: the newest sighting first, then by name.
abbrev pub seen_later : Peer → Peer → Bool
seen_later a b =
    if b.last_seen <ℤ a.last_seen
    then true
    else if a.last_seen <ℤ b.last_seen
    then false
    else text_lt a.name b.name

unfoldable pub online : PeerTable → List Peer
unfolding values sort_by
online table = sort_by seen_later (values table)
