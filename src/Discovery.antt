-- ===== src/Discovery.antt =====
-- crates/capsi-core/src/discovery: the signed announcements, the peers that are seen by them, and
-- the addresses that they go to.
pub mod Beacon
pub mod Peers
pub mod Absorb
pub mod Interfaces
mod Samples
