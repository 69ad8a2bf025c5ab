-- ===== src/Identity.antt =====
-- crates/capsi-core/src/identity: device ids with their fingerprints, and the trust list.
pub mod Device
pub mod Keys
pub mod Toy
pub mod Trust
mod Samples
