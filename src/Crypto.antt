-- ===== src/Crypto.antt =====
-- crates/capsi-core/src/crypto: the handshake, the sealed frames and the replay window.
pub mod ReplayWindow
pub mod Handshake
pub mod Session
mod Samples
