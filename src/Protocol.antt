-- ===== src/Protocol.antt =====
-- crates/capsi-core/src/protocol: the messages and their framing on a connection.
pub mod Message
pub mod Framing
