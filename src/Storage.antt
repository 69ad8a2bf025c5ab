-- ===== src/Storage.antt =====
-- crates/capsi-core/src/storage: what a device keeps of its conversations.
pub mod Conversation
pub mod Store
