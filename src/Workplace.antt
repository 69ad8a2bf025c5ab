-- ===== src/Workplace.antt =====
-- crates/capsi-core/src/workplace.rs, one module for each part of it.
pub mod State
pub mod Roles
pub mod Workspace
pub mod Consistency
pub mod Sync
pub mod Permissions
pub mod Members
pub mod Groups
pub mod Messages
pub mod Deliveries
pub mod History
mod Samples
