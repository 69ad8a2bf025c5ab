-- ===== src/Native.antt =====
-- flutter/native/src/lib.rs: the calls of the client on the workplace that is stored on the device.
pub mod Messaging
pub mod Disk
pub mod Outbox
pub mod Calls
pub mod Deletion
pub mod Founding
pub mod Inbox
pub mod Trusting
pub mod Transfer
pub mod Sending
mod Samples
