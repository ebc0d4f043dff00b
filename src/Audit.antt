-- ===== src/Audit.antt =====
-- crates/relay/src/audit.rs: the log of what clients did, and the files that keep it.
pub mod Files
pub mod Rotation
pub mod Expiry
pub mod Archive
pub mod Failure
pub mod Event
pub mod Logger
pub mod Calls
pub mod Journal
