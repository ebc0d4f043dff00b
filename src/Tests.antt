-- ===== src/Tests.antt =====
-- The theorems of this library at concrete inputs.
pub mod Data
mod Devices
mod Streams
mod Limits
mod Access
mod Controllers
mod Calls
mod Publisher
mod Sdk
mod Operations
mod Journey
