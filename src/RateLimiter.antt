-- ===== src/RateLimiter.antt =====
-- crates/relay/src/rate_limiter.rs: its three limiters, each in a module, and their configuration
-- (crates/relay/src/config.rs, `RateLimitConfig`).
pub mod Requests
pub mod Connections
pub mod Bandwidth
use g_rpc_relay.Base.{ℕ, list_eq, ℕ_eq}

pub record RateLimitConfig : Type 0 where
  pub device_requests_per_second : ℕ
  pub controller_requests_per_minute : ℕ
  pub global_requests_per_second : ℕ
  pub device_connection_per_minute : ℕ
  pub global_connections_per_second : ℕ
  pub device_bandwidth_bytes_per_sec : ℕ
  pub controller_bandwidth_bytes_per_sec : ℕ
  pub global_bandwidth_bytes_per_sec : ℕ
