-- ===== src/Service/Metrics.antt =====
-- crates/relay/src/security_metrics.rs: the five counters. Each is also mirrored to Prometheus.
use g_rpc_relay.Base.{ℕ, ◌+◌, ◌%◌, ◌^◌, list_eq, ℕ_eq}

abbrev u64_mod : ℕ
u64_mod = 2 ^ 64

pub record SecurityMetrics : Type 0 where
  pub auth_success_total : ℕ
  pub auth_failure_total : ℕ
  pub authorization_denied_total : ℕ
  pub rate_limit_total : ℕ
  pub revoked_tokens_total : ℕ

unfoldable pub record_auth_success : SecurityMetrics → SecurityMetrics
record_auth_success m = record m { auth_success_total = (m.auth_success_total + 1) % u64_mod }

unfoldable pub record_auth_failure : SecurityMetrics → SecurityMetrics
record_auth_failure m = record m { auth_failure_total = (m.auth_failure_total + 1) % u64_mod }

unfoldable pub record_authorization_denied : SecurityMetrics → SecurityMetrics
record_authorization_denied m = record m {
  authorization_denied_total = (m.authorization_denied_total + 1) % u64_mod;
}

unfoldable pub record_rate_limit : SecurityMetrics → SecurityMetrics
record_rate_limit m = record m { rate_limit_total = (m.rate_limit_total + 1) % u64_mod }

unfoldable pub record_revoked_token : SecurityMetrics → SecurityMetrics
record_revoked_token m = record m { revoked_tokens_total = (m.revoked_tokens_total + 1) % u64_mod }
