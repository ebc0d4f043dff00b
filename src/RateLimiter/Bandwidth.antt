-- ===== src/RateLimiter/Bandwidth.antt =====
-- crates/relay/src/rate_limiter.rs, `BandwidthTracker`: bytes counted in windows of one second.
-- The time of `now_ns()` is an argument.
pub mod Windows
use g_rpc_relay.Base.{
  ℕ, ◌+◌, ◌-◌, ◌^◌, Bool, false, ◌&&◌, none, some, [], ◌++◌, if◌then◌else◌, leb, ltb, list_eq, ℕ_eq,
}
use g_rpc_relay.Collections.HashMap
use g_rpc_relay.Collections.HashMap.{HashMap}
use g_rpc_relay.Text.{Str, str}
use g_rpc_relay.RateLimiter.{RateLimitConfig}

abbrev pub second : ℕ
second = 1_000_000_000

abbrev pub u64_mod : ℕ
u64_mod = 2 ^ 64

pub record BandwidthTracker : Type 0 where
  pub device_limit : ℕ
  pub controller_limit : ℕ
  pub global_limit : ℕ
  -- (bytes_in_window, window_start_ns)
  pub windows : HashMap Str (ℕ × ℕ)

unfoldable pub new : RateLimitConfig → BandwidthTracker
new config = record {
  device_limit = config.device_bandwidth_bytes_per_sec;
  controller_limit = config.controller_bandwidth_bytes_per_sec;
  global_limit = config.global_bandwidth_bytes_per_sec;
  windows = [];
}

-- What `record_key` does to one window: the rotation, then `checked_add` and the test.
unfoldable pub rotate : ℕ × ℕ → ℕ → ℕ × ℕ
rotate (total, start) now = if leb second (now - start) then (0, now) else (total, start)

unfoldable pub count_bytes : ℕ × ℕ → ℕ → ℕ → (ℕ × ℕ) × Bool
count_bytes (total, start) bytes limit =
    if ltb (total + bytes) u64_mod
    then ((total + bytes, start), leb (total + bytes) limit)
    else ((total, start), false)

unfoldable pub record_window : ℕ × ℕ → ℕ → ℕ → ℕ → (ℕ × ℕ) × Bool
unfolding rotate count_bytes
record_window window now bytes limit = count_bytes (rotate window now) bytes limit

unfoldable pub record_key : BandwidthTracker → Str → ℕ → ℕ → ℕ → BandwidthTracker × Bool
unfolding record_window
record_key b key now bytes limit =
    let (window, within) =
      record_window (elim (HashMap.get key b.windows) [ none ↦ (0, now) | some window ↦ window ])
        now bytes limit in
    (record b { windows = HashMap.insert key window b.windows }, within)

-- Each of the three calls of `record_key` reads the clock.
unfoldable pub record_and_check :
    BandwidthTracker → Str → Str → ℕ → ℕ → ℕ → ℕ → BandwidthTracker × Bool
unfolding record_key
record_and_check b device_id controller_id bytes now now' now'' =
    let (b1, global_ok) = record_key b (str "global") now bytes b.global_limit in
    let (b2, device_ok) = record_key b1 (str "device:" ++ device_id) now' bytes b1.device_limit in
    let (b3, controller_ok) =
      record_key b2 (str "controller:" ++ controller_id) now'' bytes b2.controller_limit in
    (b3, global_ok && device_ok && controller_ok)
