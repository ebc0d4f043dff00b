-- ===== src/RateLimiter/Connections.antt =====
-- crates/relay/src/rate_limiter.rs, `ConnectionRateLimiter`: sliding windows of connection
-- attempts. Times are nanoseconds; the time of `Instant::now()` is an argument.
pub mod Window
use g_rpc_relay.Base.{
  ℕ, ◌-◌, ◌*◌, Bool, true, false, none, some, List, [], ◌∷◌, ◌++◌, if◌then◌else◌, leb, length,
  list_eq, ℕ_eq,
}
use g_rpc_relay.Collections.HashMap
use g_rpc_relay.Collections.HashMap.{HashMap}
use g_rpc_relay.Text.{Str}
use g_rpc_relay.RateLimiter.{RateLimitConfig}

abbrev second : ℕ
second = 1_000_000_000

pub record ConnectionRateLimiter : Type 0 where
  pub device_limit : ℕ
  pub device_window : ℕ
  pub global_limit : ℕ
  pub global_window : ℕ
  pub device_windows : HashMap Str (List ℕ)
  pub global_window_data : List ℕ

unfoldable pub new : RateLimitConfig → ConnectionRateLimiter
new config = record {
  device_limit = config.device_connection_per_minute;
  device_window = 60 * second;
  global_limit = config.global_connections_per_second;
  global_window = second;
  device_windows = [];
  global_window_data = [];
}

-- The `while` loop at the head of `prune_and_check`; the front of the deque is the list's head.
unfoldable pub prune : ℕ → ℕ → List ℕ → List ℕ
prune now window_dur [] = []
prune now window_dur (t ∷ window) =
    if leb window_dur (now - t) then prune now window_dur window else t ∷ window

unfoldable pub prune_and_check : List ℕ → ℕ → ℕ → ℕ → List ℕ × Bool
prune_and_check window limit window_dur now =
    let kept = prune now window_dur window in
    if leb limit (length kept) then (kept, false) else (kept ++ now ∷ [], true)

-- The source has the body of `prune_and_check` a second time, for the global window.
unfoldable pub prune_and_check_inner : List ℕ → ℕ → ℕ → ℕ → List ℕ × Bool
prune_and_check_inner window limit window_dur now =
    let kept = prune now window_dur window in
    if leb limit (length kept) then (kept, false) else (kept ++ now ∷ [], true)

-- `entry(..).or_default()`
unfoldable pub window_of : ConnectionRateLimiter → Str → List ℕ
window_of l device_id = elim (HashMap.get device_id l.device_windows) [
  | none ↦ []
  | some window ↦ window
]

unfoldable pub allow_device : ConnectionRateLimiter → Str → ℕ → ConnectionRateLimiter × Bool
unfolding window_of prune_and_check
allow_device l device_id now =
    let (window, allowed) =
      prune_and_check (window_of l device_id) l.device_limit l.device_window now in
    (record l { device_windows = HashMap.insert device_id window l.device_windows }, allowed)

unfoldable pub allow_global : ConnectionRateLimiter → ℕ → ConnectionRateLimiter × Bool
unfolding prune_and_check_inner
allow_global l now =
    let (window, allowed) =
      prune_and_check_inner l.global_window_data l.global_limit l.global_window now in
    (record l { global_window_data = window }, allowed)
