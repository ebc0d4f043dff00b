-- ===== src/DeviceSdk/Backoff.antt =====
-- crates/device-sdk/src/backoff.rs, `RetryBackoff`. There are no floating-point numbers here: the
-- product with the jitter and its rounding are an operation that a caller supplies.
use g_rpc_relay.Base.{ℕ, ◌+◌, ◌*◌, ◌%◌, ◌^◌, ◌≤◌, min, max, arith}

abbrev u64_max : ℕ
u64_max = 18_446_744_073_709_551_615

pub record RetryBackoff : Type 0 where
  pub initial_seconds : ℕ
  pub max_seconds : ℕ

unfoldable pub new : ℕ → ℕ → RetryBackoff
new initial_seconds max_seconds =
    let initial = max initial_seconds 1 in
    record { initial_seconds = initial; max_seconds = max max_seconds initial }

-- The delay of an attempt before the jitter.
unfoldable pub capped : RetryBackoff → ℕ → ℕ
capped b attempt =
    min (min u64_max (b.initial_seconds * min u64_max (2 ^ min attempt 30))) b.max_seconds

-- The thousandths by which the jitter is more than one half.
unfoldable pub thousandths : ℕ → ℕ
thousandths attempt =
    ((attempt * 6_364_136_223_846_793_005 % 2 ^ 64 + 1_442_695_040_888_963_407) % 2 ^ 64) % 1000

-- `jittered c h` is `(c as f64 * (0.5 + h as f64 / 1000.0)).round()`.
module _ (jittered : ℕ → ℕ → ℕ) where
  -- `clamp(1.0, max)`
  unfoldable pub next_sleep_seconds : RetryBackoff → ℕ → ℕ
  unfolding capped thousandths
  next_sleep_seconds b attempt =
      max 1 (min b.max_seconds (jittered (capped b attempt) (thousandths attempt)))

  -- Every delay of a back-off that `new` made lies between one second and the longest delay, which
  -- is no shorter than the first.
  pub next_sleep_seconds_bounds :
      (initial longest attempt : ℕ)
      → (1 ≤ next_sleep_seconds (new initial longest) attempt)
        × (next_sleep_seconds (new initial longest) attempt ≤ max longest (max initial 1))
  unfolding next_sleep_seconds new
  next_sleep_seconds_bounds initial longest attempt = omega arith
