-- ===== src/Tests/Limits.antt =====
-- The limiters.
use g_rpc_relay.Base.{ℕ, ◌+◌, ◌-◌, ◌*◌, ◌/◌, ◌≤◌, ◌≡◌, refl, List, [], ◌∷◌, arith, list_eq, ℕ_eq}
use g_rpc_relay.Collections.HashMap
use g_rpc_relay.Text.{str}
use g_rpc_relay.RateLimiter.Requests.{
  Bucket, RateLimiter, Refill, IsRounding, grain, token, full, check_key, maybe_cleanup,
}
use g_rpc_relay.RateLimiter.Requests.Tokens.{admitted, admitted_bound, admitted_slow_rate}
use g_rpc_relay.RateLimiter.Requests.Cleanup.{outcome, check_key-maybe_cleanup}
use g_rpc_relay.RateLimiter.Connections.Window.{decisions, ideal_decisions, decisions-ideal}

-- Six attempts of a device in a minute that admits two, in seconds.
abbrev attempts : List ℕ
attempts = 1 ∷ 2 ∷ 3 ∷ 60 ∷ 61 ∷ 130 ∷ []

abbrev loads : List (ℕ × ℕ)
loads = (999_999_999, 1000) ∷ (1_000_000_000, 600) ∷ (1_000_000_001, 600) ∷ []

abbrev bucket : Bucket
bucket = record { tokens = 0; last = 0 }

-- A refill that is rounded up to a multiple of eight shares.
abbrev rounded_up : Refill
rounded_up tokens elapsed rate = (tokens + elapsed * rate * grain + 7) / 8 * 8

rounded_up-IsRounding : IsRounding rounded_up 600 7
rounded_up-IsRounding = record {
  above = λ tokens elapsed h. omega arith;
  fills = λ tokens elapsed h. omega arith;
}

abbrev limiter : RateLimiter
limiter = record {
  device_rate = 600;
  controller_rate = 60;
  global_rate = 6000;
  buckets = (str "device:dev-1", bucket) ∷ [];
  cleanup_counter = 255;
  bucket_ttl = 300_000_000_000;
  refill = rounded_up;
}

decisions-ideal_example : decisions [] 2 60 attempts ≡ ideal_decisions [] 2 60 attempts
decisions-ideal_example = decisions-ideal 2 60 0 200 attempts (ground arith)

admitted_bound_example :
    ((admitted rounded_up 600 bucket (7_100_000_000 ∷ 7_200_000_000 ∷ [])).0 * token
      ≤ full 600 + (8_000_000_000 - 7_000_000_000) * 600 * grain + 2 * 7)
    × ((admitted rounded_up 600 bucket (7_100_000_000 ∷ 7_200_000_000 ∷ [])).1.tokens ≤ full 600)
admitted_bound_example =
    admitted_bound rounded_up 600 7 rounded_up-IsRounding 7_000_000_000 8_000_000_000
      (7_100_000_000 ∷ 7_200_000_000 ∷ []) bucket (omega arith) (omega arith) (ground arith)

admitted_slow_rate_example : (admitted rounded_up 30 bucket (9_000_000_000_000 ∷ [])).0 ≡ 0
admitted_slow_rate_example =
    admitted_slow_rate rounded_up 30 (9_000_000_000_000 ∷ []) bucket (omega arith) (omega arith)

check_key-maybe_cleanup_example :
    outcome
      (check_key (maybe_cleanup limiter 400_000_000_000) (str "device:dev-1") 600 400_000_000_001)
      (str "device:dev-1")
    ≡ outcome (check_key limiter (str "device:dev-1") 600 400_000_000_001) (str "device:dev-1")
unfolding HashMap.get
check_key-maybe_cleanup_example =
    check_key-maybe_cleanup limiter (str "device:dev-1") 600 7 400_000_000_000 400_000_000_001
      rounded_up-IsRounding (refl, tt) (omega arith) (omega arith) (omega arith)
