-- ===== src/RateLimiter/Requests.antt =====
-- crates/relay/src/rate_limiter.rs, `RateLimiter`: token buckets. The time of `Instant::now()` is
-- an argument, in nanoseconds. The source computes in `f64`. A rate is the number of requests for a
-- minute, and tokens are counted in shares of a token, so fine that the `f64` numbers that occur
-- and the exact products are whole: a rate of r per minute fills r grains for each nanosecond. Of
-- the operations of `check_key`, the comparisons, the minimum and the subtraction of 1.0 from a
-- number between 1.0 and 2^53 are exact; the refill is not, and is a parameter. The division by
-- 60 in `new` is not rounded here.
pub mod Tokens
pub mod Cleanup
use g_rpc_relay.Base.{
  ℕ, ◌+◌, ◌-◌, ◌*◌, ◌%◌, ◌^◌, ◌≤◌, min, Bool, true, false, not, none, some, List, [], ◌∷◌, ◌++◌,
  if◌then◌else◌, leb, ltb, eqb, length, list_eq, ℕ_eq,
}
use g_rpc_relay.Collections.HashMap
use g_rpc_relay.Collections.HashMap.{HashMap}
use g_rpc_relay.Text.{Str, str}
use g_rpc_relay.RateLimiter.{RateLimitConfig}

abbrev pub second : ℕ
second = 1_000_000_000

abbrev pub grain : ℕ
grain = 2 ^ 100

-- The shares of one token.
abbrev pub token : ℕ
token = 60 * second * grain

-- `b.tokens + elapsed * rate` as `f64` gives it, from the tokens, the nanoseconds and the rate: the
-- seconds, the product and the sum are rounded.
abbrev pub Refill : Type 0
Refill = ℕ → ℕ → ℕ → ℕ

abbrev pub u64_mod : ℕ
u64_mod = 2 ^ 64

pub record Bucket : Type 0 where
  pub tokens : ℕ
  pub last : ℕ

pub record RateLimiter : Type 0 where
  pub device_rate : ℕ
  pub controller_rate : ℕ
  pub global_rate : ℕ
  pub buckets : HashMap Str Bucket
  pub cleanup_counter : ℕ
  pub bucket_ttl : ℕ
  pub refill : Refill

unfoldable pub new : Refill → RateLimitConfig → RateLimiter
new refill config = record {
  device_rate = config.device_requests_per_second * 60;
  controller_rate = config.controller_requests_per_minute;
  global_rate = config.global_requests_per_second * 60;
  buckets = [];
  cleanup_counter = 0;
  bucket_ttl = 300 * second;
  refill = refill;
}

-- What a full bucket of a rate holds: the tokens of one second.
abbrev pub full : ℕ → ℕ
full rate = rate * second * grain

-- The two arms of the match of `check_key`.
unfoldable pub spend : Refill → ℕ → ℕ → Bucket → Bucket × Bool
spend refill rate now b =
    if leb token filled.tokens
    then (record filled { tokens = filled.tokens - token }, true)
    else (filled, false)
  where
    filled : Bucket
    filled =
        if ltb 0 (now - b.last)
        then record { tokens = min (full rate) (refill b.tokens (now - b.last) rate); last = now }
        else b

unfoldable pub first_bucket : ℕ → ℕ → Bucket
first_bucket rate now = record { tokens = full rate - token; last = now }

unfoldable pub check_key : RateLimiter → Str → ℕ → ℕ → RateLimiter × Bool
unfolding spend first_bucket
check_key l key rate now = if eqb rate 0 then (l, false) else elim (HashMap.get key l.buckets) [
  | some b ↦
      let (b', allowed) = spend l.refill rate now b in
      (record l { buckets = HashMap.insert key b' l.buckets }, allowed)
  | none ↦ (record l { buckets = HashMap.insert key (first_bucket rate now) l.buckets }, true)
]

-- The keys that `maybe_cleanup` collects, and their removal.
unfoldable pub is_stale : ℕ → ℕ → Bucket → Bool
is_stale ttl now b = leb ttl (now - b.last)

unfoldable pub stale_keys : ℕ → ℕ → HashMap Str Bucket → List Str
unfolding is_stale
stale_keys ttl now [] = []
stale_keys ttl now ((key, b) ∷ m) =
    let rest = stale_keys ttl now m in if is_stale ttl now b then key ∷ rest else rest

unfoldable pub remove_keys : List Str → HashMap Str Bucket → HashMap Str Bucket
remove_keys [] m = m
remove_keys (key ∷ keys) m = remove_keys keys (HashMap.remove key m)

unfoldable pub maybe_cleanup : RateLimiter → ℕ → RateLimiter
unfolding stale_keys remove_keys
maybe_cleanup l now =
    if eqb (count % 256) 0
    then record counted { buckets = remove_keys (stale_keys l.bucket_ttl now l.buckets) l.buckets }
    else counted
  where
    count : ℕ
    count = (l.cleanup_counter + 1) % u64_mod

    counted : RateLimiter
    counted = record l { cleanup_counter = count }

-- Each `check_key`, and the clean-up, reads the clock; a refusal ends the call.
unfoldable pub allow : RateLimiter → Str → Str → ℕ → ℕ → ℕ → ℕ → RateLimiter × Bool
unfolding maybe_cleanup check_key
allow l device_id controller_id t0 t1 t2 t3 =
    let l0 = maybe_cleanup l t0 in
    let (l1, global_ok) = check_key l0 (str "global") l0.global_rate t1 in
    let (l2, device_ok) = check_key l1 (str "device:" ++ device_id) l1.device_rate t2 in
    let last = check_key l2 (str "controller:" ++ controller_id) l2.controller_rate t3 in
    if not global_ok then (l1, false) else if not device_ok then (l2, false) else last

unfoldable pub len : RateLimiter → ℕ
len l = length l.buckets

-- What rounding may do to a refill: a bucket that is not fuller than full gains at most `error`
-- over the exact sum before the sum is full, and one second fills it.
pub record IsRounding (refill : Refill) (rate error : ℕ) : Type 0 where
  pub above :
      (tokens elapsed : ℕ)
      → tokens ≤ full rate
      → min (full rate) (refill tokens elapsed rate) ≤ tokens + elapsed * rate * grain + error
  pub fills : (tokens elapsed : ℕ) → second ≤ elapsed → full rate ≤ refill tokens elapsed rate
