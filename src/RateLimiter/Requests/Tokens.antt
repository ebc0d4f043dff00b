-- ===== src/RateLimiter/Requests/Tokens.antt =====
-- crates/relay/src/rate_limiter.rs, `check_key`: how many requests a bucket lets through.
use g_rpc_relay.Base.{
  ℕ, ◌+◌, ◌-◌, ◌*◌, ◌≤◌, ◌<◌, ◌≡◌, refl, ap, ◌∙◌, length, false, List, [], ◌∷◌, arith,
  if◌then◌else◌, inl, inr, Bool-cases, list_eq, ℕ_eq,
}
use g_rpc_relay.RateLimiter.Requests.{Bucket, Refill, IsRounding, grain, token, full, spend}

-- The requests of a list of times that a bucket lets through, and the bucket at the end.
pub admitted : Refill → ℕ → Bucket → List ℕ → ℕ × Bucket
admitted refill rate b [] = (0, b)
admitted refill rate b (now ∷ later) =
    let (b', allowed) = spend refill rate now b in
    let (n, last) = admitted refill rate b' later in (if allowed then n + 1 else n, last)

abbrev pub Rising : ℕ → ℕ → List ℕ → Type 0
Rising lo hi [] = lo ≤ hi
Rising lo hi (t ∷ ts) = (lo ≤ t) × Rising t hi ts

-- A bucket is never fuller than full, and a request that passes pays for its token.
pub spend-le-full :
    (refill : Refill) (rate now : ℕ) (b : Bucket)
    → b.tokens ≤ full rate
    → (spend refill rate now b).0.tokens + (if (spend refill rate now b).1 then token else 0)
      ≤ full rate
unfolding spend
spend-le-full refill rate now b h = ground arith

Rising-le : (lo hi : ℕ) (ts : List ℕ) → Rising lo hi ts → lo ≤ hi
Rising-le lo hi [] r = r
Rising-le lo hi (t ∷ ts) r = omega (arith, r.0, Rising-le t hi ts r.1)

elapsed-mul :
    (rate start now end : ℕ)
    → start ≤ now
    → now ≤ end
    → (end - start) * rate ≡ (end - now) * rate + (now - start) * rate
elapsed-mul rate start now end h k =
    let sum : end - start ≡ (end - now) + (now - start) = omega arith in
    ap (λ (t : ℕ). t * rate) sum ∙ omega arith

module _ (refill : Refill) (rate error : ℕ) (v : IsRounding refill rate error) where
  -- A request costs one token, and a nanosecond brings at most `rate` grains.
  spend_cost :
      (now : ℕ) (b : Bucket)
      → b.tokens ≤ full rate
      → b.last ≤ now
      → ((spend refill rate now b).0.tokens + (if (spend refill rate now b).1 then token else 0)
          ≤ b.tokens + (now - b.last) * rate * grain + error)
        × ((spend refill rate now b).0.last ≡ now)
  unfolding spend
  spend_cost now b few h = ground (arith, v.above b.tokens (now - b.last) few)

  admitted_account :
      (end : ℕ) (ts : List ℕ) (b : Bucket)
      → b.tokens ≤ full rate
      → Rising b.last end ts
      → ((admitted refill rate b ts).0 * token + (admitted refill rate b ts).1.tokens
          ≤ b.tokens + (end - b.last) * rate * grain + length ts * error)
        × ((admitted refill rate b ts).1.tokens ≤ full rate)
  unfolding admitted
  admitted_account end [] b few r = (omega arith, few)
  admitted_account end (now ∷ later) b few r =
      let (cost, touched) = spend_cost now b few r.0 in
      let capped = spend-le-full refill rate now b few in
      let next = (spend refill rate now b).0 in
      let rising : Rising next.last end later = rw touched r.1 in
      let still : next.tokens ≤ full rate = omega (arith, capped) in
      let rest = rw touched at (admitted_account end later next still rising) in
      let split = elapsed-mul rate b.last now end r.0 (Rising-le now end later r.1) in
      elim (Bool-cases (spend refill rate now b).1) [
        | inl spent ↦ rw spent (omega (arith, rest.0, split, rw spent at cost), rest.1)
        | inr refused ↦ rw refused (omega (arith, rest.0, split, rw refused at cost), rest.1)
      ]

  -- For a refill whose rounding adds at most `error`, and a bucket that is not fuller than full and
  -- was last used at `start` or before: of requests whose times do not fall, from `start` to `end`,
  -- it lets through at most those that a full bucket pays for, those that the rate brings in that
  -- time, and those that one `error` for each request pays for; and it is not fuller than full
  -- afterwards.
  pub admitted_bound :
      (start end : ℕ) (ts : List ℕ) (b : Bucket)
      → b.tokens ≤ full rate
      → b.last ≤ start
      → Rising start end ts
      → ((admitted refill rate b ts).0 * token
          ≤ full rate + (end - start) * rate * grain + length ts * error)
        × ((admitted refill rate b ts).1.tokens ≤ full rate)
  unfolding admitted
  admitted_bound start end [] b few past r = (omega arith, few)
  admitted_bound start end (now ∷ later) b few past r =
      let (_, touched) = spend_cost now b few (omega (arith, past, r.0)) in
      let capped = spend-le-full refill rate now b few in
      let next = (spend refill rate now b).0 in
      let rising : Rising next.last end later = rw touched r.1 in
      let still : next.tokens ≤ full rate = omega (arith, capped) in
      let rest = rw touched at (admitted_account end later next still rising) in
      let split = elapsed-mul rate start now end r.0 (Rising-le now end later r.1) in
      elim (Bool-cases (spend refill rate now b).1) [
        | inl spent ↦ rw spent (omega (arith, rest.0, split, rw spent at capped), rest.1)
        | inr refused ↦ rw refused (omega (arith, rest.0, split, rw refused at capped), rest.1)
      ]

-- At a rate below one request per second, a bucket no fuller than full admits nothing, whenever
-- the requests come and however the refill is rounded.
pub admitted_slow_rate :
    (refill : Refill) (rate : ℕ) (ts : List ℕ) (b : Bucket)
    → rate < 60
    → b.tokens ≤ full rate
    → (admitted refill rate b ts).0 ≡ 0
unfolding admitted
admitted_slow_rate refill rate [] b h k = refl
admitted_slow_rate refill rate (now ∷ later) b h k =
    let capped = spend-le-full refill rate now b k in
    rw (refused rate now b h k)
      (admitted_slow_rate refill rate later (spend refill rate now b).0 h (omega (arith, capped)))
  where
    refused :
        (rate now : ℕ) (b : Bucket)
        → rate < 60
        → b.tokens ≤ full rate
        → (spend refill rate now b).1 ≡ false
    refused rate now b h k = unfold spend in ground arith
