-- ===== src/RateLimiter/Requests/Cleanup.antt =====
-- crates/relay/src/rate_limiter.rs, `maybe_cleanup`: what a request sees of the buckets that were
-- dropped.
use g_rpc_relay.Base.{
  ℕ, ◌-◌, ◌≤◌, ◌⊎◌, ◌≡◌, refl, sym, ap, ◌∙◌, Bool, true, false, Option, none, some, List, [], ◌∷◌,
  arith, if◌then◌else◌, leb, leb→le, ==_iff, inl, inr, Bool-cases, Option-cases, list_eq, ℕ_eq,
}
use g_rpc_relay.Collections.HashMap
use g_rpc_relay.Collections.HashMap.{HashMap, get-insert_self, get-remove}
use g_rpc_relay.Collections.HashMap.Entries.{Distinct}
use g_rpc_relay.Collections.HashSet.{contains}
use g_rpc_relay.Text.{Str}
use g_rpc_relay.RateLimiter.Requests.{
  Bucket, RateLimiter, Refill, IsRounding, second, spend, first_bucket, check_key, is_stale,
  stale_keys, remove_keys, maybe_cleanup,
}

get-remove_keys :
    (key : Str) (keys : List Str) (m : HashMap Str Bucket)
    → HashMap.get key (remove_keys keys m) ≡ (if contains key keys then none else HashMap.get key m)
unfolding remove_keys contains
get-remove_keys key [] m = refl
get-remove_keys key (k ∷ keys) m =
    ground (arith, get-remove_keys key keys (HashMap.remove k m), get-remove k key m, ==_iff k key)

contains-stale_keys :
    (ttl now : ℕ) (key : Str) (m : HashMap Str Bucket)
    → Distinct m
    → contains key (stale_keys ttl now m)
      ≡ elim (HashMap.get key m) as (λ _. Bool) [ none ↦ false | some b ↦ is_stale ttl now b ]
unfolding stale_keys contains HashMap.get
contains-stale_keys ttl now key [] d = refl
contains-stale_keys ttl now key ((k, b) ∷ m) d =
    ground (arith, contains-stale_keys ttl now key m d.1, ==_iff k key)

-- What a clean-up leaves under a key.
pub after_cleanup : ℕ → ℕ → Option Bucket → Option Bucket
after_cleanup ttl now none = none
after_cleanup ttl now (some b) = if is_stale ttl now b then none else some b

pub get-maybe_cleanup :
    (l : RateLimiter) (now : ℕ) (key : Str)
    → Distinct l.buckets
    → (HashMap.get key (maybe_cleanup l now).buckets ≡ HashMap.get key l.buckets)
      ⊎ (HashMap.get key (maybe_cleanup l now).buckets
          ≡ after_cleanup l.bucket_ttl now (HashMap.get key l.buckets))
unfolding maybe_cleanup after_cleanup
get-maybe_cleanup l now key d = ground (
  arith,
  get-remove_keys key (stale_keys l.bucket_ttl now l.buckets) l.buckets,
  contains-stale_keys l.bucket_ttl now key l.buckets d,
)

-- A request at a stale bucket and one at no bucket: the same decision, and the same bucket after.
stale_bucket :
    (refill : Refill) (rate error now : ℕ) (b : Bucket)
    → IsRounding refill rate error
    → 60 ≤ rate
    → second ≤ now - b.last
    → spend refill rate now b ≡ (first_bucket rate now, true)
unfolding spend first_bucket
stale_bucket refill rate error now b v h k = ground (arith, v.fills b.tokens (now - b.last) k)

-- What a request does to its key: the decision, and the bucket that it leaves.
abbrev pub outcome : RateLimiter × Bool → Str → Option Bucket × Bool
outcome (l, allowed) key = (HashMap.get key l.buckets, allowed)

answer : Refill → ℕ → ℕ → Option Bucket → Option Bucket × Bool
answer refill rate now none = (some (first_bucket rate now), true)
answer refill rate now (some b) = (some (spend refill rate now b).0, (spend refill rate now b).1)

outcome-answer :
    (l : RateLimiter) (key : Str) (rate now : ℕ)
    → 60 ≤ rate
    → outcome (check_key l key rate now) key ≡ answer l.refill rate now (HashMap.get key l.buckets)
unfolding check_key answer
outcome-answer l key rate now fast = elim (Option-cases (HashMap.get key l.buckets)) [
  | inl e ↦ ground (arith, e, get-insert_self key (first_bucket rate now) l.buckets)
  | inr (b, e) ↦ ground (arith, e, get-insert_self key (spend l.refill rate now b).0 l.buckets)
]

answer-after_cleanup :
    (refill : Refill) (rate error ttl swept now : ℕ) (o : Option Bucket)
    → IsRounding refill rate error
    → second ≤ ttl
    → 60 ≤ rate
    → swept ≤ now
    → answer refill rate now (after_cleanup ttl swept o) ≡ answer refill rate now o
unfolding answer after_cleanup is_stale
answer-after_cleanup refill rate error ttl swept now none v h fast later = refl
answer-after_cleanup refill rate error ttl swept now (some b) v h fast later =
    elim (Bool-cases (leb ttl (swept - b.last))) [
      | inr kept ↦ rw kept
      | inl stale ↦ rw (
        stale,
        stale_bucket refill rate error now b v fast (omega (arith, leb→le _ _ stale)),
        answer,
      )
    ]

maybe_cleanup-refill : (l : RateLimiter) (now : ℕ) → (maybe_cleanup l now).refill ≡ l.refill
unfolding maybe_cleanup
maybe_cleanup-refill l now = ground arith

-- With buckets under distinct keys, a rate of at least one request per second, a refill of which a
-- second fills a bucket also with its rounding, a time to live of at least a second and a clean-up
-- no later than the request, the clean-up changes neither the decision on the request nor the
-- bucket that it leaves.
pub check_key-maybe_cleanup :
    (l : RateLimiter) (key : Str) (rate error swept now : ℕ)
    → IsRounding l.refill rate error
    → Distinct l.buckets
    → second ≤ l.bucket_ttl
    → 60 ≤ rate
    → swept ≤ now
    → outcome (check_key (maybe_cleanup l swept) key rate now) key
      ≡ outcome (check_key l key rate now) key
check_key-maybe_cleanup l key rate error swept now v d ttl fast later =
    outcome-answer (maybe_cleanup l swept) key rate now fast
    ∙ ap
        (λ (refill : Refill).
          answer refill rate now (HashMap.get key (maybe_cleanup l swept).buckets))
        (maybe_cleanup-refill l swept)
    ∙ cleaned (get-maybe_cleanup l swept key d)
    ∙ sym (outcome-answer l key rate now fast)
  where
    cleaned :
        (HashMap.get key (maybe_cleanup l swept).buckets ≡ HashMap.get key l.buckets)
          ⊎ (HashMap.get key (maybe_cleanup l swept).buckets
              ≡ after_cleanup l.bucket_ttl swept (HashMap.get key l.buckets))
        → answer l.refill rate now (HashMap.get key (maybe_cleanup l swept).buckets)
          ≡ answer l.refill rate now (HashMap.get key l.buckets)
    cleaned (inl e) = ap (answer l.refill rate now) e
    cleaned (inr e) =
        ap (answer l.refill rate now) e
        ∙ answer-after_cleanup l.refill rate error l.bucket_ttl swept now
            (HashMap.get key l.buckets) v ttl fast later
