-- ===== src/Mqtt/Reconnect.antt =====
-- crates/relay/src/mqtt.rs, `spawn_mqtt_publisher`: how long the worker waits before it connects
-- again, and what a session that broke leaves behind.
use native.Mathlib.Nat.{pow-suc}
use g_rpc_relay.Base.{
  ℕ, suc, zero, ◌+◌, ◌*◌, ◌^◌, ◌≤◌, ◌<◌, ◌≡◌, refl, ◌∙◌, min, max, Bool, true, false, List, [],
  ◌++◌, arith, ok, length, ltb, if◌then◌else◌, ltb→lt, Bool-cases, inl, inr, list_eq, ℕ_eq,
}
use g_rpc_relay.Text.{Str}
use g_rpc_relay.Mqtt.{Mqtt, MqttPublishRequest, set_connected}
use g_rpc_relay.Mqtt.Address.{parse_host_port}
use g_rpc_relay.Mqtt.Session.{Turn, again, finished, broken, mqtt_of, Action, run_mqtt_session}
use g_rpc_relay.Mqtt.Order.{handled, line, accepted_in, run_mqtt_session-line}
use g_rpc_relay.Mqtt.Count.{IsCounted, missed_in, run_mqtt_session-IsCounted}
use g_rpc_relay.Mqtt.Worker.{
  MqttConfig, u64_max, checked_pow2, saturating_mul, initial_seconds, max_seconds, backoff_secs,
  Next, returned, running, loops, leave_session, after_session, worker_round,
}

pow2_pos : (k : ℕ) → 1 ≤ 2 ^ k
pow2_pos zero = omega arith
pow2_pos (suc k) = rw (pow-suc 2 k) (omega (arith, pow2_pos k))

checked_pow2_pos : (attempt : ℕ) → 1 ≤ checked_pow2 attempt
unfolding checked_pow2
checked_pow2_pos attempt = ground (arith, pow2_pos attempt)

mul_pos : (i p : ℕ) → 1 ≤ i → 1 ≤ p → 1 ≤ i * p
mul_pos i p h k = grind arith

capped_bounds :
    (cap i p : ℕ)
    → 1 ≤ i
    → i ≤ cap
    → 1 ≤ p
    → (1 ≤ min cap (min u64_max (i * p))) × (min cap (min u64_max (i * p)) ≤ cap)
capped_bounds cap i p h k l = omega (arith, mul_pos i p h l)

-- Every wait lies between one second and the cap.
pub backoff_secs_bounds :
    (cfg : MqttConfig) (attempt : ℕ)
    → (1 ≤ backoff_secs cfg attempt) × (backoff_secs cfg attempt ≤ max_seconds cfg)
unfolding backoff_secs max_seconds initial_seconds saturating_mul
backoff_secs_bounds cfg attempt =
    capped_bounds _ (max 1 cfg.reconnect_initial_seconds) _ (omega arith) (omega arith)
      (checked_pow2_pos (min attempt 20))

checked_pow2_twice :
    (attempt : ℕ)
    → attempt < 20
    → checked_pow2 (min (attempt + 1) 20) ≡ 2 * checked_pow2 (min attempt 20)
unfolding checked_pow2
checked_pow2_twice attempt h =
    let now : min attempt 20 ≡ attempt = omega arith in
    let next : min (attempt + 1) 20 ≡ suc attempt = omega arith in
    rw (now, next) (ground (arith, pow-suc 2 attempt))

capped_twice :
    (cap i p q : ℕ)
    → cap ≤ u64_max
    → q ≡ 2 * p
    → min cap (min u64_max (i * q)) ≡ min cap (2 * min cap (min u64_max (i * p)))
capped_twice cap i p q h e =
    let product : i * q ≡ 2 * (i * p) = rw e (grind arith) in rw product (omega arith)

first_wait : (cap i : ℕ) → i ≤ cap → cap ≤ u64_max → min cap (min u64_max (i * 1)) ≡ i
first_wait cap i h k = omega arith

first_backoff :
    (cfg : MqttConfig) → max_seconds cfg ≤ u64_max → backoff_secs cfg 0 ≡ initial_seconds cfg
unfolding backoff_secs saturating_mul checked_pow2 max_seconds
first_backoff cfg h = first_wait (max_seconds cfg) (initial_seconds cfg) (omega arith) h

-- The first wait is the initial one, each of the next twenty is twice the one before it, up to the
-- cap, and from then on they stay the same. The cap is a 64-bit number.
pub backoff_secs_doubles :
    (cfg : MqttConfig) (attempt : ℕ)
    → max_seconds cfg ≤ u64_max
    → (backoff_secs cfg 0 ≡ initial_seconds cfg)
      × (backoff_secs cfg (attempt + 1) ≡ (
          if ltb attempt 20
          then min (max_seconds cfg) (2 * backoff_secs cfg attempt)
          else backoff_secs cfg attempt))
unfolding backoff_secs saturating_mul
backoff_secs_doubles cfg attempt h = (
  first_backoff cfg h,
  elim (Bool-cases (ltb attempt 20)) [
    | inl few ↦ rw few (
        capped_twice (max_seconds cfg) (initial_seconds cfg) _ _ h
          (checked_pow2_twice attempt (ltb→lt attempt 20 few)))
    | inr many ↦
        let same : min (attempt + 1) 20 ≡ min attempt 20 = ground (arith, many) in
        rw (many, same) refl
  ],
)

if_false : {A : Type 0} (b : Bool) (x y : A) → b ≡ false → (if b then x else y) ≡ y
if_false true x y h = cc
if_false false x y h = refl

abbrev pub state_of : Next → Mqtt
state_of (returned m) = m
state_of (running m) = m
state_of (loops seconds attempt m) = m

-- What was pending when a session returned.
abbrev pub lost_in : Turn → List MqttPublishRequest
lost_in (again m) = []
lost_in (finished m) = m.pending_requests
lost_in (broken m) = m.pending_requests

after_session_lem :
    (cfg : MqttConfig) (attempt excess : ℕ) (t : Turn) (l : List MqttPublishRequest)
    → line (mqtt_of t) ≡ l
    → IsCounted 0 excess (mqtt_of t)
    → let n = state_of (after_session cfg attempt t) in
      (handled n.log ++ (lost_in t ++ (n.pending_requests ++ n.rx)) ≡ l)
      × (n.runtime.dropped_total ≡ (mqtt_of t).runtime.dropped_total)
      × IsCounted 0 (excess + length (lost_in t)) n
unfolding after_session leave_session set_connected
after_session_lem cfg attempt excess (again m) l e v = (e, refl, omega (arith, v))
after_session_lem cfg attempt excess (finished m) l e v = (e, refl, omega (arith, v))
after_session_lem cfg attempt excess (broken m) l e v = (e, refl, omega (arith, v))

-- A round of the worker whose broker's address is read and whose publishers are not all gone, from a
-- gauge that makes up the requests in the queues and an excess, within the capacities and without a
-- wrap: the requests that left, in their order, then those that were pending when the session
-- returned, and those in the channel are the ones before the session and those that its actions put
-- into the channel. Those that were pending are in no queue any more and are not counted as
-- dropped, and their number is added to the excess of the gauge.
pub worker_round-line :
    (cfg : MqttConfig) (attempt excess : ℕ) (actions : List Action) (m : Mqtt) (broker : Str × ℕ)
    → parse_host_port cfg.broker_address ≡ ok broker
    → m.is_closed ≡ false
    → IsCounted (length actions) excess (record m { pending_requests = [] })
    → let start = record m { pending_requests = [] } in
      let t = run_mqtt_session actions start in
      let n = state_of (worker_round cfg attempt actions m) in
      (handled n.log ++ (lost_in t ++ (n.pending_requests ++ n.rx))
        ≡ line start ++ accepted_in actions start)
      × (n.runtime.dropped_total ≡ (mqtt_of t).runtime.dropped_total)
      × IsCounted 0 (excess + missed_in actions start + length (lost_in t)) n
unfolding worker_round
worker_round-line cfg attempt excess actions m broker parsed live v =
    let start = record m { pending_requests = [] } in
    let account =
      after_session_lem cfg attempt _ (run_mqtt_session actions start) _
        (run_mqtt_session-line actions start) (run_mqtt_session-IsCounted actions start excess v) in
    let round : worker_round cfg attempt actions m
        ≡ after_session cfg attempt (run_mqtt_session actions start) =
      if_false m.is_closed _ _ live ∙ rw parsed refl in
    rw round account
