-- ===== src/Interleaving/AtMostOnce.antt =====
-- crates/relay/src/grpc_service.rs: over all the streams of a relay, in any order of their rounds,
-- how often a one-shot channel is sent a response.
use g_rpc_relay.Base.{
  ℕ, ◌+◌, ◌≤◌, ◌≡◌, refl, inl, inr, Bool, List, [], ◌∷◌, map, arith, if◌then◌else◌, eqb, Bool-cases,
  list_eq, ℕ_eq, ℤ_eq, pair_eq,
}
use g_rpc_relay.State
use g_rpc_relay.Collections.HashMap.Entries.{total}
use g_rpc_relay.Text.{Str}
use g_rpc_relay.RateLimiter.{RateLimitConfig}
use g_rpc_relay.RateLimiter.Requests.{Refill}
use g_rpc_relay.State.Waiters.{pending}
use g_rpc_relay.Stream.{StreamConfig, StreamMapping, cleanup_stale}
use g_rpc_relay.RateLimiter.Connections.{allow_global}
use g_rpc_relay.Auth.{AuthConfig, Decode}
use g_rpc_relay.Service.{Relay, SecurityMetrics}
use g_rpc_relay.Service
use g_rpc_relay.DeviceStream.Answers.{answered, answered-append, account, account-audited}
use g_rpc_relay.DeviceStream.Conservation.{account-round, account-finish}
use g_rpc_relay.ControllerStream.{on_timeout}
use g_rpc_relay.ControllerStream.Answers.{account-fail_inflight}
use g_rpc_relay.ControllerStream.Deliveries.{
  account-on_message, account-on_response, account-on_closed,
}
use g_rpc_relay.ControllerStream.Deliveries as Deliveries
use g_rpc_relay.Interleaving.{
  Moves, connected, device_round, device_finished, controller_round, response_came, channel_closed,
  timed_out, controller_finished, cleaned, Reachable, started, moved, AreInStep,
  Reachable-AreInStep, cleanup_streams, stale_notice, device_connect,
}

-- How many messages of controllers were taken with a channel.
abbrev used : (decode : Decode) (k : ℕ) (r q : Relay) → Moves decode r q → ℕ
used decode k _ _ (connected r now healthy) = 0
used decode k _ _ (device_round r ds i small) = 0
used decode k _ _ (device_finished r ds reason) = 0
used decode k _ _ (controller_round r cs msg env small) = if eqb env.waiter k then 1 else 0
used decode k _ _ (response_came r cs msg is_new_forwarder resp latency now) = 0
used decode k _ _ (channel_closed r cs msg latency now) = 0
used decode k _ _ (timed_out r msg) = 0
used decode k _ _ (controller_finished r cs lifetime) = 0
used decode k _ _ (cleaned r now) = 0

abbrev pub asked : (decode : Decode) (k : ℕ) (r : Relay) → Reachable decode r → ℕ
asked decode k _ (started auth refill limits streams m address has_mqtt has_audit) = 0
asked decode k q (moved {r} before step) = asked decode k r before + used decode k r q step

account-device_connect :
    (k : ℕ) (r : Relay) (now : ℕ) (healthy : Bool)
    → account k (device_connect r now healthy).0 ≡ account k r
unfolding device_connect Service.audited
account-device_connect k r now healthy =
    elim (Bool-cases (allow_global r.connection_limiter now).1) [
      | inr full ↦ rw (full, device_connect) (account-audited k _ r)
      | inl room ↦ elim (Bool-cases healthy) [
        | inl well ↦ rw (room, well, device_connect) refl
        | inr ill ↦ rw (room, ill, device_connect) (account-audited k _ r)
      ]
    ]

answered-stale : (k : ℕ) (ms : List StreamMapping) → answered k (map stale_notice ms) ≡ 0
unfolding answered
answered-stale k [] = refl
answered-stale k (m ∷ ms) = answered-stale k ms

account-cleanup_streams :
    (k : ℕ) (r : Relay) (now : ℕ) → account k (cleanup_streams r now) ≡ account k r
unfolding cleanup_streams
account-cleanup_streams k r now =
    let stale = (cleanup_stale r.router now).0 in
    omega (arith, answered-append k r.events (map stale_notice stale), answered-stale k stale)

module _ (decode : Decode) (k : ℕ) where
  account-Moves :
      (r q : Relay) (step : Moves decode r q)
      → AreInStep r
      → account k q ≤ account k r + used decode k r q step
  unfolding on_timeout
  account-Moves _ _ (connected r now healthy) v =
      omega (arith, account-device_connect k r now healthy)
  account-Moves _ _ (device_round r ds i small) v = omega (arith, account-round k r ds i _ v)
  account-Moves _ _ (device_finished r ds reason) v =
      omega (arith, account-finish k r ds reason _ v)
  account-Moves _ _ (controller_round r cs msg env small) v =
      account-on_message decode k r cs msg env _ v small
  account-Moves _ _ (response_came r cs msg is_new_forwarder resp latency now) v =
      omega (arith, account-on_response k r cs msg is_new_forwarder resp latency now)
  account-Moves _ _ (channel_closed r cs msg latency now) v =
      omega (arith, account-on_closed k r cs msg latency now)
  account-Moves _ _ (timed_out r msg) v =
      omega (arith, account-fail_inflight k r msg.target_device_id msg.sequence_number v.table)
  account-Moves _ _ (controller_finished r cs lifetime) v =
      omega (arith, Deliveries.account-finish k r cs lifetime)
  account-Moves _ _ (cleaned r now) v = omega (arith, account-cleanup_streams k r now)

  account-new :
      (auth : AuthConfig) (refill : Refill) (limits : RateLimitConfig) (streams : StreamConfig)
      (m : SecurityMetrics)
      → (address : Str) (has_mqtt has_audit : Bool)
      → account k (Service.new State.new auth refill limits streams m address has_mqtt has_audit)
        ≡ 0
  unfolding Service.new State.new pending answered total
  account-new auth refill limits streams m address has_mqtt has_audit = refl

  account-Reachable :
      (r : Relay) (before : Reachable decode r) → account k r ≤ asked decode k r before
  account-Reachable _ (started auth refill limits streams m address has_mqtt has_audit) =
      omega (arith, account-new auth refill limits streams m address has_mqtt has_audit)
  account-Reachable q (moved {r} before step) = omega (
    arith,
    account-Moves r q step (Reachable-AreInStep decode r before),
    account-Reachable r before,
  )

  -- In every relay that a sequence of steps reaches from a new one, in any order of the streams'
  -- rounds, a one-shot channel was sent at most as many responses as there were messages of
  -- controllers taken with that channel: a channel made for one message gets at most one response.
  -- A step that may give out a number asks that the 64-bit counter does not wrap.
  pub answered-Reachable :
      (r : Relay) (before : Reachable decode r) → answered k r.events ≤ asked decode k r before
  answered-Reachable r before = omega (arith, account-Reachable r before)
