-- ===== src/Interleaving.antt =====
-- crates/relay/src/grpc_service.rs: the streams and the clean-up task run side by side on one
-- relay. A step is one round of one of them; their own variables may be any.
pub mod AtMostOnce
use g_rpc_relay.Base.{
  ℕ, ◌+◌, ◌<◌, Bool, true, false, not, none, ◌++◌, map, pos, arith, if◌then◌else◌, Bool-cases, inl,
  inr, list_eq, ℕ_eq, ℤ_eq, pair_eq,
}
use g_rpc_relay.Text.{Str, str}
use g_rpc_relay.Proto
use g_rpc_relay.Proto.{ControllerMessage, DeviceResponse}
use g_rpc_relay.State
use g_rpc_relay.State.{RelayState, u64_mod}
use g_rpc_relay.State.Sessions.{new-IsConsistent}
use g_rpc_relay.State.Waiters.{new-IsTable}
use g_rpc_relay.Stream.{StreamMapping, StreamRouter, StreamConfig, usize_mod, cleanup_stale}
use g_rpc_relay.Stream.Invariant.{new-IsIndexed}
use g_rpc_relay.Stream.Cleanup.{cleanup_stale-IsIndexed}
use g_rpc_relay.RateLimiter.{RateLimitConfig}
use g_rpc_relay.RateLimiter.Requests.{Refill}
use g_rpc_relay.RateLimiter.Connections.{allow_global}
use g_rpc_relay.Auth.{AuthConfig, Decode}
use g_rpc_relay.Service.{
  Relay, SecurityMetrics, Event, to_controller, rate_limit, audited, record_rate_limit,
}
use g_rpc_relay.Service
use g_rpc_relay.DeviceStream.{DeviceStream, Inbound, Reason, round}
use g_rpc_relay.DeviceStream
use g_rpc_relay.DeviceStream.Frames.{shared}
use g_rpc_relay.DeviceStream.Invariant.{IsSound}
use g_rpc_relay.DeviceStream.Invariant as DeviceInvariant
use g_rpc_relay.DeviceStream.Rounds.{round-IsSound}
use g_rpc_relay.ControllerStream.{
  ControllerStream, Surroundings, error_resp, on_message, on_response, on_closed, on_timeout,
}
use g_rpc_relay.ControllerStream
use g_rpc_relay.ControllerStream.Invariant as ControllerInvariant
use g_rpc_relay.ControllerStream.Invariant.{with_router}
use g_rpc_relay.ControllerStream.Rounds.{
  on_message-IsSound, on_response-IsSound, on_closed-IsSound, on_timeout-IsSound,
}
use g_rpc_relay.ControllerStream.Rounds as ControllerRounds

-- A round of the clean-up task: the controllers of the streams that it removed are told.
abbrev pub stale_notice : StreamMapping → Event
stale_notice mapping =
    to_controller mapping.controller_tx (error_resp mapping.device_id (pos 0) Proto.device_offline)

unfoldable pub cleanup_streams : Relay → ℕ → Relay
cleanup_streams r now =
    let (stale, router1) = cleanup_stale r.router now in
    record r { router = router1; events = r.events ++ map stale_notice stale }

-- `device_connect` before it starts the loop: whether the connection is accepted.
unfoldable pub device_connect : Relay → ℕ → Bool → Relay × Bool
device_connect r now healthy =
    let (limiter, allowed) = allow_global r.connection_limiter now in
    let r1 = record r { connection_limiter = limiter } in
    let refused = record r1 { security_metrics = record_rate_limit r.security_metrics } in
    if not allowed
    then (
      audited (rate_limit (str "system") (str "global") (str "connection_limit")) refused,
      false,
    )
    else if not healthy
    then (
      audited (rate_limit (str "system") (str "global") (str "resource_unhealthy")) refused,
      false,
    )
    else (r1, true)

-- One step of the relay. A step that may give out a number asks that numbers are left.
pub data Moves (decode : Decode) : Relay → Relay → Type 0 where
  connected :
      (r : Relay) (now : ℕ) (healthy : Bool) → Moves decode r (device_connect r now healthy).0
  device_round :
      (r : Relay) (ds : DeviceStream) (i : Inbound)
      → r.state.connection_id_counter + 1 < u64_mod
      → Moves decode r (DeviceInvariant.relay_of (round r ds i))
  device_finished :
      (r : Relay) (ds : DeviceStream) (reason : Reason)
      → Moves decode r (DeviceStream.finish r ds reason)
  controller_round :
      (r : Relay) (cs : ControllerStream) (msg : ControllerMessage) (env : Surroundings)
      → r.router.counter + 1 < usize_mod
      → Moves decode r (ControllerInvariant.relay_of (on_message decode r cs msg env))
  response_came :
      (r : Relay) (cs : ControllerStream) (msg : ControllerMessage) (is_new_forwarder : Bool)
      → (resp : DeviceResponse) (latency now : ℕ)
      → Moves decode r (on_response r cs msg is_new_forwarder resp latency now)
  channel_closed :
      (r : Relay) (cs : ControllerStream) (msg : ControllerMessage) (latency now : ℕ)
      → Moves decode r (on_closed r cs msg latency now)
  timed_out : (r : Relay) (msg : ControllerMessage) → Moves decode r (on_timeout r msg)
  controller_finished :
      (r : Relay) (cs : ControllerStream) (lifetime : ℕ)
      → Moves decode r (ControllerStream.finish r cs lifetime)
  cleaned : (r : Relay) (now : ℕ) → Moves decode r (cleanup_streams r now)

pub data Reachable (decode : Decode) : Relay → Type 0 where
  started :
      (auth : AuthConfig) (refill : Refill) (limits : RateLimitConfig) (streams : StreamConfig)
      (m : SecurityMetrics)
      → (address : Str) (has_mqtt has_audit : Bool)
      → Reachable decode
          (Service.new State.new auth refill limits streams m address has_mqtt has_audit)
  moved : {r q : Relay} → Reachable decode r → Moves decode r q → Reachable decode q

-- The tables agree, and the numbers given out are those below the counter.
abbrev pub AreInStep : Relay → Type 0
AreInStep r = IsSound r.state.connection_id_counter (shared r)

recount :
    (n : ℕ) (s : RelayState) (ro : StreamRouter)
    → IsSound n (s, ro)
    → IsSound s.connection_id_counter (s, ro)
recount n s ro v = record {
  sessions = v.sessions;
  table = v.table;
  indexed = v.indexed;
  counted = omega arith;
}

device_connect-AreInStep :
    (r : Relay) (now : ℕ) (healthy : Bool)
    → AreInStep r
    → AreInStep (device_connect r now healthy).0
unfolding device_connect audited
device_connect-AreInStep r now healthy v =
    elim (Bool-cases (allow_global r.connection_limiter now).1) [
      | inr full ↦ rw (full, device_connect) v
      | inl room ↦ elim (Bool-cases healthy) [
        | inl well ↦ rw (room, well, device_connect) v
        | inr ill ↦ rw (room, ill, device_connect) v
      ]
    ]

abbrev no_stream : ControllerStream
no_stream = record {
  stream_id = none;
  stream_binding = none;
  controller_connected = false;
  out_tx = 0;
}

Moves-AreInStep : (decode : Decode) (r q : Relay) → Moves decode r q → AreInStep r → AreInStep q
Moves-AreInStep decode _ _ (connected r now healthy) v = device_connect-AreInStep r now healthy v
Moves-AreInStep decode _ _ (device_round r ds i small) v =
    recount _ _ _ (round-IsSound r ds i r.state.connection_id_counter small v)
Moves-AreInStep decode _ _ (device_finished r ds reason) v =
    recount _ _ _ (DeviceInvariant.finish-IsSound r ds reason r.state.connection_id_counter v)
Moves-AreInStep decode _ _ (controller_round r cs msg env small) v =
    recount _ _ _ (on_message-IsSound decode r.state.connection_id_counter r cs msg env v small)
Moves-AreInStep decode _ _ (response_came r cs msg is_new_forwarder resp latency now) v =
    recount _ _ _ (
      on_response-IsSound r.state.connection_id_counter r cs v msg is_new_forwarder resp latency
        now)
Moves-AreInStep decode _ _ (channel_closed r cs msg latency now) v =
    recount _ _ _ (on_closed-IsSound r.state.connection_id_counter r cs v msg latency now)
Moves-AreInStep decode _ _ (timed_out r msg) v =
    recount _ _ _ (on_timeout-IsSound r.state.connection_id_counter r no_stream v msg)
Moves-AreInStep decode _ _ (controller_finished r cs lifetime) v =
    recount _ _ _ (ControllerRounds.finish-IsSound r.state.connection_id_counter r cs lifetime v)
Moves-AreInStep decode _ _ (cleaned r now) v =
    unfold cleanup_streams in
    with_router r.state.connection_id_counter r v _ (cleanup_stale-IsIndexed r.router now v.indexed)

-- In every relay that a sequence of steps reaches from a new one, where a step that may give out a
-- connection or stream number asks that the 64-bit counter does not wrap: the session maps agree,
-- no connection or stream number that is still to be given out is taken, the in-flight table is
-- keyed by device, and the stream tables agree and hold at most the limit of streams for each
-- device and controller, or one under a limit of zero.
pub Reachable-AreInStep : (decode : Decode) (r : Relay) → Reachable decode r → AreInStep r
unfolding Service.new
Reachable-AreInStep decode _ (started auth refill limits streams m address has_mqtt has_audit) =
    record {
      sessions = new-IsConsistent;
      table = new-IsTable;
      indexed = new-IsIndexed streams;
      counted = omega arith;
    }
Reachable-AreInStep decode q (moved {r} before step) =
    Moves-AreInStep decode r q step (Reachable-AreInStep decode r before)
