-- ===== src/Mqtt/Worker.antt =====
-- crates/relay/src/mqtt.rs, `spawn_mqtt_publisher`: the loop of the worker around its sessions, and
-- `MqttConfig` of crates/relay/src/config.rs.
use g_rpc_relay.Base.{
  ℕ, ◌+◌, ◌-◌, ◌*◌, ◌^◌, min, max, Bool, false, Option, none, some, List, [], ◌++◌, ok, err,
  if◌then◌else◌, ltb, list_eq, ℕ_eq,
}
use g_rpc_relay.Text.{Str, str}
use g_rpc_relay.Mqtt.{Mqtt, set_connected}
use g_rpc_relay.Mqtt.Address.{parse_host_port}
use g_rpc_relay.Mqtt.Session.{Turn, again, finished, broken, Action, run_mqtt_session}

pub record MqttConfig : Type 0 where
  pub enabled : Bool
  pub broker_address : Str
  pub client_id : Option Str
  pub username : Option Str
  pub password : Option Str
  pub telemetry_interval_seconds : ℕ
  pub reconnect_initial_seconds : ℕ
  pub reconnect_max_seconds : ℕ

-- `MqttConfig::default`
unfoldable pub default_config : MqttConfig
default_config = record {
  enabled = false;
  broker_address = str "localhost:1883";
  client_id = none;
  username = none;
  password = none;
  telemetry_interval_seconds = 30;
  reconnect_initial_seconds = 1;
  reconnect_max_seconds = 30;
}

unfoldable pub client_id_or_default : MqttConfig → Str → Str
client_id_or_default cfg relay_id = elim cfg.client_id [
  | some id ↦ id
  | none ↦ str "relay-" ++ relay_id
]

abbrev pub u64_max : ℕ
u64_max = 2 ^ 64 - 1

abbrev pub u32_max : ℕ
u32_max = 2 ^ 32 - 1

-- `1u64.checked_shl(attempt).unwrap_or(u64::MAX)`
unfoldable pub checked_pow2 : ℕ → ℕ
checked_pow2 attempt = if ltb attempt 64 then 2 ^ attempt else u64_max

unfoldable pub saturating_mul : ℕ → ℕ → ℕ
saturating_mul a b = min u64_max (a * b)

unfoldable pub initial_seconds : MqttConfig → ℕ
initial_seconds cfg = max 1 cfg.reconnect_initial_seconds

unfoldable pub max_seconds : MqttConfig → ℕ
max_seconds cfg = max (initial_seconds cfg) cfg.reconnect_max_seconds

unfoldable pub backoff_secs : MqttConfig → ℕ → ℕ
backoff_secs cfg attempt =
    min (max_seconds cfg) (saturating_mul (initial_seconds cfg) (checked_pow2 (min attempt 20)))

-- What follows: the worker returns, the session goes on, or the loop goes on after so many seconds.
pub data Next : Type 0 where
  returned : Mqtt → Next
  running : Mqtt → Next
  loops : (seconds attempt : ℕ) → Mqtt → Next

-- `pending_requests` is a local variable of the session.
unfoldable pub leave_session : Mqtt → Mqtt
leave_session m = record m { pending_requests = [] }

unfoldable pub after_session : MqttConfig → ℕ → Turn → Next
after_session cfg attempt (again m) = running m
after_session cfg attempt (finished m) = loops 0 0 (leave_session m)
after_session cfg attempt (broken m) =
    loops (backoff_secs cfg attempt) (min u32_max (attempt + 1))
      (leave_session (record m { runtime = set_connected false m.runtime }))

-- A round of the loop: a session that does not find its broker's address returns an error.
unfoldable pub worker_round : MqttConfig → ℕ → List Action → Mqtt → Next
worker_round cfg attempt actions m =
    let session = elim (parse_host_port cfg.broker_address) as (λ _. Turn) [
      | err _ ↦ broken m
      | ok _ ↦ run_mqtt_session actions (record m { pending_requests = [] })
    ] in
    if m.is_closed
    then returned (record m { runtime = set_connected false m.runtime })
    else after_session cfg attempt session
