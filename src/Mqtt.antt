-- ===== src/Mqtt.antt =====
-- crates/relay/src/mqtt.rs: the publisher of device events. Tasks that hold a clone of the
-- publisher put requests into a bounded channel; one worker takes them out. A publisher's `try_send`
-- and its update of `queue_pending` are two steps, between which the worker and other publishers
-- can run.
pub mod Address
pub mod AddressRoundTrip
pub mod Worker
pub mod Reconnect
pub mod Session
pub mod Order
pub mod Departures
pub mod Count
pub mod Drain
use g_rpc_relay.Base.{
  ℕ, ◌+◌, ◌-◌, ◌%◌, ◌^◌, Bool, true, false, List, [], ◌∷◌, ◌++◌, map, if◌then◌else◌, ltb, length,
  list_eq, ℕ_eq,
}
use g_rpc_relay.Collections.HashMap.{HashMap}
use g_rpc_relay.Text.{Str, str}
use g_rpc_relay.State.{RelayState, DeviceSession}

-- `MQTT_PUBLISH_QUEUE_CAPACITY`
abbrev pub queue_capacity : ℕ
queue_capacity = 256

abbrev pub u64_mod : ℕ
u64_mod = 2 ^ 64

pub data MqttPublishRequest : Type 0 where
  device_online :
      (device_id connection_id relay_address : Str) → HashMap Str Str → MqttPublishRequest
  device_offline : (device_id connection_id reason : Str) → MqttPublishRequest

pub record MqttRuntimeState : Type 0 where
  pub enabled : Bool
  pub connected : Bool
  pub reconnect_count : ℕ
  pub dropped_total : ℕ
  pub queue_pending : ℕ

unfoldable pub new : Bool → MqttRuntimeState
new enabled = record {
  enabled = enabled;
  connected = false;
  reconnect_count = 0;
  dropped_total = 0;
  queue_pending = 0;
}

-- `fetch_add` wraps.
unfoldable pub set_connected : Bool → MqttRuntimeState → MqttRuntimeState
set_connected value s = record s { connected = value }

unfoldable pub increment_reconnect_count : MqttRuntimeState → MqttRuntimeState
increment_reconnect_count s = record s { reconnect_count = (s.reconnect_count + 1) % u64_mod }

unfoldable pub increment_dropped_total : MqttRuntimeState → MqttRuntimeState
increment_dropped_total s = record s { dropped_total = (s.dropped_total + 1) % u64_mod }

unfoldable pub increment_queue_pending : MqttRuntimeState → MqttRuntimeState
increment_queue_pending s = record s { queue_pending = (s.queue_pending + 1) % u64_mod }

-- `saturating_sub`
unfoldable pub decrement_queue_pending : MqttRuntimeState → MqttRuntimeState
decrement_queue_pending s = record s { queue_pending = s.queue_pending - 1 }

-- What happened to a request, or to a message of the worker's own.
pub data Outcome : Type 0 where
  sent failed evicted : MqttPublishRequest → Outcome
  snapshot : MqttPublishRequest → (accepted : Bool) → Outcome
  telemetry : (accepted : Bool) → Outcome

-- The runtime state, the buffer of the channel `rx`, the number of publishers whose `try_send` has
-- succeeded and that have not updated `queue_pending` yet, whether every sender is gone, the
-- worker's `pending_requests` and `has_connected_once`, and a log of what it did.
pub record Mqtt : Type 0 where
  pub runtime : MqttRuntimeState
  pub rx : List MqttPublishRequest
  pub uncounted : ℕ
  pub is_closed : Bool
  pub pending_requests : List MqttPublishRequest
  pub has_connected_once : Bool
  pub log : List Outcome

-- Whether `try_send` finds room. The worker holds the receiver for as long as it runs.
unfoldable pub has_room : Mqtt → Bool
has_room m = ltb (length m.rx) queue_capacity

-- `publish_device_online` and `publish_device_offline`, from the request on: `try_send`, and the
-- arm of the match for its failure. The arm for its success is `count_published`.
unfoldable pub publish : MqttPublishRequest → Mqtt → Mqtt
publish req m =
    if has_room m
    then record m { rx = m.rx ++ req ∷ []; uncounted = m.uncounted + 1 }
    else record m { runtime = increment_dropped_total m.runtime }

-- A publisher whose request is in the channel counts it, if there is such a publisher.
unfoldable pub count_published : Mqtt → Mqtt
count_published m =
    if ltb 0 m.uncounted
    then record m { uncounted = m.uncounted - 1; runtime = increment_queue_pending m.runtime }
    else m

unfoldable pub publish_device_online :
    (device_id connection_id relay_address : Str) → HashMap Str Str → Mqtt → Mqtt
publish_device_online device_id connection_id relay_address metadata =
    publish (device_online device_id connection_id relay_address metadata)

unfoldable pub publish_device_offline : (device_id connection_id reason : Str) → Mqtt → Mqtt
publish_device_offline device_id connection_id reason =
    publish (device_offline device_id connection_id reason)

unfoldable pub online_session_snapshot : RelayState → Str → List MqttPublishRequest
online_session_snapshot s relay_address = map online s.sessions_by_device_id
  where
    online : Str × DeviceSession → MqttPublishRequest
    online (_, session) =
        device_online session.device_id session.connection_id relay_address session.metadata

-- A message as the client is handed it: at least once, and kept by the broker for `online`.
pub record Publication : Type 0 where
  pub topic : Str
  pub is_retained : Bool
  pub payload : MqttPublishRequest
  pub timestamp : Str

unfoldable pub publication : MqttPublishRequest → Str → Publication
publication (device_online d c a m) now = record {
  topic = str "relay/device/online";
  is_retained = true;
  payload = device_online d c a m;
  timestamp = now;
}
publication (device_offline d c reason) now = record {
  topic = str "relay/device/offline";
  is_retained = false;
  payload = device_offline d c reason;
  timestamp = now;
}
