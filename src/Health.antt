-- ===== src/Health.antt =====
-- crates/relay/src/observability.rs: the health of the relay and its gauges. A floating-point number
-- is of a type `Float`, to which a whole number is converted by `as_f64`.
use g_rpc_relay.Base.{
  ℕ, ◌+◌, ◌-◌, ◌*◌, ◌/◌, ◌%◌, ◌^◌, Bool, true, false, not, List, [], ◌∷◌, ℤ, pos, negsuc,
  if◌then◌else◌, ltb, ◌==◌, length, list_eq, ℕ_eq,
}
use g_rpc_relay.Text.{Str, str}
use g_rpc_relay.Collections.HashMap
use g_rpc_relay.Collections.HashMap.{HashMap}
use g_rpc_relay.State.{RelayState}
use g_rpc_relay.Stream.{StreamRouter, total_active_streams}
use g_rpc_relay.Mqtt.{MqttRuntimeState}
pub mod Status

pub record ComponentHealth : Type 0 where
  pub status : Str
  pub message : Str

pub record HealthComponents : Type 0 where
  pub grpc_server : ComponentHealth
  pub quic_listener : ComponentHealth
  pub mqtt_client : ComponentHealth
  pub auth_service : ComponentHealth
  pub metrics_collector : ComponentHealth

unfoldable pub statuses : HealthComponents → List Str
statuses c =
    c.grpc_server.status ∷ c.quic_listener.status ∷ c.mqtt_client.status ∷ c.auth_service.status
    ∷ c.metrics_collector.status ∷ []

-- The loop returns at the first status that is neither healthy nor degraded.
unfoldable pub derive_from : (has_degraded : Bool) → List Str → Str
derive_from has_degraded [] = if has_degraded then str "degraded" else str "healthy"
derive_from has_degraded (status ∷ rest) =
    let same = derive_from has_degraded rest in
    let worse = derive_from true rest in
    if status == str "healthy"
    then same
    else if status == str "degraded"
    then worse
    else str "unhealthy"

unfoldable pub derive_overall_status : HealthComponents → Str
derive_overall_status c = derive_from false (statuses c)

-- `as i64` of a 64-bit number.
unfoldable pub as_i64 : ℕ → ℤ
as_i64 n = if ltb n (2 ^ 63) then pos n else negsuc (2 ^ 64 - 1 - n)

unfoldable pub mqtt_health : MqttRuntimeState → ComponentHealth
mqtt_health s =
    if not s.enabled
    then record { status = str "healthy"; message = str "MQTT disabled by config" }
    else if s.connected
    then record { status = str "healthy"; message = str "MQTT connected" }
    else record {
      status = str "degraded";
      message = str "MQTT disconnected; gRPC discovery fallback required";
    }

unfoldable pub components_of : MqttRuntimeState → HealthComponents
components_of s = record {
  grpc_server = record { status = str "healthy"; message = str "gRPC server running" };
  quic_listener = record {
    status = str "degraded";
    message = str "QUIC listener runtime is not active in this crate";
  };
  mqtt_client = mqtt_health s;
  auth_service = record { status = str "healthy"; message = str "auth service running" };
  metrics_collector = record { status = str "healthy"; message = str "metrics collector running" };
}

-- 2, 1 or 0 for a status.
unfoldable pub status_code : Str → ℕ
status_code status =
    if status == str "healthy" then 2 else if status == str "degraded" then 1 else 0

module _ (Float : Type 0) (as_f64 : ℕ → Float) where
  pub record HealthMetrics : Type 0 where
    pub active_device_connections : ℕ
    pub active_controller_connections : ℕ
    pub active_streams : ℕ
    pub cpu_usage_percent : Float
    pub memory_usage_percent : Float

  pub record HealthResponse : Type 0 where
    pub status : Str
    pub timestamp : Str
    pub uptime_seconds : ℕ
    pub version : Str
    pub components : HealthComponents
    pub metrics : HealthMetrics

  -- The gauges that are refreshed.
  pub record Gauges : Type 0 where
    pub active_device_connections : ℤ
    pub active_controller_connections : ℤ
    pub active_streams : ℤ
    pub cpu_usage_percent : Float
    pub memory_usage_percent : Float
    pub memory_used_bytes : Float
    pub mqtt_connected : ℤ
    pub mqtt_reconnect_count : ℤ
    pub mqtt_dropped_count : ℤ
    pub mqtt_queue_pending : ℤ
    pub health_status : ℤ
    pub component_health : HashMap Str Float

  -- The readings of the machine stand for the resource monitor.
  pub record HealthState : Type 0 where
    pub started_at : ℕ
    pub version : Str
    pub cpu_usage_percent : Float
    pub memory_usage_percent : Float
    pub used_memory_mb : ℕ
    pub mqtt_runtime : MqttRuntimeState
    pub relay_state : RelayState
    pub stream_router : StreamRouter
    pub metrics : Gauges
    pub startup_complete : Bool

  unfoldable pub set_component_metric : Str → Str → HashMap Str Float → HashMap Str Float
  set_component_metric component status = HashMap.insert component (as_f64 (status_code status))

  unfoldable pub refresh_runtime_metrics_with_response : HealthResponse → HealthState → HealthState
  refresh_runtime_metrics_with_response r s =
      let m0 = s.metrics.component_health in
      let m1 = set_component_metric (str "grpc_server") r.components.grpc_server.status m0 in
      let m2 = set_component_metric (str "quic_listener") r.components.quic_listener.status m1 in
      let m3 = set_component_metric (str "mqtt_client") r.components.mqtt_client.status m2 in
      let m4 = set_component_metric (str "auth_service") r.components.auth_service.status m3 in
      let m5 =
        set_component_metric (str "metrics_collector") r.components.metrics_collector.status m4 in
      record s {
        metrics = record {
          active_device_connections = as_i64 r.metrics.active_device_connections;
          active_controller_connections = as_i64 r.metrics.active_controller_connections;
          active_streams = as_i64 r.metrics.active_streams;
          cpu_usage_percent = r.metrics.cpu_usage_percent;
          memory_usage_percent = r.metrics.memory_usage_percent;
          memory_used_bytes = as_f64 (s.used_memory_mb * 1024 * 1024 % 2 ^ 64);
          mqtt_connected = if s.mqtt_runtime.connected then pos 1 else pos 0;
          mqtt_reconnect_count = as_i64 s.mqtt_runtime.reconnect_count;
          mqtt_dropped_count = as_i64 s.mqtt_runtime.dropped_total;
          mqtt_queue_pending = as_i64 s.mqtt_runtime.queue_pending;
          health_status = pos (status_code r.status);
          component_health = m5;
        };
      }

  -- Times are nanoseconds; `timestamp` is the time of day as a text.
  unfoldable pub build_health_response :
      (timestamp : Str) → (now : ℕ) → HealthState → HealthResponse × HealthState
  build_health_response timestamp now s =
      let components = components_of s.mqtt_runtime in
      let response : HealthResponse = record {
        status = derive_overall_status components;
        timestamp = timestamp;
        uptime_seconds = (now - s.started_at) / 1_000_000_000;
        version = s.version;
        components = components;
        metrics = record {
          active_device_connections = length s.relay_state.sessions_by_device_id;
          active_controller_connections = s.relay_state.controller_connection_count;
          active_streams = total_active_streams s.stream_router;
          cpu_usage_percent = s.cpu_usage_percent;
          memory_usage_percent = s.memory_usage_percent;
        };
      } in
      (response, refresh_runtime_metrics_with_response response s)

  -- The HTTP status, what is sent with it, and the state with its gauges refreshed.
  unfoldable pub ready :
      (timestamp : Str) → (now : ℕ) → HealthState → ℕ × HealthResponse × HealthState
  ready timestamp now s =
      let (response, s1) = build_health_response timestamp now s in
      if response.status == str "unhealthy" then (503, response, s1) else (200, response, s1)

  unfoldable pub startup :
      (timestamp : Str) → (now : ℕ) → HealthState → ℕ × HealthResponse × HealthState
  startup timestamp now s =
      let (response, s1) = build_health_response timestamp now s in
      if s.startup_complete then (200, response, s1) else (503, response, s1)
