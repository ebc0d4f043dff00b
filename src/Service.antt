-- ===== src/Service.antt =====
-- crates/relay/src/grpc_service.rs, `RelayGrpcService`: what the handlers share, and what they send
-- out: messages, MQTT publications, audit records and metrics, in the order in which they are made.
-- Records that only go to the tracing log are left out.
mod Metrics
pub use Metrics.{SecurityMetrics}
unfoldable pub use Metrics.{
  record_auth_success, record_auth_failure, record_authorization_denied, record_rate_limit,
  record_revoked_token,
}
use g_rpc_relay.Base.{
  ℕ, ℤ, Bool, Option, List, [], ◌∷◌, ◌++◌, map, if◌then◌else◌, list_eq, ℕ_eq, ℤ_eq, pair_eq,
}
use g_rpc_relay.Collections.HashMap.{HashMap}
use g_rpc_relay.Text.{Str}
use g_rpc_relay.Proto.{RelayMessage, DeviceResponse}
use g_rpc_relay.State.{RelayState}
use g_rpc_relay.State.Inflight.{Delivery}
use g_rpc_relay.Stream
use g_rpc_relay.Stream.{StreamRouter, StreamConfig}
use g_rpc_relay.RateLimiter.{RateLimitConfig}
use g_rpc_relay.RateLimiter.Requests
use g_rpc_relay.RateLimiter.Connections
use g_rpc_relay.RateLimiter.Bandwidth
use g_rpc_relay.Auth
use g_rpc_relay.Rbac
use g_rpc_relay.RateLimiter.Requests.{RateLimiter, Refill}
use g_rpc_relay.RateLimiter.Connections.{ConnectionRateLimiter}
use g_rpc_relay.RateLimiter.Bandwidth.{BandwidthTracker}
use g_rpc_relay.Auth.{AuthService, AuthConfig}
use g_rpc_relay.Rbac.{RbacPolicyEngine}

-- The calls of the audit logger.
pub data AuditEvent : Type 0 where
  auth_success : (entity_type entity_id : Str) → AuditEvent
  auth_failure : (entity_type entity_id reason : Str) → (token_prefix : Option Str) → AuditEvent
  rate_limit : (entity_type entity_id limit_type : Str) → AuditEvent
  device_connect : (device_id connection_id : Str) → HashMap Str Str → AuditEvent
  session_resumed : (device_id previous_connection_id connection_id : Str) → AuditEvent
  device_disconnect : (device_id connection_id reason : Str) → AuditEvent
  controller_connect : (controller_id : Str) → AuditEvent
  controller_disconnect : (controller_id : Str) → AuditEvent
  authorization_denied : (controller_id device_id method_name reason : Str) → AuditEvent
  stream_created : (stream_id device_id controller_id method_name : Str) → AuditEvent
  stream_closed : (stream_id device_id controller_id : Str) → AuditEvent
  controller_request : (controller_id device_id method_name : Str) → ℤ → (result : Str) → AuditEvent
  failure : (message error_code : Str) → AuditEvent

pub data Event : Type 0 where
  -- a message on the channel of a device stream, or of a controller stream
  to_device : ℕ → RelayMessage → Event
  to_controller : ℕ → DeviceResponse → Event
  -- a response on the one-shot channel of a waiter
  deliver : ℕ → DeviceResponse → Event
  device_online : (device_id connection_id relay_address : Str) → HashMap Str Str → Event
  device_offline : (device_id connection_id reason : Str) → Event
  audit : AuditEvent → Event
  -- `requests_total`, `request_latency_seconds`, `bytes_transferred_total` and `active_streams`
  request_counted : (method_name status : Str) → Event
  latency_observed : (method_name status : Str) → ℕ → Event
  bytes_counted : (direction : Str) → ℕ → Event
  active_streams_set : ℕ → Event
  -- an entry that is put into the idempotency cache
  cache_inserted : Str → ℤ → DeviceResponse → Event

pub record Relay : Type 0 where
  pub state : RelayState
  pub router : StreamRouter
  pub auth : AuthService
  pub rbac : RbacPolicyEngine
  pub rate_limiter : RateLimiter
  pub connection_limiter : ConnectionRateLimiter
  pub bandwidth_tracker : BandwidthTracker
  pub security_metrics : SecurityMetrics
  pub relay_address : Str
  -- whether the two optional parts are there
  pub has_mqtt : Bool
  pub has_audit : Bool
  pub events : List Event

-- `RelayGrpcService::new`.
unfoldable pub new :
    RelayState
    → AuthConfig
    → Refill
    → RateLimitConfig
    → StreamConfig
    → SecurityMetrics
    → (relay_address : Str) (has_mqtt has_audit : Bool) → Relay
new state auth refill limits streams security_metrics relay_address has_mqtt has_audit = record {
  state = state;
  router = Stream.new streams;
  auth = Auth.new auth;
  rbac = Rbac.new auth;
  rate_limiter = Requests.new refill limits;
  connection_limiter = Connections.new limits;
  bandwidth_tracker = Bandwidth.new limits;
  security_metrics = security_metrics;
  relay_address = relay_address;
  has_mqtt = has_mqtt;
  has_audit = has_audit;
  events = [];
}

unfoldable pub emit : Event → Relay → Relay
emit e r = record r { events = r.events ++ e ∷ [] }

-- `if let Some(ref audit) = audit_logger`
unfoldable pub audited : AuditEvent → Relay → Relay
audited e r = record r { events = r.events ++ (if r.has_audit then audit e ∷ [] else []) }

-- `if let Some(ref mqtt) = mqtt_publisher`
unfoldable pub published : Event → Relay → Relay
published e r = record r { events = r.events ++ (if r.has_mqtt then e ∷ [] else []) }

abbrev pub delivery : Delivery → Event
delivery (waiter, resp) = deliver waiter resp

unfoldable pub deliver_all : List Delivery → Relay → Relay
deliver_all ds r = record r { events = r.events ++ map delivery ds }
