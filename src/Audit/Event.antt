-- ===== src/Audit/Event.antt =====
-- crates/relay/src/audit.rs, `AuditEvent`. A JSON value is its text and a floating-point number its
-- bits; the names of the events are those of the serialized form.
use g_rpc_relay.Base.{ℕ, Bool, Option, ℤ}
use g_rpc_relay.Text.{Str, str}

pub data AuditEvent : Type 0 where
  device_connect_event :
      (timestamp relay_id device_id connection_id source_ip : Str) (metadata : Option Str)
      → AuditEvent
  device_disconnect_event :
      (timestamp relay_id device_id connection_id reason source_ip : Str) → AuditEvent
  device_register_event :
      (timestamp relay_id device_id connection_id : Str) (previous_connection_id : Option Str)
      (session_resumed : Bool) (source_ip : Str)
      → AuditEvent
  controller_connect_event :
      (timestamp relay_id controller_id source_ip : Str) (user_agent : Option Str) → AuditEvent
  controller_disconnect_event : (timestamp relay_id controller_id : Str) → AuditEvent
  controller_request_event :
      (timestamp relay_id controller_id device_id connection_id method_name : Str)
      (sequence_number : ℤ) (result : Str) (error_code : Option Str)
      (latency_ms bytes_transferred : Option ℕ) (source_ip : Str) (user_agent metadata : Option Str)
      → AuditEvent
  stream_created_event :
      (timestamp relay_id stream_id device_id controller_id method_name source_ip : Str)
      → AuditEvent
  stream_closed_event :
      (timestamp relay_id stream_id device_id controller_id reason : Str)
      (bytes_transferred : Option ℕ)
      → AuditEvent
  auth_failure_event :
      (timestamp relay_id entity_type entity_id reason source_ip : Str) (token_prefix : Option Str)
      → AuditEvent
  auth_success_event : (timestamp relay_id entity_type entity_id source_ip : Str) → AuditEvent
  authorization_denied_event :
      (timestamp relay_id controller_id device_id method_name reason source_ip : Str) → AuditEvent
  rate_limit_event :
      (timestamp relay_id entity_type entity_id limit_kind source_ip : Str) → AuditEvent
  session_resumed_event :
      (timestamp relay_id device_id old_connection_id new_connection_id source_ip : Str)
      → AuditEvent
  session_expired_event : (timestamp relay_id device_id connection_id source_ip : Str) → AuditEvent
  error_event : (timestamp relay_id message error_code : Str) (context : Option Str) → AuditEvent

abbrev pub event_type : AuditEvent → Str
event_type (device_connect_event _ _ _ _ _ _) = str "device_connect"
event_type (device_disconnect_event _ _ _ _ _ _) = str "device_disconnect"
event_type (device_register_event _ _ _ _ _ _ _) = str "device_register"
event_type (controller_connect_event _ _ _ _ _) = str "controller_connect"
event_type (controller_disconnect_event _ _ _) = str "controller_disconnect"
event_type (controller_request_event _ _ _ _ _ _ _ _ _ _ _ _ _ _) = str "controller_request"
event_type (stream_created_event _ _ _ _ _ _ _) = str "stream_created"
event_type (stream_closed_event _ _ _ _ _ _ _) = str "stream_closed"
event_type (auth_failure_event _ _ _ _ _ _ _) = str "auth_failure"
event_type (auth_success_event _ _ _ _ _) = str "auth_success"
event_type (authorization_denied_event _ _ _ _ _ _ _) = str "authorization_denied"
event_type (rate_limit_event _ _ _ _ _ _) = str "rate_limit"
event_type (session_resumed_event _ _ _ _ _ _) = str "session_resumed"
event_type (session_expired_event _ _ _ _ _) = str "session_expired"
event_type (error_event _ _ _ _ _) = str "error"
