-- ===== src/Audit/Calls.antt =====
-- crates/relay/src/audit.rs: a call of any method of `AuditLogger`.
use g_rpc_relay.Base.{ℕ, ◌≡◌, refl, Bool, Option, ℤ, if◌then◌else◌, list_eq, ℕ_eq}
use g_rpc_relay.Text.{Str}
use g_rpc_relay.Audit.Event.{
  AuditEvent, event_type, device_connect_event, device_disconnect_event, device_register_event,
  controller_connect_event, controller_disconnect_event, controller_request_event,
  stream_created_event, stream_closed_event, auth_failure_event, auth_success_event,
  authorization_denied_event, rate_limit_event, session_resumed_event, session_expired_event,
  error_event,
}
use g_rpc_relay.Audit.Logger.{
  AuditLogger, should_log, send, device_connect, device_disconnect, device_register,
  controller_connect, controller_disconnect, controller_request, stream_created, stream_closed,
  auth_failure, auth_success, authorization_denied, rate_limit, session_resumed, session_expired,
  error,
}

pub data Call : Type 0 where
  call_device_connect : (device_id connection_id source_ip : Str) (metadata : Option Str) → Call
  call_device_disconnect : (device_id connection_id reason source_ip : Str) → Call
  call_device_register :
      (device_id connection_id : Str) (previous_connection_id : Option Str) (session_resumed : Bool)
      (source_ip : Str)
      → Call
  call_controller_connect : (controller_id source_ip : Str) (user_agent : Option Str) → Call
  call_controller_disconnect : (controller_id : Str) → Call
  call_controller_request :
      (controller_id device_id connection_id method_name : Str) (sequence_number : ℤ) (result : Str)
      (error_code : Option Str) (latency_ms bytes_transferred : Option ℕ) (source_ip : Str)
      (user_agent metadata : Option Str)
      → Call
  call_stream_created : (stream_id device_id controller_id method_name source_ip : Str) → Call
  call_stream_closed :
      (stream_id device_id controller_id reason : Str) (bytes_transferred : Option ℕ) → Call
  call_auth_failure :
      (entity_type entity_id reason source_ip : Str) (token_prefix : Option Str) → Call
  call_auth_success : (entity_type entity_id source_ip : Str) → Call
  call_authorization_denied : (controller_id device_id method_name reason source_ip : Str) → Call
  call_rate_limit : (entity_type entity_id limit_kind source_ip : Str) → Call
  call_session_resumed : (device_id old_connection_id new_connection_id source_ip : Str) → Call
  call_session_expired : (device_id connection_id source_ip : Str) → Call
  call_error : (message error_code : Str) (context : Option Str) → Call

unfoldable pub call : Call → (now : Str) → AuditLogger → AuditLogger
call (call_device_connect device_id connection_id source_ip metadata) now =
    device_connect now device_id connection_id source_ip metadata
call (call_device_disconnect device_id connection_id reason source_ip) now =
    device_disconnect now device_id connection_id reason source_ip
call (call_device_register device_id connection_id previous_connection_id session_resumed source_ip)
      now =
    device_register now device_id connection_id previous_connection_id session_resumed source_ip
call (call_controller_connect controller_id source_ip user_agent) now =
    controller_connect now controller_id source_ip user_agent
call (call_controller_disconnect controller_id) now = controller_disconnect now controller_id
call
      (call_controller_request controller_id device_id connection_id method_name sequence_number
        result error_code latency_ms bytes_transferred source_ip user_agent metadata)
      now =
    controller_request now controller_id device_id connection_id method_name sequence_number result
      error_code latency_ms bytes_transferred source_ip user_agent metadata
call (call_stream_created stream_id device_id controller_id method_name source_ip) now =
    stream_created now stream_id device_id controller_id method_name source_ip
call (call_stream_closed stream_id device_id controller_id reason bytes_transferred) now =
    stream_closed now stream_id device_id controller_id reason bytes_transferred
call (call_auth_failure entity_type entity_id reason source_ip token_prefix) now =
    auth_failure now entity_type entity_id reason source_ip token_prefix
call (call_auth_success entity_type entity_id source_ip) now =
    auth_success now entity_type entity_id source_ip
call (call_authorization_denied controller_id device_id method_name reason source_ip) now =
    authorization_denied now controller_id device_id method_name reason source_ip
call (call_rate_limit entity_type entity_id limit_kind source_ip) now =
    rate_limit now entity_type entity_id limit_kind source_ip
call (call_session_resumed device_id old_connection_id new_connection_id source_ip) now =
    session_resumed now device_id old_connection_id new_connection_id source_ip
call (call_session_expired device_id connection_id source_ip) now =
    session_expired now device_id connection_id source_ip
call (call_error message error_code context) now = error now message error_code context

-- The event that a call is about.
abbrev pub event_of : Call → (now relay_id : Str) → AuditEvent
event_of (call_device_connect device_id connection_id source_ip metadata) now relay_id =
    device_connect_event now relay_id device_id connection_id source_ip metadata
event_of (call_device_disconnect device_id connection_id reason source_ip) now relay_id =
    device_disconnect_event now relay_id device_id connection_id reason source_ip
event_of
      (call_device_register device_id connection_id previous_connection_id session_resumed
        source_ip)
      now relay_id =
    device_register_event now relay_id device_id connection_id previous_connection_id
      session_resumed source_ip
event_of (call_controller_connect controller_id source_ip user_agent) now relay_id =
    controller_connect_event now relay_id controller_id source_ip user_agent
event_of (call_controller_disconnect controller_id) now relay_id =
    controller_disconnect_event now relay_id controller_id
event_of
      (call_controller_request controller_id device_id connection_id method_name sequence_number
        result error_code latency_ms bytes_transferred source_ip user_agent metadata)
      now relay_id =
    controller_request_event now relay_id controller_id device_id connection_id method_name
      sequence_number result error_code latency_ms bytes_transferred source_ip user_agent metadata
event_of (call_stream_created stream_id device_id controller_id method_name source_ip) now
      relay_id =
    stream_created_event now relay_id stream_id device_id controller_id method_name source_ip
event_of (call_stream_closed stream_id device_id controller_id reason bytes_transferred) now
      relay_id =
    stream_closed_event now relay_id stream_id device_id controller_id reason bytes_transferred
event_of (call_auth_failure entity_type entity_id reason source_ip token_prefix) now relay_id =
    auth_failure_event now relay_id entity_type entity_id reason source_ip token_prefix
event_of (call_auth_success entity_type entity_id source_ip) now relay_id =
    auth_success_event now relay_id entity_type entity_id source_ip
event_of (call_authorization_denied controller_id device_id method_name reason source_ip) now
      relay_id =
    authorization_denied_event now relay_id controller_id device_id method_name reason source_ip
event_of (call_rate_limit entity_type entity_id limit_kind source_ip) now relay_id =
    rate_limit_event now relay_id entity_type entity_id limit_kind source_ip
event_of (call_session_resumed device_id old_connection_id new_connection_id source_ip) now
      relay_id =
    session_resumed_event now relay_id device_id old_connection_id new_connection_id source_ip
event_of (call_session_expired device_id connection_id source_ip) now relay_id =
    session_expired_event now relay_id device_id connection_id source_ip
event_of (call_error message error_code context) now relay_id =
    error_event now relay_id message error_code context

-- Each of the fifteen methods logs its event exactly when the name under which that event is written
-- is one of the enabled ones.
pub call_lem :
    (c : Call) (now : Str) (l : AuditLogger)
    → call c now l ≡ (
        if should_log l (event_type (event_of c now l.relay_id))
        then send (event_of c now l.relay_id) l
        else l)
unfolding call device_connect device_disconnect device_register controller_connect
    controller_disconnect controller_request stream_created stream_closed auth_failure auth_success
    authorization_denied rate_limit session_resumed session_expired error
call_lem (call_device_connect device_id connection_id source_ip metadata) now l = refl
call_lem (call_device_disconnect device_id connection_id reason source_ip) now l = refl
call_lem
      (call_device_register device_id connection_id previous_connection_id session_resumed
        source_ip)
      now l =
    refl
call_lem (call_controller_connect controller_id source_ip user_agent) now l = refl
call_lem (call_controller_disconnect controller_id) now l = refl
call_lem
      (call_controller_request controller_id device_id connection_id method_name sequence_number
        result error_code latency_ms bytes_transferred source_ip user_agent metadata)
      now l =
    refl
call_lem (call_stream_created stream_id device_id controller_id method_name source_ip) now l = refl
call_lem (call_stream_closed stream_id device_id controller_id reason bytes_transferred) now l =
    refl
call_lem (call_auth_failure entity_type entity_id reason source_ip token_prefix) now l = refl
call_lem (call_auth_success entity_type entity_id source_ip) now l = refl
call_lem (call_authorization_denied controller_id device_id method_name reason source_ip) now l =
    refl
call_lem (call_rate_limit entity_type entity_id limit_kind source_ip) now l = refl
call_lem (call_session_resumed device_id old_connection_id new_connection_id source_ip) now l = refl
call_lem (call_session_expired device_id connection_id source_ip) now l = refl
call_lem (call_error message error_code context) now l = refl
