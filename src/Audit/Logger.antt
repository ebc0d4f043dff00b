-- ===== src/Audit/Logger.antt =====
-- crates/relay/src/audit.rs, `AuditLogger`: its methods put events into a bounded channel, from which
-- a task takes them to the writer.
use g_rpc_relay.Base.{
  ℕ, ◌+◌, ◌%◌, ◌^◌, Bool, true, Option, none, some, List, [], ◌∷◌, ◌++◌, ℤ, if◌then◌else◌, ltb,
  length, any, ◌==◌, list_eq, ℕ_eq,
}
use g_rpc_relay.Text.{Str, str}
use g_rpc_relay.Audit.Event.{
  AuditEvent, device_connect_event, device_disconnect_event, device_register_event,
  controller_connect_event, controller_disconnect_event, controller_request_event,
  stream_created_event, stream_closed_event, auth_failure_event, auth_success_event,
  authorization_denied_event, rate_limit_event, session_resumed_event, session_expired_event,
  error_event,
}

abbrev pub channel_capacity : ℕ
channel_capacity = 4096

abbrev pub u64_mod : ℕ
u64_mod = 2 ^ 64

-- `rx` is the buffer of the channel and `written` what its task has handed to the writer.
pub record AuditLogger : Type 0 where
  pub relay_id : Str
  pub enabled_events : Option (List Str)
  pub dropped_events : ℕ
  pub rx : List AuditEvent
  pub written : List AuditEvent

-- An empty list of events stands for all of them.
unfoldable pub new : (enabled : Bool) → (events : List Str) → (relay_id : Str) → Option AuditLogger
new enabled events relay_id =
    if enabled
    then some (record {
      relay_id = relay_id;
      enabled_events = elim events [ [] ↦ none | name ∷ names ↦ some (name ∷ names) ];
      dropped_events = 0;
      rx = [];
      written = [];
    })
    else none

unfoldable pub should_log : AuditLogger → Str → Bool
should_log l name = elim l.enabled_events [
  | none ↦ true
  | some events ↦ any (λ (e : Str). e == name) events
]

-- `try_send` of the serialized event.
unfoldable pub send : AuditEvent → AuditLogger → AuditLogger
send event l =
    if ltb (length l.rx) channel_capacity
    then record l { rx = l.rx ++ event ∷ [] }
    else record l { dropped_events = (l.dropped_events + 1) % u64_mod }

-- A round of the task, for what the channel holds.
unfoldable pub take_from : List AuditEvent → AuditLogger → AuditLogger
take_from [] l = l
take_from (event ∷ events) l = record l { rx = events; written = l.written ++ event ∷ [] }

unfoldable pub take_next : AuditLogger → AuditLogger
take_next l = take_from l.rx l

unfoldable pub device_connect :
    (now : Str) (device_id connection_id source_ip : Str) (metadata : Option Str)
    → AuditLogger
    → AuditLogger
device_connect now device_id connection_id source_ip metadata l =
    if should_log l (str "device_connect")
    then send (device_connect_event now l.relay_id device_id connection_id source_ip metadata) l
    else l

unfoldable pub device_disconnect :
    (now : Str) (device_id connection_id reason source_ip : Str) → AuditLogger → AuditLogger
device_disconnect now device_id connection_id reason source_ip l =
    if should_log l (str "device_disconnect")
    then send (device_disconnect_event now l.relay_id device_id connection_id reason source_ip) l
    else l

unfoldable pub device_register :
    (now : Str) (device_id connection_id : Str) (previous_connection_id : Option Str)
    (session_resumed : Bool) (source_ip : Str)
    → AuditLogger
    → AuditLogger
device_register now device_id connection_id previous_connection_id session_resumed source_ip l =
    if should_log l (str "device_register")
    then send
        (device_register_event now l.relay_id device_id connection_id previous_connection_id
          session_resumed source_ip)
        l
    else l

unfoldable pub controller_connect :
    (now : Str) (controller_id source_ip : Str) (user_agent : Option Str)
    → AuditLogger
    → AuditLogger
controller_connect now controller_id source_ip user_agent l =
    if should_log l (str "controller_connect")
    then send (controller_connect_event now l.relay_id controller_id source_ip user_agent) l
    else l

unfoldable pub controller_disconnect : (now : Str) (controller_id : Str) → AuditLogger → AuditLogger
controller_disconnect now controller_id l =
    if should_log l (str "controller_disconnect")
    then send (controller_disconnect_event now l.relay_id controller_id) l
    else l

unfoldable pub controller_request :
    (now : Str) (controller_id device_id connection_id method_name : Str) (sequence_number : ℤ)
    (result : Str) (error_code : Option Str) (latency_ms bytes_transferred : Option ℕ)
    (source_ip : Str) (user_agent metadata : Option Str)
    → AuditLogger
    → AuditLogger
controller_request now controller_id device_id connection_id method_name sequence_number result
      error_code latency_ms bytes_transferred source_ip user_agent metadata l =
    if should_log l (str "controller_request")
    then send
        (controller_request_event now l.relay_id controller_id device_id connection_id method_name
          sequence_number result error_code latency_ms bytes_transferred source_ip user_agent
          metadata)
        l
    else l

unfoldable pub stream_created :
    (now : Str) (stream_id device_id controller_id method_name source_ip : Str)
    → AuditLogger
    → AuditLogger
stream_created now stream_id device_id controller_id method_name source_ip l =
    if should_log l (str "stream_created")
    then send
        (stream_created_event now l.relay_id stream_id device_id controller_id method_name
          source_ip)
        l
    else l

unfoldable pub stream_closed :
    (now : Str) (stream_id device_id controller_id reason : Str) (bytes_transferred : Option ℕ)
    → AuditLogger
    → AuditLogger
stream_closed now stream_id device_id controller_id reason bytes_transferred l =
    if should_log l (str "stream_closed")
    then send
        (stream_closed_event now l.relay_id stream_id device_id controller_id reason
          bytes_transferred)
        l
    else l

unfoldable pub auth_failure :
    (now : Str) (entity_type entity_id reason source_ip : Str) (token_prefix : Option Str)
    → AuditLogger
    → AuditLogger
auth_failure now entity_type entity_id reason source_ip token_prefix l =
    if should_log l (str "auth_failure")
    then send
        (auth_failure_event now l.relay_id entity_type entity_id reason source_ip token_prefix) l
    else l

unfoldable pub auth_success :
    (now : Str) (entity_type entity_id source_ip : Str) → AuditLogger → AuditLogger
auth_success now entity_type entity_id source_ip l =
    if should_log l (str "auth_success")
    then send (auth_success_event now l.relay_id entity_type entity_id source_ip) l
    else l

unfoldable pub authorization_denied :
    (now : Str) (controller_id device_id method_name reason source_ip : Str)
    → AuditLogger
    → AuditLogger
authorization_denied now controller_id device_id method_name reason source_ip l =
    if should_log l (str "authorization_denied")
    then send
        (authorization_denied_event now l.relay_id controller_id device_id method_name reason
          source_ip)
        l
    else l

unfoldable pub rate_limit :
    (now : Str) (entity_type entity_id limit_kind source_ip : Str) → AuditLogger → AuditLogger
rate_limit now entity_type entity_id limit_kind source_ip l =
    if should_log l (str "rate_limit")
    then send (rate_limit_event now l.relay_id entity_type entity_id limit_kind source_ip) l
    else l

unfoldable pub session_resumed :
    (now : Str) (device_id old_connection_id new_connection_id source_ip : Str)
    → AuditLogger
    → AuditLogger
session_resumed now device_id old_connection_id new_connection_id source_ip l =
    if should_log l (str "session_resumed")
    then send
        (session_resumed_event now l.relay_id device_id old_connection_id new_connection_id
          source_ip)
        l
    else l

unfoldable pub session_expired :
    (now : Str) (device_id connection_id source_ip : Str) → AuditLogger → AuditLogger
session_expired now device_id connection_id source_ip l =
    if should_log l (str "session_expired")
    then send (session_expired_event now l.relay_id device_id connection_id source_ip) l
    else l

unfoldable pub error :
    (now : Str) (message error_code : Str) (context : Option Str) → AuditLogger → AuditLogger
error now message error_code context l =
    if should_log l (str "error")
    then send (error_event now l.relay_id message error_code context) l
    else l
