-- ===== src/Tests/Controllers.antt =====
-- The loop of a controller stream, and the streams side by side.
use g_rpc_relay.Base.{
  ◌+◌, ◌≤◌, ◌≡◌, refl, pos, true, false, none, some, [], ◌∷◌, arith, list_beq, pair_beq, int_beq,
  list_eq, ℕ_eq, ℤ_eq, pair_eq,
}
use g_rpc_relay.Collections.HashMap
use g_rpc_relay.Text
use g_rpc_relay.Text.{str}
use g_rpc_relay.Proto.{ControllerMessage}
use g_rpc_relay.State
use g_rpc_relay.State.{ensure_inflight_waiter}
use g_rpc_relay.Stream
use g_rpc_relay.Stream.{StreamMapping, stream_id, stream_program}
use g_rpc_relay.RateLimiter.Requests
use g_rpc_relay.RateLimiter.Requests.{allow, check_key, maybe_cleanup}
use g_rpc_relay.Auth
use g_rpc_relay.Rbac
use g_rpc_relay.Validator
use g_rpc_relay.Service.{Relay, SecurityMetrics}
use g_rpc_relay.Service
use g_rpc_relay.DeviceStream.{round}
use g_rpc_relay.DeviceStream.Invariant as DeviceInvariant
use g_rpc_relay.DeviceStream.Invariant.{IsSound}
use g_rpc_relay.ControllerStream.{
  ControllerStream, Surroundings, Step, continue, wait, check_message, connect_controller,
  check_controller, check_device, check_permission, check_rate, open_stream, establish,
  check_binding, begin_current, serve, on_message,
}
use g_rpc_relay.ControllerStream.Admission.{IsWellFormed, IsPermitted, on_message-IsPermitted}
use g_rpc_relay.ControllerStream.Answers.{account-serve}
use g_rpc_relay.DeviceStream.Answers.{account, answered}
use g_rpc_relay.ControllerStream.Balance.{Balanced, serve-Balanced}
use g_rpc_relay.ControllerStream.Invariant.{relay_of}
use g_rpc_relay.Interleaving.{
  Reachable, started, moved, device_round, controller_round, cleaned, cleanup_streams, AreInStep,
  Reachable-AreInStep,
}
use g_rpc_relay.Interleaving.AtMostOnce.{asked, answered-Reachable}
use g_rpc_relay.Tests.Data.{
  dev, ctl, decode, relay, auth_config, exact, limits, stream_config, stream, registration,
  state-IsTable,
}
use g_rpc_relay.DeviceStream.{message}

abbrev fresh : ControllerStream
fresh = record { stream_id = none; stream_binding = none; controller_connected = false; out_tx = 8 }

abbrev opened : ControllerStream
opened = record {
  stream_id = some (stream_id 1);
  stream_binding = some (dev, ctl, str "ping");
  controller_connected = true;
  out_tx = 7;
}

abbrev request : ControllerMessage
request = record {
  controller_id = ctl;
  token = str "token-of-ctl";
  target_device_id = dev;
  method_name = str "ping";
  sequence_number = pos 4;
  encrypted_payload = 5 ∷ [];
}

abbrev env : Surroundings
env = record {
  limiter_times = (1, 2, 3, 4);
  created = 5;
  begun = 6;
  recorded = (7, 8, 9);
  finished = 10;
  cached = none;
  waiter = 11;
  is_sent = true;
}

-- The relay before any stream was opened.
abbrev idle : Relay
idle = record relay { router = Stream.new stream_config }

abbrev outcome : Step
outcome = on_message decode idle fresh request env

abbrev stream_of : Step → ControllerStream
stream_of (continue q qs) = qs
stream_of (wait q qs is_new_forwarder) = qs

on_message-IsPermitted_example : IsWellFormed request × IsPermitted decode idle request env
unfolding on_message check_message check_binding establish check_controller check_device
    check_permission check_rate open_stream connect_controller begin_current serve stream_program
    allow check_key maybe_cleanup HashMap.get list_beq Auth.new ensure_inflight_waiter State.new
    Validator.validate_controller_message Validator.validate_controller_id Text.trim Text.len
    Validator.validate_device_id Validator.validate_method_name Validator.is_method_char
    Text.is_ascii_alphanumeric Validator.validate_payload_size Validator.validate_sequence_number
    Auth.authenticate_controller Auth.token_is_revoked Auth.authenticate_controller_table
    Auth.get_device_principal_by_id Service.audited Service.emit Rbac.authorize_controller_to_device
    Rbac.is_method_allowed Requests.new State.increment_controller_connections pair_beq int_beq
on_message-IsPermitted_example =
    on_message-IsPermitted decode idle fresh request env (relay_of outcome) (stream_of outcome)
      false refl refl

abbrev first : StreamMapping
first = record {
  stream_id = stream_id 1;
  device_id = dev;
  controller_id = ctl;
  method_name = str "ping";
  created_at = 0;
  last_activity = 0;
  active_requests = 0;
  controller_tx = 7;
}

serve-Balanced_example : Balanced (stream_id 1) 0 (serve relay opened request env)
unfolding stream_program
serve-Balanced_example =
    serve-Balanced relay opened request env (stream_id 1) first refl refl (omega arith)

account-serve_example :
    account 11 (relay_of (serve relay opened request env)) ≡ account 11 relay + 1
account-serve_example = account-serve 11 opened request env relay state-IsTable

abbrev counters : SecurityMetrics
counters = record {
  auth_success_total = 0;
  auth_failure_total = 0;
  authorization_denied_total = 0;
  rate_limit_total = 0;
  revoked_tokens_total = 0;
}

abbrev start : Relay
start =
    Service.new State.new auth_config exact limits stream_config counters (str "relay:50051") true
      true

abbrev registered : Relay
registered = DeviceInvariant.relay_of (round start stream (message registration 0 true))

registered-Reachable : Reachable decode registered
unfolding Service.new State.new
registered-Reachable =
    moved (started auth_config exact limits stream_config counters (str "relay:50051") true true)
      (device_round start stream (message registration 0 true) (omega arith))

Reachable-AreInStep_example : AreInStep (cleanup_streams registered 9)
Reachable-AreInStep_example =
    Reachable-AreInStep decode (cleanup_streams registered 9)
      (moved registered-Reachable (cleaned registered 9))

-- The device has no session, so the request is answered at once.
abbrev served : Relay
served = relay_of (on_message decode start fresh request env)

served-Reachable : Reachable decode served
unfolding Service.new Stream.new
served-Reachable =
    moved (started auth_config exact limits stream_config counters (str "relay:50051") true true)
      (controller_round start fresh request env (omega arith))

answered-Reachable_example : answered 11 served.events ≤ asked decode 11 served served-Reachable
answered-Reachable_example = answered-Reachable decode 11 served served-Reachable
