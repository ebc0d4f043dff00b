-- ===== src/Tests/Data.antt =====
-- A relay with one configured device and one configured controller.
use g_rpc_relay.Base.{
  ◌+◌, ◌*◌, pos, true, false, none, some, List, [], ◌∷◌, arith, list_eq, ℕ_eq, ℤ_eq, pair_eq,
}
use g_rpc_relay.Collections.HashMap
use g_rpc_relay.Collections.HashMap.{HashMap}
use g_rpc_relay.Text.{Str, str}
use g_rpc_relay.Proto.{DeviceMessage, DataResponse, register, data_response}
use g_rpc_relay.State
use g_rpc_relay.State.{RelayState, ensure_inflight_waiter}
use g_rpc_relay.State.Sessions.{IsConsistent, new-IsConsistent}
use g_rpc_relay.State.Waiters.{IsTable, new-IsTable, ensure_inflight_waiter-IsTable}
use g_rpc_relay.Stream
use g_rpc_relay.Stream.{StreamConfig, StreamRouter, create_mapping}
use g_rpc_relay.Stream.Invariant.{IsIndexed, new-IsIndexed}
use g_rpc_relay.Stream.Create.{create_mapping-IsIndexed}
use g_rpc_relay.RateLimiter.{RateLimitConfig}
use g_rpc_relay.RateLimiter.Requests
use g_rpc_relay.RateLimiter.Requests.{Refill, grain}
use g_rpc_relay.RateLimiter.Connections
use g_rpc_relay.RateLimiter.Bandwidth
use g_rpc_relay.Auth
use g_rpc_relay.Auth.{AuthConfig, AuthService, ControllerAuthEntry, DeviceAuthEntry, Decode}
use g_rpc_relay.Service.{Relay}
use g_rpc_relay.DeviceStream.{DeviceStream, Inbound, message, end_of_stream}
use g_rpc_relay.DeviceStream.Frames.{shared}
use g_rpc_relay.DeviceStream.Invariant.{IsSound}

abbrev pub dev : Str
dev = str "dev-1"

abbrev pub ctl : Str
ctl = str "ctl-1"

abbrev pub secret_token : Str
secret_token = str "token-of-dev"

abbrev pub device_entry : DeviceAuthEntry
device_entry = record { device_id = dev; project_id = str "p1" }

abbrev pub controller_entry : ControllerAuthEntry
controller_entry = record {
  controller_id = ctl;
  role = str "operator";
  allowed_project_ids = str "p1" ∷ [];
}

abbrev pub auth_config : AuthConfig
auth_config = record {
  enabled = true;
  controller_tokens = (str "token-of-ctl", controller_entry) ∷ [];
  device_tokens = (secret_token, device_entry) ∷ [];
  method_whitelist = str "ping" ∷ [];
  jwt = record {
    enabled = false;
    hs256_secret = [];
    issuer = none;
    audience = none;
    clock_skew_seconds = 0;
  };
}

abbrev pub auth : AuthService
auth = Auth.new auth_config

-- A decoder that accepts one token under any settings.
abbrev pub decode : Decode
decode settings secret token =
    some (record {
      sub = token;
      controller_id = token;
      role = str "operator";
      allowed_project_ids = [];
    })

-- A refill without rounding.
abbrev pub exact : Refill
exact tokens elapsed rate = tokens + elapsed * rate * grain

abbrev pub limits : RateLimitConfig
limits = record {
  device_requests_per_second = 10;
  controller_requests_per_minute = 60;
  global_requests_per_second = 100;
  device_connection_per_minute = 5;
  global_connections_per_second = 10;
  device_bandwidth_bytes_per_sec = 1000;
  controller_bandwidth_bytes_per_sec = 1000;
  global_bandwidth_bytes_per_sec = 5000;
}

abbrev pub stream_config : StreamConfig
stream_config = record {
  idle_timeout_seconds = 300;
  max_active_streams = 2;
  max_concurrent_streams_per_controller = 1;
}

abbrev pub router : StreamRouter
router = (create_mapping (Stream.new stream_config) dev ctl (str "ping") 7 0).1

pub router-IsIndexed : IsIndexed router
unfolding Stream.new
router-IsIndexed =
    create_mapping-IsIndexed (Stream.new stream_config) dev ctl (str "ping") 7 0
      (new-IsIndexed stream_config) (omega arith)

-- One controller waits on channel 9 for request 4 of the device.
abbrev pub state : RelayState
state = (ensure_inflight_waiter State.new (pos 4) dev 9).0

abbrev pub relay : Relay
relay = record {
  state = state;
  router = router;
  auth = auth;
  rbac = record { enabled = true; method_whitelist = str "ping" ∷ [] };
  rate_limiter = Requests.new exact limits;
  connection_limiter = Connections.new limits;
  bandwidth_tracker = Bandwidth.new limits;
  security_metrics = record {
    auth_success_total = 0;
    auth_failure_total = 0;
    authorization_denied_total = 0;
    rate_limit_total = 0;
    revoked_tokens_total = 0;
  };
  relay_address = str "relay:50051";
  has_mqtt = true;
  has_audit = true;
  events = [];
}

abbrev pub stream : DeviceStream
stream = record { current_device_id = none; current_connection_id = none; out_tx = 3 }

abbrev pub registration : DeviceMessage
registration = record {
  device_id = dev;
  token = secret_token;
  payload =
      some (register (record { device_id = dev; metadata = []; previous_connection_id = [] }));
}

abbrev pub reply : DataResponse
reply = record {
  connection_id = str "conn-1";
  sequence_number = pos 4;
  encrypted_payload = 1 ∷ 2 ∷ [];
  error = pos 0;
}

abbrev pub reply_message : DeviceMessage
reply_message = record {
  device_id = dev;
  token = secret_token;
  payload = some (data_response reply);
}

abbrev pub inbound : List Inbound
inbound = message registration 0 true ∷ message reply_message 5 true ∷ end_of_stream ∷ []

pub state-IsConsistent : IsConsistent state
unfolding ensure_inflight_waiter HashMap.get State.new
state-IsConsistent = record {
  forward = new-IsConsistent.forward;
  backward = new-IsConsistent.backward;
  fresh = new-IsConsistent.fresh;
}

pub state-IsTable : IsTable state
state-IsTable = ensure_inflight_waiter-IsTable State.new (pos 4) dev 9 new-IsTable

pub relay-IsSound : IsSound 1 (shared relay)
unfolding ensure_inflight_waiter HashMap.get State.new
relay-IsSound = record {
  sessions = state-IsConsistent;
  table = state-IsTable;
  indexed = router-IsIndexed;
  counted = omega arith;
}
