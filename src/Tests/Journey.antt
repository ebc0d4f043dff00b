-- ===== src/Tests/Journey.antt =====
-- A request from a controller's call to the device and back.
use g_rpc_relay.Base.{
  ℕ, ◌≡◌, refl, true, false, none, some, [], ◌∷◌, ◌++◌, map, pos, ok, list_beq, int_beq, pair_beq,
  list_eq, ℕ_eq, ℤ_eq, pair_eq,
}
use g_rpc_relay.Collections.HashMap
use g_rpc_relay.Text.{str}
use g_rpc_relay.Proto.{DeviceMessage, DeviceResponse}
use g_rpc_relay.State
use g_rpc_relay.State.{ensure_inflight_waiter, relay_message_data_request}
use g_rpc_relay.State.Inflight
use g_rpc_relay.State.Inflight.{InFlight}
use g_rpc_relay.Service.{Relay, deliver}
use g_rpc_relay.DeviceStream.{DeviceStream, continue, on_message}
use g_rpc_relay.DeviceSdk.Config.{DeviceSdkConfig}
use g_rpc_relay.DeviceSdk.Connection.{Connection, relay_message, handled, connection_of, rounds}
use g_rpc_relay.ControllerSdk.Session
use g_rpc_relay.ControllerSdk.Session.{ControllerConnectSession, on_response, poll_request}
use g_rpc_relay.EndToEnd.{outcome, request_round_trip}
use g_rpc_relay.Tests.Data.{dev, secret_token, relay}

abbrev device_config : DeviceSdkConfig
device_config = record {
  relay = record { tcp_addr = str "relay:50051"; quic_addr = none };
  device_id = dev;
  token = secret_token;
  metadata = [];
  session_recovery_window_seconds = 300;
  heartbeat_interval_seconds = 30;
  backoff_initial_seconds = 1;
  backoff_max_seconds = 60;
  transport = record { max_payload_bytes = 100; enable_tcp_fallback = true };
}

abbrev idle : Connection
idle = record {
  registered_connection_id = some (str "conn-1");
  heartbeat_task = none;
  is_beating = false;
  tasks = [];
  held = none;
  sent = [];
}

abbrev device_stream : DeviceStream
device_stream = record {
  current_device_id = some dev;
  current_connection_id = some (str "conn-1");
  out_tx = 3;
}

-- One controller waits for the request.
abbrev one_waiter : InFlight
one_waiter = record { device_id = dev; waiters = 9 ∷ [] }

in_table : HashMap.get (dev, pos 4) relay.state.inflight_by_sequence ≡ some one_waiter
unfolding ensure_inflight_waiter HashMap.get HashMap.insert State.new Inflight.push_waiter
    Inflight.new pair_beq list_beq int_beq
in_table = refl

abbrev calling : ControllerConnectSession
calling = record {
  target_device_id = dev;
  controller_id = str "ctl-1";
  token = str "token";
  max_payload_bytes = 100;
  inner = (pos 4, 6) ∷ [];
  channels = (6, Session.waiting) ∷ [];
  outbound = [];
  is_open = true;
}

in_session : HashMap.get (pos 4) calling.inner ≡ some 6
unfolding HashMap.get int_beq
in_session = refl

request_round_trip_example :
    (msg : DeviceMessage) × (resp : DeviceResponse) × (r1 : Relay) × ((connection_of (
        rounds device_config
          (relay_message (relay_message_data_request (str "conn-1") (pos 4) (1 ∷ [])) true
            ∷ handled 0 (ok (7 ∷ [])) true
            ∷ [])
          idle)).sent
      ≡ idle.sent ++ msg ∷ [])
    × (on_message relay device_stream msg 5 true ≡ continue r1 device_stream)
    × (r1.events ≡ relay.events ++ map (λ (w : ℕ). deliver w resp) one_waiter.waiters)
    × (HashMap.get (dev, pos 4) r1.state.inflight_by_sequence ≡ none)
    × ((poll_request (pos 4) 6 false (on_response resp calling)).0 ≡ some (outcome (ok (7 ∷ []))))
request_round_trip_example =
    request_round_trip device_config (str "conn-1") (pos 4) (1 ∷ []) (ok (7 ∷ [])) idle relay
      device_stream one_waiter 5 true calling 6 false refl refl refl refl in_table in_session
