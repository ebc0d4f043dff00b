-- ===== src/Tests/Sdk.antt =====
-- The libraries for controllers and devices.
use g_rpc_relay.Base.{
  ℕ, ◌≡◌, ◌≢◌, refl, true, false, none, some, List, [], ◌∷◌, ◌++◌, ℤ, pos, ok, err, arith, list_eq,
  ℕ_eq, ℤ_eq, pair_eq,
}
use g_rpc_relay.Collections.HashMap
use g_rpc_relay.Text.{str}
use g_rpc_relay.Proto
use g_rpc_relay.Proto.{
  as_i32, DeviceResponse, RelayMessage, register_response, data_request, DataRequest,
}
use g_rpc_relay.ControllerSdk
use g_rpc_relay.ControllerSdk.Session.{
  ControllerConnectSession, map_device_response_to_sequence_result, on_response, start_request,
  poll_request,
}
use g_rpc_relay.ControllerSdk.Matching.{happen, responds, response_reaches_call}
use g_rpc_relay.ControllerSdk.Duplicates.{duplicate_requests_fail}
use g_rpc_relay.DeviceSdk
use g_rpc_relay.DeviceSdk.Config.{DeviceSdkConfig}
use g_rpc_relay.DeviceSdk.Connection.{
  Connection, previous_for_register, Happening, relay_message, handled, end_of_stream, ends,
  connection_of, opened, rounds, round, connect_once, finish, on_payload, on_registered,
}
use g_rpc_relay.DeviceSdk.Client.{
  waits, attempt_once, after_connection, retry, Recovery, Attempt, first, run, stopped,
}
use g_rpc_relay.DeviceSdk.Recovery.{run_goes_on, run_without_window}
use g_rpc_relay.DeviceSdk.Tally.{account}
use g_rpc_relay.DeviceSdk.Replies.{asked, rounds-account}

abbrev session : ControllerConnectSession
session = record {
  target_device_id = str "dev-1";
  controller_id = str "ctl-1";
  token = str "token";
  max_payload_bytes = 100;
  inner = [];
  channels = [];
  outbound = [];
  is_open = true;
}

abbrev response : ℤ → DeviceResponse
response seq = record {
  device_id = str "dev-1";
  sequence_number = seq;
  encrypted_payload = 7 ∷ [];
  error = as_i32 Proto.error_ok;
}

nothing_waits : (j : ℤ) → HashMap.get j session.inner ≢ some 5
unfolding HashMap.get
nothing_waits j h = cc

two-ne-one : pos 2 ≢ pos 1
two-ne-one h = ground arith

response_reaches_call_example :
    (poll_request (pos 1) 5 false (
      on_response (response (pos 1)) (
        happen
          (responds (response (pos 2)) ∷ [])
          (start_request (str "ping") (pos 1) (1 ∷ []) 5 session).1))).0
    ≡ some (map_device_response_to_sequence_result (response (pos 1)))
response_reaches_call_example =
    response_reaches_call (pos 1) 5 (str "ping") (1 ∷ []) session (responds (response (pos 2)) ∷ [])
      (response (pos 1)) false refl refl nothing_waits (two-ne-one, tt) refl

duplicate_requests_fail_example :
    ((poll_request
        (pos 1)
        5
        false
        (start_request
          (str "pong")
          (pos 1)
          (2 ∷ [])
          6
          (start_request (str "ping") (pos 1) (1 ∷ []) 5 session).1).1).0
      ≡ some (err ControllerSdk.stream_closed))
    × ((poll_request (pos 1) 6 false (
          on_response
            (response (pos 1))
            (poll_request
              (pos 1)
              5
              false
              (start_request
                (str "pong")
                (pos 1)
                (2 ∷ [])
                6
                (start_request (str "ping") (pos 1) (1 ∷ []) 5 session).1).1).1)).0
        ≡ some (err ControllerSdk.stream_closed))
duplicate_requests_fail_example =
    duplicate_requests_fail (pos 1) 5 6 (str "ping") (str "pong") (1 ∷ []) (2 ∷ [])
      (response (pos 1)) session (ground arith) (refl, refl) (refl, refl) (nothing_waits (pos 1))
      refl

abbrev device_config : DeviceSdkConfig
device_config = record {
  relay = record { tcp_addr = str "relay:50051"; quic_addr = none };
  device_id = str "dev-1";
  token = str "token";
  metadata = [];
  session_recovery_window_seconds = 300;
  heartbeat_interval_seconds = 30;
  backoff_initial_seconds = 1;
  backoff_max_seconds = 60;
  transport = record { max_payload_bytes = 2; enable_tcp_fallback = true };
}

abbrev request : ℕ → List ℕ → Happening
request n payload =
    relay_message
      (record {
        payload = some (
            data_request (record {
              connection_id = str "c1";
              sequence_number = pos n;
              encrypted_payload = payload;
            }));
      })
      true

abbrev registered : Happening
registered =
    relay_message
      (record {
        payload = some (
            register_response
              (record { connection_id = str "c1"; session_resumed = false; timestamp = pos 0 }));
      })
      true

abbrev stream : List Happening
stream = request 1 (1 ∷ []) ∷ request 2 (1 ∷ 2 ∷ 3 ∷ []) ∷ handled 0 (ok (9 ∷ [])) true ∷ []

rounds-account_example :
    account
      (λ c seq. true)
      (connection_of (rounds device_config stream (opened device_config none)))
    ≡ asked (λ c seq. true) device_config stream (opened device_config none)
rounds-account_example =
    rounds-account (λ c seq. true) device_config stream none (refl, (refl, (refl, tt)))

abbrev attempt : Attempt
attempt = record {
  dialled = ok tt;
  now = 0;
  is_writable = true;
  happenings = registered ∷ end_of_stream ∷ [];
  ended_at = 10;
}

abbrev no_jitter : ℕ → ℕ → ℕ
no_jitter base thousandths = base

run_goes_on_example :
    run no_jitter device_config (attempt ∷ attempt ∷ []) first ≢ stopped DeviceSdk.tonic
run_goes_on_example =
    run_goes_on device_config no_jitter (attempt ∷ attempt ∷ []) first DeviceSdk.tonic refl
      (tt, (tt, tt))

abbrev down : Attempt
down = record attempt { dialled = err DeviceSdk.tonic }

-- One connection that went well, before the wait.
abbrev later : Recovery
later = record {
  last_connection_id = some (str "c1");
  last_disconnect_at_millis = some 10;
  attempt = 1;
}

attempt_waits : run no_jitter device_config (attempt ∷ []) first ≡ waits 0 later
unfolding run attempt_once connect_once rounds round on_payload on_registered finish opened first
    after_connection retry previous_for_register
attempt_waits = refl

abbrev windowless : DeviceSdkConfig
windowless = record device_config { session_recovery_window_seconds = 0 }

abbrev windowless_end : Connection
windowless_end = connection_of (connect_once windowless none none (ok tt) 0 true attempt.happenings)

registers :
    connect_once windowless none none (ok tt) 0 true attempt.happenings
    ≡ ends (ok (str "c1")) windowless_end
unfolding connect_once opened rounds round on_payload on_registered finish previous_for_register
registers = refl

abbrev gap : Attempt
gap = record attempt { dialled = err DeviceSdk.grpc }

run_without_window_example :
    run no_jitter windowless (attempt ∷ (gap ∷ gap ∷ []) ++ (attempt ∷ [])) first
    ≡ stopped DeviceSdk.recovery_disabled
unfolding first
run_without_window_example =
    run_without_window windowless no_jitter (str "c1") refl attempt [] refl attempt (gap ∷ gap ∷ [])
      first windowless_end registers (refl, (refl, tt))
