-- ===== src/ControllerStream/Locals.antt =====
-- crates/relay/src/grpc_service.rs, `run_connect_to_device_stream`: the local variables, and what a
-- message can lead to.
use g_rpc_relay.Base.{ℕ, ℤ, Bool, Option, [], Result, list_eq, ℕ_eq}
use g_rpc_relay.Text.{Str, str}
use g_rpc_relay.Proto.{ErrorCode, DeviceResponse, as_i32}
use g_rpc_relay.Service.{Relay, to_controller, emit}

-- The local variables of the loop.
pub record ControllerStream : Type 0 where
  pub stream_id : Option Str
  pub stream_binding : Option (Str × Str × Str)
  pub controller_connected : Bool
  pub out_tx : ℕ

-- What the outside answers while a message is served: the clock at each reading, the cache, the
-- number of the one-shot channel, and whether the channel of the device takes the request.
pub record Surroundings : Type 0 where
  pub limiter_times : ℕ × ℕ × ℕ × ℕ
  pub created : ℕ
  pub begun : ℕ
  pub recorded : ℕ × ℕ × ℕ
  pub finished : ℕ
  pub cached : Option DeviceResponse
  pub waiter : ℕ
  pub is_sent : Bool

-- A message is dealt with, or the loop waits for the response of the device; the Boolean is
-- `is_new_forwarder`.
pub data Step : Type 0 where
  continue : Relay → ControllerStream → Step
  wait : Relay → ControllerStream → Bool → Step

-- A check goes on, or the loop continues with the next message.
abbrev pub Check : Type 0 → Type 0
Check A = Result A (Relay × ControllerStream)

abbrev pub controller : Str
controller = str "controller"

unfoldable pub error_resp : Str → ℤ → ErrorCode → DeviceResponse
error_resp device_id seq code = record {
  device_id = device_id;
  sequence_number = seq;
  encrypted_payload = [];
  error = as_i32 code;
}

unfoldable pub send_error_response : ℕ → Str → ℤ → ErrorCode → Relay → Relay
send_error_response tx device_id seq code r =
    emit (to_controller tx (error_resp device_id seq code)) r
