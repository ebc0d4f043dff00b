-- ===== src/ControllerSdk/Session.antt =====
-- crates/controller-sdk/src/session.rs, `PendingRequests`, and crates/controller-sdk/src/connect.rs,
-- `ControllerConnectSession`. A one-shot channel is a number. `send_request` is two steps, up to
-- its wait and from its end, since other calls and the reader's task run in between.
use g_rpc_relay.Base.{
  ℕ, Bool, ◌&&◌, Option, none, some, List, [], ◌∷◌, ◌++◌, ℤ, Result, ok, err, if◌then◌else◌, ltb,
  length, ◌==◌, list_eq, ℕ_eq, ℤ_eq,
}
use g_rpc_relay.Collections.HashMap
use g_rpc_relay.Collections.HashMap.{HashMap}
use g_rpc_relay.Text.{Str}
use g_rpc_relay.Proto.{ErrorCode, ControllerMessage, DeviceResponse, as_i32}
use g_rpc_relay.Proto
use g_rpc_relay.ControllerSdk.{ControllerSdkError}
use g_rpc_relay.ControllerSdk

abbrev pub SequenceResult : Type 0
SequenceResult = Result (List ℕ) ControllerSdkError

-- What the receiver of a one-shot channel finds.
pub data Channel : Type 0 where
  waiting : Channel
  answered : SequenceResult → Channel
  dropped : Channel

-- `inner` is the map of `PendingRequests`; `is_open`, whether the outbound stream is still read.
pub record ControllerConnectSession : Type 0 where
  pub target_device_id : Str
  pub controller_id : Str
  pub token : Str
  pub max_payload_bytes : ℕ
  pub inner : HashMap ℤ ℕ
  pub channels : HashMap ℕ Channel
  pub outbound : List ControllerMessage
  pub is_open : Bool

abbrev pub close : Channel → Channel
close waiting = dropped
close (answered result) = answered result
close dropped = dropped

-- The sender, if there is one, is dropped.
unfoldable pub drop_sender : Option ℕ → HashMap ℕ Channel → HashMap ℕ Channel
drop_sender none channels = channels
drop_sender (some tx) channels = HashMap.modify tx close channels

unfoldable pub insert : ℤ → ℕ → ControllerConnectSession → ControllerConnectSession
insert sequence_number tx s = record s {
  inner = HashMap.insert sequence_number tx s.inner;
  channels =
      drop_sender (HashMap.get sequence_number s.inner) (HashMap.insert tx waiting s.channels);
}

unfoldable pub remove : ℤ → ControllerConnectSession → ControllerConnectSession
remove sequence_number s = record s {
  inner = HashMap.remove sequence_number s.inner;
  channels = drop_sender (HashMap.get sequence_number s.inner) s.channels;
}

unfoldable pub complete : ℤ → SequenceResult → ControllerConnectSession → ControllerConnectSession
complete sequence_number result s = record s {
  inner = HashMap.remove sequence_number s.inner;
  channels = elim (HashMap.get sequence_number s.inner) [
    | none ↦ s.channels
    | some tx ↦ HashMap.insert tx (answered result) s.channels
  ];
}

-- `ErrorCode::try_from(device_resp.error)`
unfoldable pub error_code_of : ℤ → Option ErrorCode
error_code_of n =
    if n == as_i32 Proto.error_ok
    then some Proto.error_ok
    else if n == as_i32 Proto.device_offline
    then some Proto.device_offline
    else if n == as_i32 Proto.unauthorized
    then some Proto.unauthorized
    else if n == as_i32 Proto.device_not_found
    then some Proto.device_not_found
    else if n == as_i32 Proto.rate_limited
    then some Proto.rate_limited
    else if n == as_i32 Proto.internal_error
    then some Proto.internal_error
    else none

unfoldable pub result_of : Option ErrorCode → List ℕ → SequenceResult
result_of none payload = err ControllerSdk.stream_closed
result_of (some Proto.error_ok) payload = ok payload
result_of (some Proto.device_offline) payload = err ControllerSdk.device_offline
result_of (some Proto.unauthorized) payload = err ControllerSdk.unauthorized
result_of (some Proto.device_not_found) payload = err ControllerSdk.device_not_found
result_of (some Proto.rate_limited) payload = err ControllerSdk.rate_limited
result_of (some Proto.internal_error) payload = err ControllerSdk.internal_error

unfoldable pub map_device_response_to_sequence_result : DeviceResponse → SequenceResult
map_device_response_to_sequence_result resp =
    result_of (error_code_of resp.error) resp.encrypted_payload

-- A round of the reader's task.
unfoldable pub on_response : DeviceResponse → ControllerConnectSession → ControllerConnectSession
on_response resp s = complete resp.sequence_number (map_device_response_to_sequence_result resp) s

-- `send_request` up to its wait: an error ends the call.
unfoldable pub start_request :
    (method_name : Str)
    → ℤ
    → (payload : List ℕ) → (tx : ℕ) → ControllerConnectSession
    → Option ControllerSdkError × ControllerConnectSession
start_request method_name sequence_number payload tx s =
    let s1 = insert sequence_number tx s in
    let msg : ControllerMessage = record {
      controller_id = s.controller_id;
      token = s.token;
      target_device_id = s.target_device_id;
      method_name = method_name;
      sequence_number = sequence_number;
      encrypted_payload = payload;
    } in
    if ltb 0 s.max_payload_bytes && ltb s.max_payload_bytes (length payload)
    then (some ControllerSdk.payload_too_large, s)
    else if s.is_open
    then (none, record s1 { outbound = s1.outbound ++ msg ∷ [] })
    else (some ControllerSdk.stream_closed, remove sequence_number s1)

-- What the call returns when it finds this in its channel; `none`: it goes on waiting.
unfoldable pub settle :
    ℤ
    → (is_late : Bool) → Option Channel
    → ControllerConnectSession
    → Option SequenceResult × ControllerConnectSession
settle sequence_number is_late (some (answered result)) s = (some result, s)
settle sequence_number is_late (some dropped) s =
    (some (err ControllerSdk.stream_closed), remove sequence_number s)
settle sequence_number is_late (some waiting) s =
    if is_late
    then (some (err ControllerSdk.sequence_response_not_found), remove sequence_number s)
    else (none, s)
settle sequence_number is_late none s = (none, s)

-- The call is polled; `is_late` tells whether its time is over.
unfoldable pub poll_request :
    ℤ
    → (rx : ℕ) → (is_late : Bool) → ControllerConnectSession
    → Option SequenceResult × ControllerConnectSession
poll_request sequence_number rx is_late s =
    settle sequence_number is_late (HashMap.get rx s.channels) s
