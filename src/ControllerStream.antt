-- ===== src/ControllerStream.antt =====
-- crates/relay/src/grpc_service.rs, `run_connect_to_device_stream`: the loop that serves one
-- controller. The idempotency cache is a third-party LRU cache: its answer is an argument, and an
-- insertion is an event.
pub mod Admission
pub mod Balance
pub mod Answers
pub mod Invariant
pub mod Checks
pub mod Rounds
pub mod Refusals
pub mod Deliveries
mod Locals
mod Opening
mod Serving
pub use Locals.{ControllerStream, Surroundings, Step, Check, controller, continue, wait}
unfoldable pub use Locals.{error_resp, send_error_response}
unfoldable pub use Opening.{
  refuse, check_message, connect_controller, check_controller, check_device, check_permission,
  check_rate, binding_of, is_bound, refuse_stream, open_stream, establish, check_binding,
}
unfoldable pub use Serving.{
  begin_current, finish_current, fail_inflight, send_to_device, forward, serve,
}
use g_rpc_relay.Base.{
  ℕ, Bool, not, none, some, [], ◌∷◌, ◌++◌, ok, err, if◌then◌else◌, length, list_eq, ℕ_eq,
}
use g_rpc_relay.Text.{str}
use g_rpc_relay.Proto
use g_rpc_relay.Proto.{ControllerMessage, DeviceResponse}
use g_rpc_relay.State.{decrement_controller_connections}
use g_rpc_relay.Stream.{remove_mapping, total_active_streams}
use g_rpc_relay.Stream
use g_rpc_relay.Auth.{Decode}
use g_rpc_relay.Service.{
  Relay, to_controller, request_counted, latency_observed, bytes_counted, active_streams_set,
  cache_inserted, controller_disconnect, stream_closed, controller_request, failure, emit, audited,
}

module _ (decode : Decode) where
  unfoldable pub on_message : Relay → ControllerStream → ControllerMessage → Surroundings → Step
  on_message r cs msg env = elim (check_message r cs msg) [
    | err (r1, cs1) ↦ continue r1 cs1
    | ok _ ↦ elim (check_binding decode r cs msg env) [
      | err (r1, cs1) ↦ continue r1 cs1
      | ok (r1, cs1) ↦ serve r1 cs1 msg env
    ]
  ]

-- The spawned task of a new forwarder, when the in-flight timeout is over.
unfoldable pub on_timeout : Relay → ControllerMessage → Relay
on_timeout r msg = fail_inflight msg.target_device_id msg.sequence_number r

-- Only the forwarder puts the response into the cache.
unfoldable pub store_response : Relay → ControllerMessage → Bool → DeviceResponse → Relay
store_response r msg is_new_forwarder resp = record r {
  events =
      r.events
      ++ (if is_new_forwarder
          then cache_inserted msg.target_device_id msg.sequence_number resp ∷ []
          else []);
}

-- The wait is over: the response came, or the channel was closed.
unfoldable pub on_response :
    Relay → ControllerStream → ControllerMessage → Bool → DeviceResponse → (latency now : ℕ) → Relay
on_response r cs msg is_new_forwarder resp latency now = emit (to_controller cs.out_tx resp) (
    audited
      (controller_request msg.controller_id msg.target_device_id msg.method_name msg.sequence_number
        (str "success"))
      (emit (bytes_counted (str "rx") (length resp.encrypted_payload)) (
        emit (bytes_counted (str "tx") (length msg.encrypted_payload)) (
          emit (request_counted msg.method_name (str "success")) (
            emit (latency_observed msg.method_name (str "success") latency)
              (finish_current cs now (store_response r msg is_new_forwarder resp)))))))

unfoldable pub on_closed : Relay → ControllerStream → ControllerMessage → (latency now : ℕ) → Relay
on_closed r cs msg latency now =
    send_error_response cs.out_tx msg.target_device_id msg.sequence_number Proto.internal_error (
      audited
        (failure (str "controller request completion channel closed") (str "REQUEST_WAIT_FAILED"))
        (audited
          (controller_request msg.controller_id msg.target_device_id msg.method_name
            msg.sequence_number (str "failure"))
          (emit (request_counted msg.method_name (str "internal_error")) (
            emit (latency_observed msg.method_name (str "internal_error") latency)
              (finish_current cs now r)))))

-- What follows the loop.
unfoldable pub remove_stream : ControllerStream → Relay → Relay
remove_stream cs r = elim cs.stream_id [
  | none ↦ r
  | some sid ↦
      let noted = elim cs.stream_binding as (λ _. Relay) [
        | none ↦ r
        | some (device_id, controller_id, _) ↦ audited (stream_closed sid device_id controller_id) r
      ] in
      let router1 = (remove_mapping r.router sid).1 in
      emit (active_streams_set (total_active_streams router1)) (record noted { router = router1 })
]

-- A controller that was counted is counted out.
unfoldable pub disconnect_controller : ControllerStream → (lifetime : ℕ) → Relay → Relay
disconnect_controller cs lifetime r =
    let r1 = record r { state = decrement_controller_connections r.state } in
    if not cs.controller_connected then r else elim cs.stream_binding [
      | none ↦ r1
      | some (_, controller_id, method_name) ↦
          emit (latency_observed method_name (str "stream_lifetime") lifetime)
            (audited (controller_disconnect controller_id) r1)
    ]

unfoldable pub finish : Relay → ControllerStream → (lifetime : ℕ) → Relay
finish r cs lifetime = disconnect_controller cs lifetime (remove_stream cs r)

-- An error of the transport ends the loop.
unfoldable pub on_transport_error : Relay → ControllerStream → (lifetime : ℕ) → Relay
on_transport_error r cs lifetime =
    finish (audited (failure (str "controller stream receive error") (str "STREAM_RECV")) r) cs
      lifetime
