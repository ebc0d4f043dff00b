-- ===== src/EndToEnd.antt =====
-- The way of a request through all the parts: the device's library
-- (crates/device-sdk/src/client.rs) reads what the relay forwards, the relay
-- (crates/relay/src/grpc_service.rs) hands the device's reply to those who wait for it, and the
-- controller's library (crates/controller-sdk/src/connect.rs) gives it to the call.
use g_rpc_relay.Base.{
  ℕ, ◌≡◌, refl, ap, ◌∙◌, inl, inr, Bool, true, false, none, some, List, [], ◌∷◌, ◌++◌, map, ℤ,
  Result, ok, err, arith, ltb, length, int_beq, ==_refl, Bool-cases, list_eq, ℕ_eq, ℤ_eq, pair_eq,
}
use g_rpc_relay.Collections.HashMap
use g_rpc_relay.Collections.HashMap.{get-remove_self, get-insert_self}
use g_rpc_relay.Text.{Str}
use g_rpc_relay.Proto
use g_rpc_relay.Proto.{DataResponse, DeviceResponse, DeviceMessage, as_i32}
use g_rpc_relay.State.{
  take_inflight, touch_device, device_response_from_device_data, relay_message_data_request,
}
use g_rpc_relay.State.Inflight.{InFlight, complete}
use g_rpc_relay.Service.{Relay, Event, delivery, deliver, deliver_all}
use g_rpc_relay.DeviceStream.{
  DeviceStream, continue, is_established, touch_established, answer, on_data, on_payload,
  on_message,
}
use g_rpc_relay.DeviceSdk.Config.{DeviceSdkConfig}
use g_rpc_relay.DeviceSdk.Connection.{
  HandlerTask, Connection, relay_message, handled, connection_of, device_message, send, reply,
  start_task, on_data_request, take_task, on_handled, round, rounds, max_concurrent_data_handlers,
}
use g_rpc_relay.DeviceSdk.Connection
use g_rpc_relay.ControllerSdk
use g_rpc_relay.ControllerSdk.Session
use g_rpc_relay.ControllerSdk.Session.{
  SequenceResult, ControllerConnectSession, error_code_of, result_of,
  map_device_response_to_sequence_result, on_response, settle, poll_request,
}

-- What a handler's result is to the controller's call.
abbrev pub outcome : Result (List ℕ) (Unit {0}) → SequenceResult
outcome (ok bytes) = ok bytes
outcome (err _) = err ControllerSdk.internal_error

abbrev bytes_of : Result (List ℕ) (Unit {0}) → List ℕ
bytes_of (ok bytes) = bytes
bytes_of (err _) = []

abbrev code_of : Result (List ℕ) (Unit {0}) → ℤ
code_of (ok bytes) = as_i32 Proto.error_ok
code_of (err _) = as_i32 Proto.internal_error

-- The response that the relay makes of the reply.
abbrev pub response_of : Str → ℤ → Result (List ℕ) (Unit {0}) → DeviceResponse
response_of device_id seq result =
    device_response_from_device_data device_id seq (bytes_of result) (code_of result)

module _ (cfg : DeviceSdkConfig) (connection_id : Str) (seq : ℤ) (payload : List ℕ) where
  abbrev pub task : HandlerTask
  task = record { connection_id = connection_id; sequence_number = seq; payload = payload }

  device_serves :
      (result : Result (List ℕ) (Unit {0})) (c : Connection)
      → c.held ≡ none
      → ltb cfg.transport.max_payload_bytes (length payload) ≡ false
      → ltb (length c.tasks) max_concurrent_data_handlers ≡ true
      → (connection_of (
          rounds cfg
            (relay_message (relay_message_data_request connection_id seq payload) true
              ∷ handled 0 result true
              ∷ [])
            c)).sent
        ≡ c.sent ++ reply cfg task result ∷ []
  unfolding rounds round Connection.on_payload on_data_request start_task on_handled take_task send
      relay_message_data_request
  device_serves result c free small room =
      rw (free, rounds, round, Connection.on_payload, on_data_request, small, start_task, room) refl

  map-response_of :
      (device_id : Str) (result : Result (List ℕ) (Unit {0}))
      → map_device_response_to_sequence_result (response_of device_id seq result) ≡ outcome result
  unfolding map_device_response_to_sequence_result error_code_of result_of
      device_response_from_device_data as_i32 int_beq
  map-response_of device_id (ok bytes) = refl
  map-response_of device_id (err _) = refl

touched :
    (r : Relay) (ds : DeviceStream) (d : Str) (now : ℕ)
    → ((touch_established r ds d now).events ≡ r.events)
      × ((touch_established r ds d now).state.inflight_by_sequence ≡ r.state.inflight_by_sequence)
unfolding touch_established touch_device
touched r ds d now = elim (Bool-cases (is_established r.state ds d)) [
  | inl up ↦ rw (up, touch_established) (refl, refl)
  | inr not_up ↦ rw (not_up, touch_established) (refl, refl)
]

deliveries :
    (resp : DeviceResponse) (waiters : List ℕ)
    → map delivery (map (λ (w : ℕ). (w, resp)) waiters) ≡ map (λ (w : ℕ). deliver w resp) waiters
deliveries resp [] = refl
deliveries resp (w ∷ ws) = ap (λ (es : List Event). deliver w resp ∷ es) (deliveries resp ws)

-- The entry of a request in flight is taken out, and each of its waiters gets the response.
answered_all :
    (r : Relay) (d : Str) (resp : DataResponse) (inflight : InFlight)
    → HashMap.get (d, resp.sequence_number) r.state.inflight_by_sequence ≡ some inflight
    → ((answer r d resp).events
        ≡ r.events
          ++ map
              (λ (w : ℕ). deliver w (
                device_response_from_device_data d resp.sequence_number resp.encrypted_payload
                  resp.error))
              inflight.waiters)
      × (HashMap.get (d, resp.sequence_number) (answer r d resp).state.inflight_by_sequence ≡ none)
unfolding answer take_inflight deliver_all complete
answered_all r d resp inflight found =
    let sent =
      deliveries
        (device_response_from_device_data d resp.sequence_number resp.encrypted_payload resp.error)
        inflight.waiters in
    rw (found, answer)
      (
        ap (λ (es : List Event). r.events ++ es) sent,
        get-remove_self (d, resp.sequence_number) r.state.inflight_by_sequence,
      )

module _ (cfg : DeviceSdkConfig) (t : HandlerTask) where
  replied :
      (r : Relay) (ds : DeviceStream) (result : Result (List ℕ) (Unit {0})) (now : ℕ)
      (healthy : Bool)
      → ds.current_device_id ≡ some cfg.device_id
      → on_message r ds (reply cfg t result) now healthy
        ≡ continue
            (answer (touch_established r ds cfg.device_id now) cfg.device_id (record {
              connection_id = t.connection_id;
              sequence_number = t.sequence_number;
              encrypted_payload = bytes_of result;
              error = code_of result;
            }))
            ds
  unfolding on_message on_payload on_data reply device_message
  replied r ds (ok bytes) now healthy own = ground (arith, own, ==_refl cfg.device_id)
  replied r ds (err _) now healthy own = ground (arith, own, ==_refl cfg.device_id)

call_returns :
    (rx : ℕ) (resp : DeviceResponse) (is_late : Bool) (s : ControllerConnectSession)
    → HashMap.get resp.sequence_number s.inner ≡ some rx
    → (poll_request resp.sequence_number rx is_late (on_response resp s)).0
      ≡ some (map_device_response_to_sequence_result resp)
unfolding poll_request on_response Session.complete settle
call_returns rx resp is_late s waits =
    let answer = map_device_response_to_sequence_result resp in
    rw (waits, Session.complete, get-insert_self rx (Session.answered answer) s.channels) refl

-- A request that a device's connection reads while it is free to, and whose handler ends, is answered
-- by one message; on the device's stream the relay then gives every waiter of that request the same
-- response and takes the request out of its table; and a call of the controller's library that waits
-- for the sequence number returns the handler's payload, or `InternalError` if the handler failed.
pub request_round_trip :
    (cfg : DeviceSdkConfig) (connection_id : Str) (seq : ℤ) (payload : List ℕ)
    → (result : Result (List ℕ) (Unit {0}))
    → (c : Connection) (r : Relay) (ds : DeviceStream) (inflight : InFlight) (now : ℕ)
      (healthy : Bool)
    → (s : ControllerConnectSession) (rx : ℕ) (is_late : Bool) → c.held ≡ none
    → ltb cfg.transport.max_payload_bytes (length payload) ≡ false
    → ltb (length c.tasks) max_concurrent_data_handlers ≡ true
    → ds.current_device_id ≡ some cfg.device_id
    → HashMap.get (cfg.device_id, seq) r.state.inflight_by_sequence ≡ some inflight
    → HashMap.get seq s.inner ≡ some rx
    → (msg : DeviceMessage) × (resp : DeviceResponse) × (r1 : Relay) × ((connection_of (
          rounds cfg
            (relay_message (relay_message_data_request connection_id seq payload) true
              ∷ handled 0 result true
              ∷ [])
            c)).sent
        ≡ c.sent ++ msg ∷ [])
      × (on_message r ds msg now healthy ≡ continue r1 ds)
      × (r1.events ≡ r.events ++ map (λ (w : ℕ). deliver w resp) inflight.waiters)
      × (HashMap.get (cfg.device_id, seq) r1.state.inflight_by_sequence ≡ none)
      × ((poll_request seq rx is_late (on_response resp s)).0 ≡ some (outcome result))
unfolding device_response_from_device_data
request_round_trip cfg connection_id seq payload result c r ds inflight now healthy s rx is_late
      free small room own found waits =
    let t = task cfg connection_id seq payload in
    let r0 = touch_established r ds cfg.device_id now in
    let same = touched r ds cfg.device_id now in
    let response_data : DataResponse = record {
      connection_id = connection_id;
      sequence_number = seq;
      encrypted_payload = bytes_of result;
      error = code_of result;
    } in
    let all =
      answered_all r0 cfg.device_id response_data inflight
        (ap (λ m. HashMap.get (cfg.device_id, seq) m) same.1 ∙ found) in
    (
      reply cfg t result,
      response_of cfg.device_id seq result,
      answer r0 cfg.device_id response_data,
      device_serves cfg connection_id seq payload result c free small room,
      replied cfg t r ds result now healthy own,
      all.0
          ∙ ap
              (λ es.
                es
                ++ map (λ (w : ℕ). deliver w (response_of cfg.device_id seq result))
                    inflight.waiters)
              same.0,
      all.1,
      call_returns rx (response_of cfg.device_id seq result) is_late s waits
          ∙ ap some (map-response_of cfg connection_id seq payload cfg.device_id result),
    )
