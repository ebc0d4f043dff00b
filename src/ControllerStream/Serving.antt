-- ===== src/ControllerStream/Serving.antt =====
-- crates/relay/src/grpc_service.rs, `run_connect_to_device_stream`: what follows the checks.
use g_rpc_relay.Base.{
  ℕ, ℤ, true, false, not, none, some, [], if◌then◌else◌, length, list_eq, ℕ_eq, ℤ_eq, pair_eq,
}
use g_rpc_relay.Text.{Str, str}
use g_rpc_relay.Proto
use g_rpc_relay.Proto.{ControllerMessage}
use g_rpc_relay.State.{
  DeviceSession, ensure_inflight_waiter, take_inflight, relay_message_data_request,
}
use g_rpc_relay.State.Inflight.{complete}
use g_rpc_relay.Session.{get_device_session}
use g_rpc_relay.Stream.{begin_request, finish_request}
use g_rpc_relay.RateLimiter.Bandwidth.{record_and_check}
use g_rpc_relay.Service.{
  Relay, to_device, to_controller, request_counted, rate_limit, failure, emit, audited, deliver_all,
  record_rate_limit,
}
use g_rpc_relay.ControllerStream.Locals.{
  ControllerStream, Surroundings, Step, controller, continue, wait, error_resp, send_error_response,
}

-- `begin_request` and `finish_request` of the stream, if there is one.
unfoldable pub begin_current : ControllerStream → ℕ → Relay → Relay
begin_current cs now r = record r {
  router = elim cs.stream_id [ none ↦ r.router | some sid ↦ begin_request r.router sid now ];
}

unfoldable pub finish_current : ControllerStream → ℕ → Relay → Relay
finish_current cs now r = record r {
  router = elim cs.stream_id [ none ↦ r.router | some sid ↦ finish_request r.router sid now ];
}

-- The entry in flight, if it is still there, is completed with `DeviceOffline`.
unfoldable pub fail_inflight : Str → ℤ → Relay → Relay
fail_inflight device_id seq r =
    let (found, s1) = take_inflight r.state device_id seq in
    deliver_all
      (elim found [
        | none ↦ []
        | some inflight ↦ (complete inflight (error_resp device_id seq Proto.device_offline)).1
      ])
      (record r { state = s1 })

-- The request goes to the session of the device.
unfoldable pub send_to_device :
    Relay → ControllerStream → ControllerMessage → Surroundings → DeviceSession → Step
send_to_device r cs msg env session =
    let (t0, t1, t2) = env.recorded in
    let (tracker, within) =
      record_and_check r.bandwidth_tracker msg.target_device_id msg.controller_id
        (length msg.encrypted_payload) t0 t1 t2 in
    let r1 = record r { bandwidth_tracker = tracker } in
    if not within
    then continue
        (finish_current cs env.finished (
          send_error_response cs.out_tx msg.target_device_id msg.sequence_number Proto.rate_limited
            (emit (request_counted msg.method_name (str "rate_limited")) (
              audited (rate_limit controller msg.controller_id (str "bandwidth"))
                (record r1 { security_metrics = record_rate_limit r.security_metrics })))))
        cs
    else if env.is_sent
    then wait
        (emit
          (to_device session.outbound_tx (
            relay_message_data_request session.connection_id msg.sequence_number
              msg.encrypted_payload))
          r1)
        cs true
    else continue
        (finish_current cs env.finished (
          fail_inflight msg.target_device_id msg.sequence_number (
            audited
              (failure (str "failed to forward request to device") (str "DEVICE_FORWARD_FAILED"))
              r1)))
        cs

unfoldable pub forward : Relay → ControllerStream → ControllerMessage → Surroundings → Step
forward r cs msg env = elim (get_device_session r.state msg.target_device_id) [
  | none ↦
      continue
        (finish_current cs env.finished (fail_inflight msg.target_device_id msg.sequence_number r))
        cs
  | some session ↦ send_to_device r cs msg env session
]

-- What follows the checks: the cache, or the table of requests in flight.
unfoldable pub serve : Relay → ControllerStream → ControllerMessage → Surroundings → Step
serve r cs msg env =
    let r1 = begin_current cs env.begun r in
    elim env.cached [
      | some resp ↦
          continue
            (emit (to_controller cs.out_tx resp) (
              emit (request_counted msg.method_name (str "cached"))
                (finish_current cs env.finished r1)))
            cs
      | none ↦
          let (s2, is_new_forwarder) =
            ensure_inflight_waiter r1.state msg.sequence_number msg.target_device_id env.waiter in
          let r2 = record r1 { state = s2 } in
          let forwarded = forward r2 cs msg env in
          if is_new_forwarder then forwarded else wait r2 cs false
    ]
