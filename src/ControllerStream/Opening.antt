-- ===== src/ControllerStream/Opening.antt =====
-- crates/relay/src/grpc_service.rs, `run_connect_to_device_stream`: the checks of a message, and the
-- opening of the stream.
use g_rpc_relay.Base.{
  Bool, true, ◌&&◌, none, some, ok, err, if◌then◌else◌, ◌==◌, list_eq, ℕ_eq, ◌>>=◌, ◌>>◌,
}
use g_rpc_relay.Text.{Str, str, is_blank}
use g_rpc_relay.Proto
use g_rpc_relay.Proto.{ErrorCode, ControllerMessage}
use g_rpc_relay.State.{increment_controller_connections}
use g_rpc_relay.Stream.{create_mapping, total_active_streams}
use g_rpc_relay.Stream
use g_rpc_relay.RateLimiter.Requests.{allow}
use g_rpc_relay.Auth.{
  Decode, ControllerPrincipal, DevicePrincipal, authenticate_controller, get_device_principal_by_id,
  token_prefix,
}
use g_rpc_relay.Rbac.{authorize_controller_to_device}
use g_rpc_relay.Validator.{validate_controller_message}
use g_rpc_relay.Service.{
  Relay, request_counted, active_streams_set, auth_success, auth_failure, rate_limit,
  controller_connect, authorization_denied, stream_created, failure, emit, audited,
  record_auth_success, record_auth_failure, record_authorization_denied, record_rate_limit,
}
use g_rpc_relay.ControllerStream.Locals.{
  ControllerStream, Surroundings, Check, controller, send_error_response,
}

-- `send_error_response` for a message, and `continue`.
unfoldable pub refuse :
    {A : Type 0} → Relay → ControllerStream → ControllerMessage → ErrorCode → Check A
refuse r cs msg code =
    err (send_error_response cs.out_tx msg.target_device_id msg.sequence_number code r, cs)

unfoldable pub check_message : Relay → ControllerStream → ControllerMessage → Check (Unit {0})
check_message r cs msg =
    elim (validate_controller_message msg.controller_id msg.target_device_id msg.method_name
      msg.encrypted_payload msg.sequence_number) [
        | err e ↦ refuse r cs msg e.code
        | ok _ ↦
            if is_blank msg.token
            then refuse
                (audited (auth_failure controller msg.controller_id (str "token_missing") none)
                  (record r { security_metrics = record_auth_failure r.security_metrics }))
                cs msg Proto.unauthorized
            else ok tt
      ]

-- The first successful authentication on the stream counts the controller.
unfoldable pub connect_controller : Relay → ControllerStream → Str → Relay × ControllerStream
connect_controller r cs controller_id =
    let r1 =
      audited (auth_success controller controller_id)
        (record r { security_metrics = record_auth_success r.security_metrics }) in
    if cs.controller_connected then (r1, cs) else (
      record (audited (controller_connect controller_id) r1) {
        state = increment_controller_connections r.state;
      },
      record cs { controller_connected = true },
    )

module _ (decode : Decode) where
  unfoldable pub check_controller :
      Relay
      → ControllerStream
      → ControllerMessage
      → Check (ControllerPrincipal × Relay × ControllerStream)
  check_controller r cs msg =
      elim (authenticate_controller decode r.auth msg.controller_id msg.token) [
        | ok p ↦ let (r1, cs1) = connect_controller r cs msg.controller_id in ok (p, r1, cs1)
        | err _ ↦
            refuse
              (audited
                (auth_failure controller msg.controller_id (str "invalid_controller_token")
                  (some (token_prefix msg.token)))
                (record r { security_metrics = record_auth_failure r.security_metrics }))
              cs msg Proto.unauthorized
      ]

unfoldable pub check_device : Relay → ControllerStream → ControllerMessage → Check DevicePrincipal
check_device r cs msg = elim (get_device_principal_by_id r.auth msg.target_device_id) [
  | ok p ↦ ok p
  | err _ ↦ refuse r cs msg Proto.device_not_found
]

unfoldable pub check_permission :
    Relay
    → ControllerStream
    → ControllerMessage
    → ControllerPrincipal
    → DevicePrincipal
    → Check (Unit {0})
check_permission r cs msg principal device =
    elim (authorize_controller_to_device r.rbac principal device msg.method_name) [
      | ok _ ↦ ok tt
      | err _ ↦
          refuse
            (emit (request_counted msg.method_name (str "unauthorized")) (
              audited
                (authorization_denied msg.controller_id msg.target_device_id msg.method_name
                  (str "rbac_or_method_denied"))
                (record r { security_metrics = record_authorization_denied r.security_metrics })))
            cs msg Proto.unauthorized
    ]

unfoldable pub check_rate :
    Relay → ControllerStream → ControllerMessage → Surroundings → Check Relay
check_rate r cs msg env =
    let (t0, t1, t2, t3) = env.limiter_times in
    let (limiter, allowed) =
      allow r.rate_limiter msg.target_device_id msg.controller_id t0 t1 t2 t3 in
    let r1 = record r { rate_limiter = limiter } in
    if allowed
    then ok r1
    else refuse
        (emit (request_counted msg.method_name (str "rate_limited")) (
          audited (rate_limit controller msg.controller_id (str "request_rate"))
            (record r1 { security_metrics = record_rate_limit r.security_metrics })))
        cs msg Proto.rate_limited

unfoldable pub binding_of : ControllerMessage → Str × Str × Str
binding_of msg = (msg.target_device_id, msg.controller_id, msg.method_name)

-- The comparison of a binding with that of a message.
unfoldable pub is_bound : Str × Str × Str → ControllerMessage → Bool
is_bound (device_id, controller_id, method_name) msg =
    device_id == msg.target_device_id
    && controller_id == msg.controller_id
    && method_name == msg.method_name

-- The two errors of `create_mapping`.
unfoldable pub refuse_stream :
    Relay
    → ControllerStream
    → ControllerMessage
    → Stream.StreamRouterErrorKind
    → Check (Relay × ControllerStream)
refuse_stream r cs msg Stream.max_streams_exceeded =
    refuse (emit (request_counted msg.method_name (str "rate_limited")) r) cs msg Proto.rate_limited
refuse_stream r cs msg _ =
    refuse
      (emit (request_counted msg.method_name (str "internal_error"))
        (audited (failure (str "stream mapping creation failed") (str "STREAM_MAPPING_CREATE")) r))
      cs msg Proto.internal_error

unfoldable pub open_stream :
    Relay → ControllerStream → ControllerMessage → Surroundings → Check (Relay × ControllerStream)
open_stream r cs msg env =
    let (created, router1) =
      create_mapping r.router msg.target_device_id msg.controller_id msg.method_name cs.out_tx
        env.created in
    let r1 = record r { router = router1 } in
    elim created [
      | err e ↦ refuse_stream r1 cs msg e.kind
      | ok sid ↦ ok (
        emit (active_streams_set (total_active_streams router1)) (
            audited (stream_created sid msg.target_device_id msg.controller_id msg.method_name) r1),
        record cs { stream_binding = some (binding_of msg); stream_id = some sid },
      )
    ]

module _ (decode : Decode) where
  -- The first message that passes the checks opens the stream.
  unfoldable pub establish :
      Relay → ControllerStream → ControllerMessage → Surroundings → Check (Relay × ControllerStream)
  establish r cs msg env = do
    (principal, r1, cs1) ← check_controller decode r cs msg
    device ← check_device r1 cs1 msg
    check_permission r1 cs1 msg principal device
    r2 ← check_rate r1 cs1 msg env
    open_stream r2 cs1 msg env

  -- A later message must have the binding of the stream.
  unfoldable pub check_binding :
      Relay → ControllerStream → ControllerMessage → Surroundings → Check (Relay × ControllerStream)
  check_binding r cs msg env = elim cs.stream_id [
    | none ↦ establish r cs msg env
    | some _ ↦ elim cs.stream_binding [
      | none ↦ refuse r cs msg Proto.internal_error
      | some binding ↦
          if is_bound binding msg then ok (r, cs) else refuse r cs msg Proto.internal_error
    ]
  ]
