-- ===== src/DeviceStream/Messages.antt =====
-- crates/relay/src/grpc_service.rs, `run_device_connect_stream`: the match on a message.
use g_rpc_relay.Base.{
  ℕ, Bool, true, false, not, ◌&&◌, Option, none, some, ok, err, if◌then◌else◌, is_empty, ◌==◌,
  list_eq, ℕ_eq, ℤ_eq, pair_eq,
}
use g_rpc_relay.Collections.HashMap
use g_rpc_relay.Collections.HashMap.{HashMap}
use g_rpc_relay.Text.{Str, str}
use g_rpc_relay.Proto.{
  DeviceMessage, DevicePayload, RegisterRequest, DataResponse, register, heartbeat, data_response,
}
use g_rpc_relay.State.{
  RelayState, DeviceSession, next_connection_id, device_id_for_connection,
  has_active_device_connection, touch_device, take_inflight, device_response_from_device_data,
  relay_message_register_response, relay_message_heartbeat_response,
}
use g_rpc_relay.State.Inflight.{complete}
use g_rpc_relay.RateLimiter.Connections.{allow_device}
use g_rpc_relay.Auth.{authenticate_device_by_token, token_prefix}
use g_rpc_relay.Service.{
  Relay, to_device, device_online, auth_success, auth_failure, rate_limit, device_connect,
  session_resumed, emit, audited, published, deliver_all, record_auth_success, record_auth_failure,
  record_rate_limit,
}
use g_rpc_relay.DeviceStream.Locals.{DeviceStream, Round, device, failed, continue, break}

-- Whether a message belongs to the session that this stream established.
unfoldable pub is_established : RelayState → DeviceStream → Str → Bool
is_established s ds device_id = elim ds.current_connection_id [
  | none ↦ false
  | some connection_id ↦
      elim ds.current_device_id [ none ↦ false | some id ↦ id == device_id ]
      && has_active_device_connection s device_id connection_id
]

unfoldable pub touch_established : Relay → DeviceStream → Str → ℕ → Relay
touch_established r ds device_id now =
    if is_established r.state ds device_id
    then record r { state = touch_device r.state device_id now }
    else r

-- A failed authentication: the counter and the audit record.
unfoldable pub reject : Relay → Str → Str → Str → Relay
reject r device_id token reason =
    audited (auth_failure device device_id reason (some (token_prefix token)))
      (record r { security_metrics = record_auth_failure r.security_metrics })

unfoldable pub accept : Relay → Str → Relay
accept r device_id =
    audited (auth_success device device_id)
      (record r { security_metrics = record_auth_success r.security_metrics })

-- The connections that are left when that of the device's previous session is dropped.
unfoldable pub drop_previous : Str → HashMap Str DeviceSession → HashMap Str Str → HashMap Str Str
drop_previous device_id sessions connections = elim (HashMap.get device_id sessions) [
  | none ↦ connections
  | some previous ↦ HashMap.remove previous.connection_id connections
]

-- The session replaces the one that the device had.
unfoldable pub install_session : RelayState → Str → DeviceSession → RelayState
install_session s device_id session = record s {
  sessions_by_device_id = HashMap.insert device_id session s.sessions_by_device_id;
  connection_to_device_id =
      HashMap.insert session.connection_id device_id
        (drop_previous device_id s.sessions_by_device_id s.connection_to_device_id);
}

unfoldable pub is_resumed : RelayState → Str → Str → Bool
is_resumed s previous_connection_id device_id =
    not (is_empty previous_connection_id)
    && elim (device_id_for_connection s previous_connection_id) [
      | none ↦ false
      | some id ↦ id == device_id
    ]

-- The part of a registration that follows the checks.
unfoldable pub complete_register : Relay → DeviceStream → Str → RegisterRequest → Round
complete_register r ds device_id req =
    continue answered (record ds { current_connection_id = some connection_id })
  where
    connection_id : Str
    connection_id = (next_connection_id r.state).0

    s1 : RelayState
    s1 = (next_connection_id r.state).1

    resumed : Bool
    resumed = is_resumed s1 req.previous_connection_id device_id

    installed : Relay
    installed = record r {
      state = install_session s1 device_id (record {
        device_id = device_id;
        connection_id = connection_id;
        metadata = req.metadata;
        outbound_tx = ds.out_tx;
      });
    }

    connected : Relay
    connected = audited (device_connect device_id connection_id req.metadata) installed

    noted : Relay
    noted =
        if resumed
        then audited (session_resumed device_id req.previous_connection_id connection_id) connected
        else connected

    announced : Relay
    announced = published (device_online device_id connection_id r.relay_address req.metadata) noted

    answered : Relay
    answered =
        emit (to_device ds.out_tx (relay_message_register_response connection_id resumed)) announced

unfoldable pub on_register : Relay → DeviceStream → Str → Str → RegisterRequest → ℕ → Bool → Round
on_register r ds device_id token req now healthy =
    elim (authenticate_device_by_token r.auth device_id token) [
      | err _ ↦ break (reject r device_id token (str "invalid_device_token")) ds failed
      | ok _ ↦
          let named = record ds { current_device_id = some device_id } in
          let r1 = accept r device_id in
          let (limiter, allowed) = allow_device r1.connection_limiter device_id now in
          let r2 = record r1 { connection_limiter = limiter } in
          if not allowed
          then break
              (audited (rate_limit device device_id (str "connection_limit"))
                (record r2 { security_metrics = record_rate_limit r2.security_metrics }))
              named failed
          else if not healthy
          then break (audited (rate_limit device device_id (str "resource_unhealthy")) r2) named
              failed
          else complete_register r2 named device_id req
    ]

unfoldable pub on_heartbeat : Relay → DeviceStream → Str → Str → Round
on_heartbeat r ds device_id token = elim (authenticate_device_by_token r.auth device_id token) [
  | err _ ↦ break (reject r device_id token (str "invalid_device_token_on_heartbeat")) ds failed
  | ok _ ↦
      continue (emit (to_device ds.out_tx relay_message_heartbeat_response) (accept r device_id)) ds
]

-- The response of a device goes to those who wait for it.
unfoldable pub answer : Relay → Str → DataResponse → Relay
answer r device_id resp =
    let (found, s1) = take_inflight r.state device_id resp.sequence_number in
    let r1 = record r { state = s1 } in
    elim found [
      | none ↦ r1
      | some inflight ↦
          deliver_all
            (complete inflight (
              device_response_from_device_data device_id resp.sequence_number resp.encrypted_payload
                resp.error)).1
            r1
    ]

unfoldable pub on_data : Relay → DeviceStream → Str → Str → DataResponse → Round
on_data r ds device_id token resp = elim ds.current_device_id [
  | none ↦ break (reject r device_id token (str "data_before_registration")) ds failed
  | some response_device_id ↦ continue (answer r response_device_id resp) ds
]

-- The match on the payload.
unfoldable pub on_payload :
    Relay → DeviceStream → Str → Str → Option DevicePayload → ℕ → Bool → Round
on_payload r ds device_id token none now healthy = continue r ds
on_payload r ds device_id token (some (register req)) now healthy =
    on_register r ds device_id token req now healthy
on_payload r ds device_id token (some (heartbeat _)) now healthy = on_heartbeat r ds device_id token
on_payload r ds device_id token (some (data_response resp)) now healthy =
    on_data r ds device_id token resp

abbrev pub is_register : Option DevicePayload → Bool
is_register (some (register _)) = true
is_register _ = false

unfoldable pub on_message : Relay → DeviceStream → DeviceMessage → ℕ → Bool → Round
on_message r ds msg now healthy =
    let r0 = touch_established r ds msg.device_id now in
    let handled = on_payload r0 ds msg.device_id msg.token msg.payload now healthy in
    if is_register msg.payload then handled else elim ds.current_device_id [
      | none ↦
          break (reject r0 msg.device_id msg.token (str "non_register_before_registration")) ds
            failed
      | some id ↦
          if id == msg.device_id
          then handled
          else break (reject r0 msg.device_id msg.token (str "device_id_mismatch_on_stream")) ds
              failed
    ]
