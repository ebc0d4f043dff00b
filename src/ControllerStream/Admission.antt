-- ===== src/ControllerStream/Admission.antt =====
-- crates/relay/src/grpc_service.rs, `run_connect_to_device_stream`: which requests reach a device.
use g_rpc_relay.Base.{
  ◌≡◌, ◌≢◌, refl, inl, inr, Bool, true, false, none, some, arith, ok, err, ==_iff, Bool-cases,
  Result-cases, list_eq, ℕ_eq,
}
use g_rpc_relay.Text.{Str, is_blank}
use g_rpc_relay.Proto
use g_rpc_relay.Proto.{ControllerMessage}
use g_rpc_relay.Auth.{
  Decode, ControllerPrincipal, DevicePrincipal, authenticate_controller, get_device_principal_by_id,
}
use g_rpc_relay.Rbac.{authorize_controller_to_device}
use g_rpc_relay.RateLimiter.Requests.{allow}
use g_rpc_relay.Validator.{validate_controller_message}
use g_rpc_relay.Service.{Relay, audited, emit}
use g_rpc_relay.ControllerStream.{
  ControllerStream, Surroundings, continue, wait, refuse, check_message, connect_controller,
  check_controller, check_device, check_permission, check_rate, establish, check_binding,
  binding_of, is_bound, on_message, send_error_response,
}

-- The answer of the request limiter.
abbrev pub within_rate : Relay → ControllerMessage → Surroundings → Bool
within_rate r msg env =
    let (t0, t1, t2, t3) = env.limiter_times in
    (allow r.rate_limiter msg.target_device_id msg.controller_id t0 t1 t2 t3).1

-- What a message needs for its stream to be opened.
pub record IsPermitted (decode : Decode) (r : Relay) (msg : ControllerMessage) (env : Surroundings)
    : Type 0 where
  pub principal : ControllerPrincipal
  pub device : DevicePrincipal
  pub is_controller :
      authenticate_controller decode r.auth msg.controller_id msg.token ≡ ok principal
  pub is_device : get_device_principal_by_id r.auth msg.target_device_id ≡ ok device
  pub is_authorized : authorize_controller_to_device r.rbac principal device msg.method_name ≡ ok tt
  pub is_within_rate : within_rate r msg env ≡ true

module _ (decode : Decode) (r : Relay) (cs : ControllerStream) (msg : ControllerMessage)
    (env : Surroundings) where
  establish-IsPermitted :
      (q : Relay × ControllerStream)
      → establish decode r cs msg env ≡ ok q
      → IsPermitted decode r msg env
  unfolding establish check_controller check_device check_permission check_rate refuse
      connect_controller audited
  establish-IsPermitted q h =
      let cases = Bool-cases cs.controller_connected in
      elim (Result-cases (authenticate_controller decode r.auth msg.controller_id msg.token)) [
        | inr (e, bad) ↦ absurd (ground (arith, bad))
        | inl (p, good) ↦
            elim (Result-cases (get_device_principal_by_id r.auth msg.target_device_id)) [
              | inr (e, bad) ↦ absurd (ground (arith, good, bad, cases))
              | inl (d, known) ↦
                  elim (Result-cases (authorize_controller_to_device r.rbac p d msg.method_name)) [
                    | inr (e, bad) ↦ absurd (ground (arith, good, known, bad, cases))
                    | inl (u, may) ↦ elim (Bool-cases (within_rate r msg env)) [
                      | inr over ↦ absurd (ground (arith, good, known, may, over, cases))
                      | inl within ↦ record {
                        principal = p;
                        device = d;
                        is_controller = good;
                        is_device = known;
                        is_authorized = may;
                        is_within_rate = within;
                      }
                    ]
                  ]
            ]
      ]

-- The parts of a message are well formed, and its token is not blank.
abbrev pub IsWellFormed : ControllerMessage → Type 0
IsWellFormed msg =
    (validate_controller_message msg.controller_id msg.target_device_id msg.method_name
        msg.encrypted_payload msg.sequence_number
      ≡ ok tt)
    × (is_blank msg.token ≡ false)

check_message-IsWellFormed :
    (r : Relay) (cs : ControllerStream) (msg : ControllerMessage)
    → check_message r cs msg ≡ ok tt
    → IsWellFormed msg
unfolding check_message refuse
check_message-IsWellFormed r cs msg h =
    elim (Result-cases (
      validate_controller_message msg.controller_id msg.target_device_id msg.method_name
        msg.encrypted_payload msg.sequence_number)) [
          | inr (e, bad) ↦ absurd (ground (arith, bad))
          | inl (u, good) ↦ (good, ground (arith, good))
        ]

-- On a stream that is not open yet, a message is forwarded, or waits for another one's response,
-- only if it is well formed, its controller authenticates, its device is known, the controller may
-- reach the device by the method, and the request limiter admits it.
pub on_message-IsPermitted :
    (decode : Decode) (r : Relay) (cs : ControllerStream) (msg : ControllerMessage)
    → (env : Surroundings) (q : Relay) (qs : ControllerStream) (is_new_forwarder : Bool)
    → cs.stream_id ≡ none
    → on_message decode r cs msg env ≡ wait q qs is_new_forwarder
    → IsWellFormed msg × IsPermitted decode r msg env
unfolding on_message check_binding
on_message-IsPermitted decode r cs msg env q qs is_new_forwarder closed h =
    elim (Result-cases (check_message r cs msg)) [
      | inr (p, bad) ↦ absurd (ground (arith, bad))
      | inl (u, good) ↦ elim (Result-cases (establish decode r cs msg env)) [
        | inr (p, bad) ↦ absurd (ground (arith, good, bad))
        | inl (p, opened) ↦ (
          check_message-IsWellFormed r cs msg good,
          establish-IsPermitted decode r cs msg env p opened,
        )
      ]
    ]

pub check_message_refused :
    (r : Relay) (cs : ControllerStream) (msg : ControllerMessage) (p : Relay × ControllerStream)
    → check_message r cs msg ≡ err p
    → (p.0.state ≡ r.state) × (p.0.router ≡ r.router) × (p.1 ≡ cs)
unfolding check_message refuse send_error_response audited emit
check_message_refused r cs msg p h =
    elim (Result-cases (
      validate_controller_message msg.controller_id msg.target_device_id msg.method_name
        msg.encrypted_payload msg.sequence_number)) [
          | inr (e, bad) ↦ ground (arith, bad)
          | inl (u, good) ↦ ground (arith, good, Bool-cases (is_blank msg.token))
        ]

is_bound-binding_of :
    (binding : Str × Str × Str) (msg : ControllerMessage)
    → binding ≢ binding_of msg
    → is_bound binding msg ≡ false
unfolding is_bound binding_of
is_bound-binding_of (d, c, m) msg apart = elim (Bool-cases (is_bound (d, c, m) msg)) [
  | inr other ↦ other
  | inl same ↦ absurd (
      apart (
        ground (
          arith,
          same,
          ==_iff d msg.target_device_id,
          ==_iff c msg.controller_id,
          ==_iff m msg.method_name,
        )))
]

-- On an open stream, a message whose device, controller or method is not that of the stream is
-- answered with an error, and neither the state nor the router changes.
pub on_message_unbound :
    (decode : Decode) (r : Relay) (cs : ControllerStream) (msg : ControllerMessage)
    → (env : Surroundings) (sid : Str) (binding : Str × Str × Str) → cs.stream_id ≡ some sid
    → cs.stream_binding ≡ some binding
    → binding ≢ binding_of msg
    → (q : Relay) × (on_message decode r cs msg env ≡ continue q cs)
      × (q.state ≡ r.state)
      × (q.router ≡ r.router)
unfolding on_message check_binding refuse send_error_response emit
on_message_unbound decode r cs msg env sid binding opened bound apart =
    elim (Result-cases (check_message r cs msg)) [
      | inr ((p, ps), bad) ↦
          let (state, router, same) = check_message_refused r cs msg (p, ps) bad in
          (p, ground (arith, bad, same), state, router)
      | inl (u, good) ↦ (
        send_error_response cs.out_tx msg.target_device_id msg.sequence_number Proto.internal_error
            r,
        ground (arith, good, opened, bound, is_bound-binding_of binding msg apart),
        refl,
        refl,
      )
    ]
