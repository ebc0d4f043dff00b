-- ===== src/DeviceStream/Rounds.antt =====
-- crates/relay/src/grpc_service.rs, `run_device_connect_stream`: the tables of the relay through the
-- rounds of a device stream.
use g_rpc_relay.Base.{
  ℕ, ◌+◌, ◌<◌, ◌≡◌, refl, sym, ◌∙◌, ◌⊎◌, subst, inl, inr, Bool, Option, none, some, List, [], ◌∷◌,
  arith, length, ◌==◌, Bool-cases, Option-cases, Result-cases, list_eq, ℕ_eq,
}
use g_rpc_relay.Text.{Str}
use g_rpc_relay.Proto.{
  DeviceMessage, DevicePayload, RegisterRequest, DataResponse, register, heartbeat, data_response,
}
use g_rpc_relay.State.{RelayState, DeviceSession, next_connection_id, u64_mod, take_inflight}
use g_rpc_relay.Stream.{StreamRouter}
use g_rpc_relay.RateLimiter.Connections.{allow_device}
use g_rpc_relay.Auth.{authenticate_device_by_token}
use g_rpc_relay.Service.{Relay, emit}
use g_rpc_relay.DeviceStream.{
  DeviceStream, Round, continue, break, Reason, Inbound, message, transport_error, end_of_stream,
  elapsed, touch_established, accept, install_session, is_resumed, complete_register, on_register,
  on_heartbeat, answer, on_data, on_payload, on_message, is_register, finish, round,
  run_device_connect_stream,
}
use g_rpc_relay.DeviceStream.Frames.{
  shared, shared-audited, shared-published, shared-emit, shared-reject, shared-accept,
  shared-deliver_all,
}
use g_rpc_relay.DeviceStream.Invariant.{
  IsSound, relay_of, at_most, later, take_inflight-IsSound, install-IsSound,
  shared-touch_established, finish-IsSound,
}

pub shared-answer :
    (r : Relay) (d : Str) (resp : DataResponse)
    → shared (answer r d resp) ≡ ((take_inflight r.state d resp.sequence_number).1, r.router)
unfolding answer
shared-answer r d resp = elim (Option-cases (take_inflight r.state d resp.sequence_number).0) [
  | inl e ↦ rw (e, answer) refl
  | inr (x, e) ↦ rw (e, answer) (shared-deliver_all _ _)
]

-- The session that a registration installs.
abbrev pub session_of : Relay → DeviceStream → Str → RegisterRequest → DeviceSession
session_of r ds d req = record {
  device_id = d;
  connection_id = (next_connection_id r.state).0;
  metadata = req.metadata;
  outbound_tx = ds.out_tx;
}

pub shared-complete_register :
    (r : Relay) (ds : DeviceStream) (d : Str) (req : RegisterRequest)
    → shared (relay_of (complete_register r ds d req))
      ≡ (install_session (next_connection_id r.state).1 d (session_of r ds d req), r.router)
unfolding complete_register emit
shared-complete_register r ds d req =
    shared-published _ _
    ∙ elim (Bool-cases (is_resumed (next_connection_id r.state).1 req.previous_connection_id d)) [
      | inl again ↦ rw again (shared-audited _ _ ∙ shared-audited _ _)
      | inr first ↦ rw first (shared-audited _ _)
    ]

complete_register-IsSound :
    (r : Relay) (ds : DeviceStream) (d : Str) (req : RegisterRequest) (n : ℕ)
    → n + 1 < u64_mod
    → IsSound n (shared r)
    → IsSound (n + 1) (shared (relay_of (complete_register r ds d req)))
complete_register-IsSound r ds d req n small v =
    subst (IsSound (n + 1)) (sym (shared-complete_register r ds d req))
      (install-IsSound n r.state r.router d v (session_of r ds d req) small refl refl)

-- A round that leaves the state and the router as they were.
unchanged : (n : ℕ) (p q : RelayState × StreamRouter) → q ≡ p → IsSound n p → IsSound (n + 1) q
unchanged n p q e v = later n q (subst (IsSound n) (sym e) v)

module _ (r : Relay) (ds : DeviceStream) (n : ℕ) (v : IsSound n (shared r)) where
  on_register-IsSound :
      (d token : Str) (req : RegisterRequest) (now : ℕ) (healthy : Bool)
      → n + 1 < u64_mod
      → IsSound (n + 1) (shared (relay_of (on_register r ds d token req now healthy)))
  unfolding on_register
  on_register-IsSound d token req now healthy small =
      elim (Result-cases (authenticate_device_by_token r.auth d token)) [
        | inr (e, refused) ↦
            rw (refused, on_register) (unchanged n _ _ (shared-reject r d token _) v)
        | inl (x, good) ↦
            let limiter = allow_device (accept r d).connection_limiter d now in
            let r2 = record (accept r d) { connection_limiter = limiter.0 } in
            elim (Bool-cases limiter.1) [
              | inr full ↦
                  rw (good, full, on_register)
                    (unchanged n _ _ (shared-audited _ _ ∙ shared-accept r d) v)
              | inl room ↦ elim (Bool-cases healthy) [
                | inr ill ↦
                    rw (good, room, ill, on_register)
                      (unchanged n _ _ (shared-audited _ _ ∙ shared-accept r d) v)
                | inl well ↦
                    rw (good, room, well, on_register)
                      (complete_register-IsSound r2 (record ds { current_device_id = some d }) d req
                        n small (subst (IsSound n) (sym (shared-accept r d)) v))
              ]
            ]
      ]

  on_heartbeat-IsSound :
      (d token : Str) → IsSound (n + 1) (shared (relay_of (on_heartbeat r ds d token)))
  unfolding on_heartbeat
  on_heartbeat-IsSound d token = elim (Result-cases (authenticate_device_by_token r.auth d token)) [
    | inr (e, refused) ↦ rw (refused, on_heartbeat) (unchanged n _ _ (shared-reject r d token _) v)
    | inl (x, good) ↦
        rw (good, on_heartbeat) (unchanged n _ _ (shared-emit _ _ ∙ shared-accept r d) v)
  ]

  on_data-IsSound :
      (d token : Str) (resp : DataResponse)
      → IsSound (n + 1) (shared (relay_of (on_data r ds d token resp)))
  unfolding on_data
  on_data-IsSound d token resp = elim (Option-cases ds.current_device_id) [
    | inl e ↦ rw (e, on_data) (unchanged n _ _ (shared-reject r d token _) v)
    | inr (own, e) ↦
        rw (e, on_data)
          (later n _ (
            subst (IsSound n) (sym (shared-answer r own resp))
              (take_inflight-IsSound n r.state r.router own v resp.sequence_number)))
  ]

  on_payload-IsSound :
      (d token : Str) (payload : Option DevicePayload) (now : ℕ) (healthy : Bool)
      → n + 1 < u64_mod
      → IsSound (n + 1) (shared (relay_of (on_payload r ds d token payload now healthy)))
  unfolding on_payload
  on_payload-IsSound d token none now healthy small = later n _ v
  on_payload-IsSound d token (some (register req)) now healthy small =
      on_register-IsSound d token req now healthy small
  on_payload-IsSound d token (some (heartbeat _)) now healthy small = on_heartbeat-IsSound d token
  on_payload-IsSound d token (some (data_response resp)) now healthy small =
      on_data-IsSound d token resp

on_message-IsSound :
    (r : Relay) (ds : DeviceStream) (msg : DeviceMessage) (now n : ℕ) (healthy : Bool)
    → n + 1 < u64_mod
    → IsSound n (shared r)
    → IsSound (n + 1) (shared (relay_of (on_message r ds msg now healthy)))
unfolding on_message
on_message-IsSound r ds msg now n healthy small v =
    let r0 = touch_established r ds msg.device_id now in
    let v0 = shared-touch_established r ds msg.device_id now n v in
    let handled =
      on_payload-IsSound r0 ds n v0 msg.device_id msg.token msg.payload now healthy small in
    elim (Bool-cases (is_register msg.payload)) [
      | inl registers ↦ rw (registers, on_message) handled
      | inr other ↦ elim (Option-cases ds.current_device_id) [
        | inl e ↦ rw (other, e, on_message) (unchanged n _ _ (shared-reject r0 _ _ _) v0)
        | inr (id, e) ↦ elim (Bool-cases (id == msg.device_id)) [
          | inl same ↦ rw (other, e, same, on_message) handled
          | inr apart ↦
              rw (other, e, apart, on_message) (unchanged n _ _ (shared-reject r0 _ _ _) v0)
        ]
      ]
    ]

pub Round-cases :
    (o : Round)
    → ((r : Relay) × (ds : DeviceStream) × (o ≡ continue r ds))
      ⊎ ((r : Relay) × (ds : DeviceStream) × (reason : Reason) × (o ≡ break r ds reason))
Round-cases (continue r ds) = inl (r, ds, refl)
Round-cases (break r ds reason) = inr (r, ds, reason, refl)

pub round-IsSound :
    (r : Relay) (ds : DeviceStream) (i : Inbound) (n : ℕ)
    → n + 1 < u64_mod
    → IsSound n (shared r)
    → IsSound (n + 1) (shared (relay_of (round r ds i)))
unfolding round
round-IsSound r ds (message msg now healthy) n small v =
    on_message-IsSound r ds msg now n healthy small v
round-IsSound r ds transport_error n small v = later n _ v
round-IsSound r ds end_of_stream n small v = later n _ v
round-IsSound r ds elapsed n small v = later n _ v

-- From tables that agree, any run of a device stream leads to tables that agree: the session maps,
-- the in-flight table, and the stream tables with their limits; each thing received gives out one
-- connection number at most. The connection numbers do not wrap during the run.
pub run_device_connect_stream-IsSound :
    (r : Relay) (ds : DeviceStream) (inbound : List Inbound) (n : ℕ)
    → n + length inbound < u64_mod
    → IsSound n (shared r)
    → IsSound (n + length inbound) (shared (run_device_connect_stream r ds inbound).0)
unfolding run_device_connect_stream
run_device_connect_stream-IsSound r ds [] n small v =
    subst (λ (m : ℕ). IsSound m (shared r)) (omega arith) v
run_device_connect_stream-IsSound r ds (i ∷ is) n small v =
    let v1 = round-IsSound r ds i n (omega (arith, small)) v in
    elim (Round-cases (round r ds i)) [
      | inl (r', ds', e) ↦
          let v2 : IsSound (n + 1) (shared r') = rw e at v1 in
          rw (e, run_device_connect_stream)
            (subst (λ (m : ℕ). IsSound m (shared (run_device_connect_stream r' ds' is).0))
              (omega arith)
              (run_device_connect_stream-IsSound r' ds' is (n + 1) (omega (arith, small)) v2))
      | inr (r', ds', reason, e) ↦
          let v2 : IsSound (n + 1) (shared r') = rw e at v1 in
          rw (e, run_device_connect_stream)
            (subst (λ (m : ℕ). IsSound m (shared (finish r' ds' reason))) (omega arith)
              (at_most (n + 1) (length is) _ (finish-IsSound r' ds' reason (n + 1) v2)))
    ]
