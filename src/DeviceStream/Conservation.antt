-- ===== src/DeviceStream/Conservation.antt =====
-- crates/relay/src/grpc_service.rs, `run_device_connect_stream`: the account of waiting
-- controllers over a whole stream.
use g_rpc_relay.Base.{
  ℕ, ◌+◌, ◌<◌, ◌≡◌, refl, ap, ◌∙◌, inl, inr, ℤ, Bool, Option, none, some, List, [], ◌∷◌, arith,
  length, ◌==◌, Bool-cases, Option-cases, Result-cases, list_eq, ℕ_eq, ℤ_eq, pair_eq,
}
use g_rpc_relay.Collections.HashMap
use g_rpc_relay.Collections.HashMap.Entries.{total}
use g_rpc_relay.Text.{Str}
use g_rpc_relay.Proto.{
  DeviceMessage, DevicePayload, RegisterRequest, DataResponse, register, heartbeat, data_response,
}
use g_rpc_relay.State.{
  RelayState, DeviceSession, u64_mod, next_connection_id, touch_device, remove_device_session,
}
use g_rpc_relay.State.Inflight.{InFlight}
use g_rpc_relay.State.Waiters.{count, pending, IsTable}
use g_rpc_relay.Stream.{StreamRouter}
use g_rpc_relay.RateLimiter.Connections.{allow_device}
use g_rpc_relay.Auth.{authenticate_device_by_token}
use g_rpc_relay.Service.{Relay}
use g_rpc_relay.DeviceStream.{
  DeviceStream, Reason, Inbound, message, transport_error, end_of_stream, elapsed, is_established,
  touch_established, accept, install_session, is_resumed, complete_register, on_register,
  on_heartbeat, on_data, on_payload, on_message, is_register, announce_offline, close_session,
  drop_device, owns_session, final_reason, finish, round, run_device_connect_stream,
}
use g_rpc_relay.DeviceStream.Frames.{shared}
use g_rpc_relay.DeviceStream.Invariant.{
  shared-announce_offline, IsSound, relay_of, shared-touch_established,
}
use g_rpc_relay.DeviceStream.Closing.{remove_device_session-inflight}
use g_rpc_relay.DeviceStream.Rounds.{Round-cases, round-IsSound}
use g_rpc_relay.DeviceStream.Answers.{
  answered, account, account-audited, account-published, account-emit, account-reject,
  account-accept, account-drop_device, account-answer,
}

module _ (k : ℕ) where
  account-touch_established :
      (r : Relay) (ds : DeviceStream) (d : Str) (now : ℕ)
      → account k (touch_established r ds d now) ≡ account k r
  unfolding touch_established touch_device pending
  account-touch_established r ds d now = elim (Bool-cases (is_established r.state ds d)) [
    | inl own ↦ rw (own, touch_established) refl
    | inr other ↦ rw (other, touch_established) refl
  ]

  account-complete_register :
      (r : Relay) (ds : DeviceStream) (d : Str) (req : RegisterRequest)
      → account k (relay_of (complete_register r ds d req)) ≡ account k r
  unfolding complete_register install_session next_connection_id pending answered
  account-complete_register r ds d req =
      account-emit k _ _ refl
      ∙ account-published k _ _ refl
      ∙ elim (Bool-cases (is_resumed (next_connection_id r.state).1 req.previous_connection_id d)) [
        | inl again ↦ rw again (account-audited k _ _ ∙ account-audited k _ _)
        | inr first ↦ rw first (account-audited k _ _)
      ]

  module _ (r : Relay) (ds : DeviceStream) (d token : Str) where
    account-on_register :
        (req : RegisterRequest) (now : ℕ) (healthy : Bool)
        → account k (relay_of (on_register r ds d token req now healthy)) ≡ account k r
    unfolding on_register
    account-on_register req now healthy =
        elim (Result-cases (authenticate_device_by_token r.auth d token)) [
          | inr (e, refused) ↦ rw (refused, on_register) (account-reject k r d token _)
          | inl (x, good) ↦
              let accepted = account-accept k r d in
              elim (Bool-cases (allow_device (accept r d).connection_limiter d now).1) [
                | inr full ↦ rw (good, full, on_register) (account-audited k _ _ ∙ accepted)
                | inl room ↦ elim (Bool-cases healthy) [
                  | inr ill ↦ rw (good, room, ill, on_register) (account-audited k _ _ ∙ accepted)
                  | inl well ↦
                      rw (good, room, well, on_register)
                        (account-complete_register _ _ d req ∙ accepted)
                ]
              ]
        ]

    account-on_heartbeat : account k (relay_of (on_heartbeat r ds d token)) ≡ account k r
    unfolding on_heartbeat answered
    account-on_heartbeat = elim (Result-cases (authenticate_device_by_token r.auth d token)) [
      | inr (e, refused) ↦ rw (refused, on_heartbeat) (account-reject k r d token _)
      | inl (x, good) ↦ rw (good, on_heartbeat) (account-emit k _ _ refl ∙ account-accept k r d)
    ]

    account-on_data :
        (resp : DataResponse)
        → IsTable r.state
        → account k (relay_of (on_data r ds d token resp)) ≡ account k r
    unfolding on_data
    account-on_data resp v = elim (Option-cases ds.current_device_id) [
      | inl e ↦ rw (e, on_data) (account-reject k r d token _)
      | inr (own, e) ↦ rw (e, on_data) (account-answer k r own resp v)
    ]

    account-on_payload :
        (payload : Option DevicePayload) (now : ℕ) (healthy : Bool)
        → IsTable r.state
        → account k (relay_of (on_payload r ds d token payload now healthy)) ≡ account k r
    unfolding on_payload
    account-on_payload none now healthy v = refl
    account-on_payload (some (register req)) now healthy v = account-on_register req now healthy
    account-on_payload (some (heartbeat _)) now healthy v = account-on_heartbeat
    account-on_payload (some (data_response resp)) now healthy v = account-on_data resp v

  account-on_message :
      (r : Relay) (ds : DeviceStream) (msg : DeviceMessage) (now n : ℕ) (healthy : Bool)
      → IsSound n (shared r)
      → account k (relay_of (on_message r ds msg now healthy)) ≡ account k r
  unfolding on_message
  account-on_message r ds msg now n healthy v =
      let r0 = touch_established r ds msg.device_id now in
      let touched = account-touch_established r ds msg.device_id now in
      let v0 = (shared-touch_established r ds msg.device_id now n v).table in
      let handled =
        account-on_payload r0 ds msg.device_id msg.token msg.payload now healthy v0 ∙ touched in
      elim (Bool-cases (is_register msg.payload)) [
        | inl registers ↦ rw (registers, on_message) handled
        | inr other ↦ elim (Option-cases ds.current_device_id) [
          | inl e ↦ rw (other, e, on_message) (account-reject k r0 _ _ _ ∙ touched)
          | inr (id, e) ↦ elim (Bool-cases (id == msg.device_id)) [
            | inl same ↦ rw (other, e, same, on_message) handled
            | inr apart ↦ rw (other, e, apart, on_message) (account-reject k r0 _ _ _ ∙ touched)
          ]
        ]
      ]

  pub account-round :
      (r : Relay) (ds : DeviceStream) (i : Inbound) (n : ℕ)
      → IsSound n (shared r)
      → account k (relay_of (round r ds i)) ≡ account k r
  unfolding round
  account-round r ds (message msg now healthy) n v = account-on_message r ds msg now n healthy v
  account-round r ds transport_error n v = refl
  account-round r ds end_of_stream n v = refl
  account-round r ds elapsed n v = refl

  account-announce_offline :
      (r : Relay) (d : Str) (reason : Reason) (session : Option DeviceSession)
      → account k (announce_offline r d reason session) ≡ account k r
  unfolding announce_offline answered
  account-announce_offline r d reason none = account-audited k _ r
  account-announce_offline r d reason (some x) =
      account-audited k _ _ ∙ account-published k _ r refl

  pending-removed :
      (s : RelayState) (d : Str) → pending k (remove_device_session s d).1 ≡ pending k s
  unfolding pending
  pending-removed s d =
      ap (λ (m : HashMap.HashMap (Str × ℤ) InFlight). total (λ f. count k f.waiters) m)
        (remove_device_session-inflight s d)

  account-close_session :
      (r : Relay) (d : Str) (reason : Reason) → account k (close_session r d reason) ≡ account k r
  unfolding close_session
  account-close_session r d reason =
      let session = HashMap.get d r.state.sessions_by_device_id in
      let announced = account-announce_offline r d reason session in
      let same =
        ap (λ (p : RelayState × StreamRouter). pending k p.0)
          (shared-announce_offline r d reason session) in
      let kept = pending-removed r.state d in omega (arith, announced, same, kept)

  pub account-finish :
      (r : Relay) (ds : DeviceStream) (reason : Reason) (n : ℕ)
      → IsSound n (shared r)
      → account k (finish r ds reason) ≡ account k r
  unfolding finish
  account-finish r ds reason n v = elim (Option-cases ds.current_device_id) [
    | inl e ↦ rw (e, finish) refl
    | inr (d, e) ↦
        let r1 = drop_device r d in
        let dropped = account-drop_device k r d v.table in
        elim (Bool-cases (owns_session r1.state ds d)) [
          | inl own ↦
              rw (e, own, finish) (account-close_session r1 d (final_reason reason) ∙ dropped)
          | inr other ↦ rw (e, other, finish) dropped
        ]
  ]

  -- For each one-shot channel, the number of responses sent to it and of its places in the
  -- in-flight table add up to the same after any run of a device stream as before, so no waiter is
  -- lost and none is answered twice. The tables agree at the start, and the connection numbers do
  -- not wrap during the run.
  pub run_device_connect_stream_conserves :
      (r : Relay) (ds : DeviceStream) (inbound : List Inbound) (n : ℕ)
      → n + length inbound < u64_mod
      → IsSound n (shared r)
      → account k (run_device_connect_stream r ds inbound).0 ≡ account k r
  unfolding run_device_connect_stream
  run_device_connect_stream_conserves r ds [] n small v = refl
  run_device_connect_stream_conserves r ds (i ∷ is) n small v =
      let v1 = round-IsSound r ds i n (omega (arith, small)) v in
      let first = account-round r ds i n v in
      elim (Round-cases (round r ds i)) [
        | inl (r', ds', e) ↦
            let v2 : IsSound (n + 1) (shared r') = rw e at v1 in
            rw (e, run_device_connect_stream)
              (run_device_connect_stream_conserves r' ds' is (n + 1) (omega (arith, small)) v2
                ∙ (rw e at first))
        | inr (r', ds', reason, e) ↦
            let v2 : IsSound (n + 1) (shared r') = rw e at v1 in
            rw (e, run_device_connect_stream)
              (account-finish r' ds' reason (n + 1) v2 ∙ (rw e at first))
      ]
