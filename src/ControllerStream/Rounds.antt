-- ===== src/ControllerStream/Rounds.antt =====
-- crates/relay/src/grpc_service.rs, `run_connect_to_device_stream`: the tables of the relay
-- through a round and the end of the loop.
use g_rpc_relay.Base.{
  ℕ, ◌+◌, ◌<◌, inl, inr, Bool, Bool-cases, Option-cases, Result-cases, list_eq, ℕ_eq,
}
use g_rpc_relay.Proto.{ControllerMessage, DeviceResponse}
use g_rpc_relay.State.{decrement_controller_connections}
use g_rpc_relay.Stream.{usize_mod}
use g_rpc_relay.Stream.Invariant.{remove_mapping-IsIndexed}
use g_rpc_relay.Auth.{Decode}
use g_rpc_relay.Service.{Relay, audited, emit}
use g_rpc_relay.DeviceStream.Frames.{shared}
use g_rpc_relay.DeviceStream.Invariant.{IsSound}
use g_rpc_relay.ControllerStream.{
  ControllerStream, Surroundings, refuse, check_message, check_binding, is_bound, on_message,
  send_error_response, on_response, on_closed, on_timeout, store_response, remove_stream,
  disconnect_controller, finish,
}
use g_rpc_relay.ControllerStream.Admission.{check_message_refused}
use g_rpc_relay.ControllerStream.Invariant.{
  relay_of, IsSoundCheck, with_router, with_connections, finish_current-IsSound,
  fail_inflight-IsSound, serve-IsSound,
}
use g_rpc_relay.ControllerStream.Checks.{same_shared, establish-IsSound}

module _ (decode : Decode) (n : ℕ) (r : Relay) (cs : ControllerStream) (msg : ControllerMessage)
    (env : Surroundings) (v : IsSound n (shared r)) (small : r.router.counter + 1 < usize_mod) where
  pub check_binding-IsSound : IsSoundCheck n (check_binding decode r cs msg env)
  unfolding check_binding refuse send_error_response emit
  check_binding-IsSound = elim (Option-cases cs.stream_id) [
    | inl closed ↦ rw (closed, check_binding) (establish-IsSound decode n r cs msg env v small)
    | inr (sid, opened) ↦ elim (Option-cases cs.stream_binding) [
      | inl none_yet ↦ rw (opened, none_yet, check_binding) v
      | inr (binding, bound) ↦ elim (Bool-cases (is_bound binding msg)) [
        | inl same ↦ rw (opened, bound, same, check_binding) v
        | inr other ↦ rw (opened, bound, other, check_binding) v
      ]
    ]
  ]

  -- From tables that agree and a stream counter that does not wrap, serving any message of a
  -- controller leads to tables that agree, and gives out no connection number.
  pub on_message-IsSound : IsSound n (shared (relay_of (on_message decode r cs msg env)))
  unfolding on_message
  on_message-IsSound = elim (Result-cases (check_message r cs msg)) [
    | inr ((p, ps), bad) ↦
        let (state, router, _) = check_message_refused r cs msg (p, ps) bad in
        rw (bad, on_message) (same_shared n r p state router v)
    | inl (u, good) ↦ elim (Result-cases (check_binding decode r cs msg env)) [
      | inr ((p, ps), refused) ↦
          rw (good, refused, on_message) (rw refused at check_binding-IsSound)
      | inl ((p, ps), passed) ↦
          rw (good, passed, on_message)
            (serve-IsSound n ps msg env p (rw passed at check_binding-IsSound))
    ]
  ]

module _ (n : ℕ) (r : Relay) (cs : ControllerStream) (v : IsSound n (shared r)) where
  pub on_timeout-IsSound : (msg : ControllerMessage) → IsSound n (shared (on_timeout r msg))
  unfolding on_timeout
  on_timeout-IsSound msg = fail_inflight-IsSound n r v msg.target_device_id msg.sequence_number

  pub on_response-IsSound :
      (msg : ControllerMessage) (is_new_forwarder : Bool) (resp : DeviceResponse) (latency now : ℕ)
      → IsSound n (shared (on_response r cs msg is_new_forwarder resp latency now))
  unfolding on_response store_response emit audited
  on_response-IsSound msg is_new_forwarder resp latency now =
      finish_current-IsSound n (store_response r msg is_new_forwarder resp) v cs now

  pub on_closed-IsSound :
      (msg : ControllerMessage) (latency now : ℕ)
      → IsSound n (shared (on_closed r cs msg latency now))
  unfolding on_closed send_error_response emit audited
  on_closed-IsSound msg latency now = finish_current-IsSound n r v cs now

  remove_stream-IsSound : IsSound n (shared (remove_stream cs r))
  unfolding remove_stream emit audited
  remove_stream-IsSound = elim (Option-cases cs.stream_id) [
    | inl e ↦ rw (e, remove_stream) v
    | inr (sid, e) ↦
        let removed = with_router n r v _ (remove_mapping-IsIndexed r.router sid v.indexed) in
        elim (Option-cases cs.stream_binding) [
          | inl f ↦ rw (e, f, remove_stream) removed
          | inr (binding, f) ↦ rw (e, f, remove_stream) removed
        ]
  ]

  disconnect_controller-IsSound :
      (lifetime : ℕ) → IsSound n (shared (disconnect_controller cs lifetime r))
  unfolding disconnect_controller decrement_controller_connections emit audited
  disconnect_controller-IsSound lifetime =
      let out = with_connections n r v _ in
      elim (Bool-cases cs.controller_connected) [
        | inr never ↦ rw (never, disconnect_controller) v
        | inl connected ↦ elim (Option-cases cs.stream_binding) [
          | inl e ↦ rw (connected, e, disconnect_controller) out
          | inr (binding, e) ↦ rw (connected, e, disconnect_controller) out
        ]
      ]

-- The end of a controller stream keeps the tables in step as well.
pub finish-IsSound :
    (n : ℕ) (r : Relay) (cs : ControllerStream) (lifetime : ℕ)
    → IsSound n (shared r)
    → IsSound n (shared (finish r cs lifetime))
unfolding finish
finish-IsSound n r cs lifetime v =
    disconnect_controller-IsSound n (remove_stream cs r) cs (remove_stream-IsSound n r cs v)
      lifetime
