-- ===== src/ControllerStream/Deliveries.antt =====
-- crates/relay/src/grpc_service.rs, `run_connect_to_device_stream`: the responses sent to
-- waiting channels, and the places in the in-flight table, through a message and what follows it.
use g_rpc_relay.Base.{
  ℕ, ◌+◌, ◌≤◌, ◌≡◌, refl, ◌∙◌, inl, inr, Bool, arith, if◌then◌else◌, eqb, ◌<◌, is_some, Bool-cases,
  Option-cases, Result-cases, list_eq, ℕ_eq, ℤ_eq, pair_eq,
}
use mathlib.Core.List.{append-nil}
use g_rpc_relay.Proto.{ControllerMessage, DeviceResponse}
use g_rpc_relay.State.{decrement_controller_connections}
use g_rpc_relay.State.Waiters.{pending}
use g_rpc_relay.Stream.{remove_mapping}
use g_rpc_relay.Auth.{Decode}
use g_rpc_relay.Service.{cache_inserted, Relay, emit}
use g_rpc_relay.DeviceStream.Answers.{answered, account, account-audited, account-emit}
use g_rpc_relay.ControllerStream.{
  ControllerStream, Surroundings, check_message, check_binding, on_message, on_response, on_closed,
  store_response, finish_current, remove_stream, disconnect_controller, finish, send_error_response,
}
use g_rpc_relay.ControllerStream.Invariant.{relay_of}
use g_rpc_relay.Stream.{usize_mod}
use g_rpc_relay.DeviceStream.Frames.{shared}
use g_rpc_relay.DeviceStream.Invariant.{IsSound}
use g_rpc_relay.ControllerStream.Rounds.{check_binding-IsSound}
use g_rpc_relay.ControllerStream.Answers.{account-serve}
use g_rpc_relay.ControllerStream.Refusals.{check_message-Keeps, check_binding-Keeps}

served_le :
    (cached own : Bool) → (if cached then 0 else if own then 1 else 0) ≤ (if own then 1 else 0)
served_le cached own = ground (arith, Bool-cases cached, Bool-cases own)

module _ (decode : Decode) (k : ℕ) (r : Relay) (cs : ControllerStream) (msg : ControllerMessage)
    (env : Surroundings) where
  -- A message adds to what a channel got and waits for at most the one place that it takes.
  pub account-on_message :
      (n : ℕ)
      → IsSound n (shared r)
      → r.router.counter + 1 < usize_mod
      → account k (relay_of (on_message decode r cs msg env))
        ≤ account k r + (if eqb env.waiter k then 1 else 0)
  unfolding on_message
  account-on_message n v small =
      let checked = check_message-Keeps k (account k r) r cs msg refl in
      let bound = check_binding-Keeps decode k (account k r) r cs msg env refl in
      let sound = check_binding-IsSound decode n r cs msg env v small in
      elim (Result-cases (check_message r cs msg)) [
        | inr ((p, ps), bad) ↦ rw (bad, on_message) (omega (arith, rw bad at checked))
        | inl (u, good) ↦ elim (Result-cases (check_binding decode r cs msg env)) [
          | inr ((p, ps), refused) ↦
              rw (good, refused, on_message) (omega (arith, rw refused at bound))
          | inl ((p, ps), passed) ↦
              let w : IsSound n (shared p) = rw passed at sound in
              rw (good, passed, on_message)
                (omega (
                  arith,
                  rw passed at bound,
                  account-serve k ps msg env p w.table,
                  served_le (is_some env.cached) (eqb env.waiter k),
                ))
        ]
      ]

module _ (k : ℕ) (r : Relay) (cs : ControllerStream) where
  account-store_response :
      (msg : ControllerMessage) (is_new_forwarder : Bool) (resp : DeviceResponse)
      → account k (store_response r msg is_new_forwarder resp) ≡ account k r
  unfolding store_response emit answered
  account-store_response msg is_new_forwarder resp = elim (Bool-cases is_new_forwarder) [
    | inl new ↦
        rw (new, store_response)
          (account-emit k (cache_inserted msg.target_device_id msg.sequence_number resp) r refl)
    | inr old ↦ rw (old, append-nil, store_response) refl
  ]

  pub account-on_response :
      (msg : ControllerMessage) (is_new_forwarder : Bool) (resp : DeviceResponse) (latency now : ℕ)
      → account k (on_response r cs msg is_new_forwarder resp latency now) ≡ account k r
  unfolding on_response finish_current answered
  account-on_response msg is_new_forwarder resp latency now =
      account-emit k _ _ refl
      ∙ account-audited k _ _
      ∙ account-emit k _ _ refl
      ∙ account-emit k _ _ refl
      ∙ account-emit k _ _ refl
      ∙ account-emit k _ _ refl
      ∙ account-store_response msg is_new_forwarder resp

  pub account-on_closed :
      (msg : ControllerMessage) (latency now : ℕ)
      → account k (on_closed r cs msg latency now) ≡ account k r
  unfolding on_closed send_error_response finish_current answered
  account-on_closed msg latency now =
      account-emit k _ _ refl
      ∙ account-audited k _ _
      ∙ account-audited k _ _
      ∙ account-emit k _ _ refl
      ∙ account-emit k _ (finish_current cs now r) refl

  account-remove_stream : account k (remove_stream cs r) ≡ account k r
  unfolding remove_stream answered
  account-remove_stream = elim (Option-cases cs.stream_id) [
    | inl e ↦ rw (e, remove_stream) refl
    | inr (sid, e) ↦ elim (Option-cases cs.stream_binding) [
      | inl f ↦
          rw (e, f, remove_stream)
            (account-emit k _ (record r { router = (remove_mapping r.router sid).1 }) refl)
      | inr (binding, f) ↦
          rw (e, f, remove_stream) (account-emit k _ _ refl ∙ account-audited k _ r)
    ]
  ]

  account-disconnect_controller :
      (lifetime : ℕ) → account k (disconnect_controller cs lifetime r) ≡ account k r
  unfolding disconnect_controller decrement_controller_connections pending answered
  account-disconnect_controller lifetime = elim (Bool-cases cs.controller_connected) [
    | inr never ↦ rw (never, disconnect_controller) refl
    | inl connected ↦ elim (Option-cases cs.stream_binding) [
      | inl e ↦ rw (connected, e, disconnect_controller) refl
      | inr (binding, e) ↦
          rw (connected, e, disconnect_controller)
            (account-emit k _ _ refl
              ∙ account-audited k _ (record r { state = decrement_controller_connections r.state }))
    ]
  ]

pub account-finish :
    (k : ℕ) (r : Relay) (cs : ControllerStream) (lifetime : ℕ)
    → account k (finish r cs lifetime) ≡ account k r
unfolding finish
account-finish k r cs lifetime =
    account-disconnect_controller k (remove_stream cs r) cs lifetime ∙ account-remove_stream k r cs
