-- ===== src/ControllerStream/Balance.antt =====
-- crates/relay/src/grpc_service.rs, `run_connect_to_device_stream`: the count of requests in
-- progress, which protects a stream from the clean-up.
use g_rpc_relay.Base.{
  ℕ, ◌+◌, ◌-◌, ◌<◌, ◌≡◌, refl, ap, ◌∙◌, inl, inr, Bool, none, some, arith, length, ==_refl,
  Bool-cases, Option-cases, list_eq, ℕ_eq,
}
use g_rpc_relay.Collections.HashMap
use g_rpc_relay.Collections.HashMap.{get-modify, get-modify_self}
use g_rpc_relay.Text.{Str}
use g_rpc_relay.Proto.{ControllerMessage, DeviceResponse}
use g_rpc_relay.State.{DeviceSession, ensure_inflight_waiter}
use g_rpc_relay.Session.{get_device_session}
use g_rpc_relay.Stream.{
  StreamMapping, StreamRouter, usize_mod, begun, finished, begin_request, finish_request,
}
use g_rpc_relay.RateLimiter.Bandwidth.{record_and_check}
use g_rpc_relay.Service.{Relay, audited, emit, deliver_all}
use g_rpc_relay.ControllerStream.{
  ControllerStream, Surroundings, Step, continue, wait, begin_current, finish_current,
  fail_inflight, send_to_device, forward, serve, on_response, on_closed, store_response,
  send_error_response,
}

-- What a step does to the router: the request has ended, or it is in progress.
abbrev pub Routed : ControllerStream → Surroundings → Relay → Step → Type 0
Routed cs env r (continue q qs) =
    q.router ≡ (finish_current cs env.finished (begin_current cs env.begun r)).router
Routed cs env r (wait q qs is_new_forwarder) = q.router ≡ (begin_current cs env.begun r).router

module _ (r : Relay) (cs : ControllerStream) (msg : ControllerMessage) (env : Surroundings) where
  ended :
      (q : Relay)
      → q.router ≡ (begin_current cs env.begun r).router
      → (finish_current cs env.finished q).router
        ≡ (finish_current cs env.finished (begin_current cs env.begun r)).router
  unfolding finish_current
  ended q h =
      ap
        (λ (ro : StreamRouter). elim cs.stream_id as (λ _. StreamRouter) [
          | none ↦ ro
          | some sid ↦ finish_request ro sid env.finished
        ])
        h

  send_to_device-Routed :
      (q : Relay) (session : DeviceSession)
      → q.router ≡ (begin_current cs env.begun r).router
      → Routed cs env r (send_to_device q cs msg env session)
  unfolding send_to_device finish_current fail_inflight send_error_response emit audited deliver_all
  send_to_device-Routed q session h =
      let (t0, t1, t2) = env.recorded in
      elim (Bool-cases
        (record_and_check q.bandwidth_tracker msg.target_device_id msg.controller_id
          (length msg.encrypted_payload) t0 t1 t2).1) [
            | inr over ↦ rw (over, send_to_device) (ended q h)
            | inl within ↦ elim (Bool-cases env.is_sent) [
              | inl sent ↦ rw (within, sent, send_to_device) h
              | inr lost ↦ rw (within, lost, send_to_device) (ended q h)
            ]
          ]

  forward-Routed :
      (q : Relay)
      → q.router ≡ (begin_current cs env.begun r).router
      → Routed cs env r (forward q cs msg env)
  unfolding forward fail_inflight deliver_all finish_current
  forward-Routed q h = elim (Option-cases (get_device_session q.state msg.target_device_id)) [
    | inl e ↦ rw (e, forward) (ended q h)
    | inr (session, e) ↦ rw (e, forward) (send_to_device-Routed q session h)
  ]

  serve-Routed : Routed cs env r (serve r cs msg env)
  unfolding serve emit finish_current
  serve-Routed =
      let r1 = begin_current cs env.begun r in
      elim (Option-cases env.cached) [
        | inr (resp, e) ↦ rw (e, serve) refl
        | inl e ↦
            let (s2, is_new) =
              ensure_inflight_waiter r1.state msg.sequence_number msg.target_device_id env.waiter in
            elim (Bool-cases is_new) [
              | inl new ↦ rw (e, new, serve) (forward-Routed (record r1 { state = s2 }) refl)
              | inr old ↦ rw (e, old, serve) refl
            ]
      ]

-- How many requests of a stream are in progress.
abbrev pub in_progress : Str → StreamRouter → ℕ
in_progress sid ro = elim (HashMap.get sid ro.mappings) [ none ↦ 0 | some m ↦ m.active_requests ]

abbrev pub Balanced : Str → ℕ → Step → Type 0
Balanced sid n (continue q qs) = in_progress sid q.router ≡ n
Balanced sid n (wait q qs is_new_forwarder) =
    (in_progress sid q.router ≡ n + 1)
    × ((cs : ControllerStream) (msg : ControllerMessage) (resp : DeviceResponse) (latency now : ℕ)
        → cs.stream_id ≡ some sid
        → (in_progress sid (on_response q cs msg is_new_forwarder resp latency now).router ≡ n)
          × (in_progress sid (on_closed q cs msg latency now).router ≡ n))

in_progress-begin :
    (sid : Str) (ro : StreamRouter) (m : StreamMapping) (now : ℕ)
    → HashMap.get sid ro.mappings ≡ some m
    → m.active_requests + 1 < usize_mod
    → in_progress sid (begin_request ro sid now) ≡ m.active_requests + 1
unfolding begin_request
in_progress-begin sid ro m now found small =
    ground (arith, get-modify_self sid (begun now) m ro.mappings found, small)

in_progress-finish :
    (sid : Str) (ro : StreamRouter) (now : ℕ)
    → in_progress sid (finish_request ro sid now) ≡ in_progress sid ro - 1
unfolding finish_request
in_progress-finish sid ro now = elim (Option-cases (HashMap.get sid ro.mappings)) [
  | inl e ↦ ground (arith, e, get-modify sid sid (finished now) ro.mappings)
  | inr (m, e) ↦ ground (arith, e, get-modify sid sid (finished now) ro.mappings, ==_refl sid)
]

on_response-in_progress :
    (q : Relay) (cs : ControllerStream) (msg : ControllerMessage) (is_new_forwarder : Bool)
    → (resp : DeviceResponse) (latency now : ℕ) (sid : Str) → cs.stream_id ≡ some sid
    → (in_progress sid (on_response q cs msg is_new_forwarder resp latency now).router
        ≡ in_progress sid q.router - 1)
      × (in_progress sid (on_closed q cs msg latency now).router ≡ in_progress sid q.router - 1)
unfolding on_response on_closed store_response send_error_response emit audited finish_current
on_response-in_progress q cs msg is_new_forwarder resp latency now sid opened =
    rw opened (in_progress-finish sid q.router now, in_progress-finish sid q.router now)

-- Serving a message on an open stream, whose mapping exists and whose count of requests in
-- progress can grow by one, either deals with the message and leaves the count as it was, or waits
-- with the count one higher; then `on_response` or `on_closed`, on the relay that waits, brings it
-- back.
pub serve-Balanced :
    (r : Relay) (cs : ControllerStream) (msg : ControllerMessage) (env : Surroundings)
    → (sid : Str) (m : StreamMapping) → cs.stream_id ≡ some sid
    → HashMap.get sid r.router.mappings ≡ some m
    → m.active_requests + 1 < usize_mod
    → Balanced sid m.active_requests (serve r cs msg env)
serve-Balanced r cs msg env sid m opened found small =
    settle (serve r cs msg env) (serve-Routed r cs msg env)
  where
    busy : in_progress sid (begin_current cs env.begun r).router ≡ m.active_requests + 1
    busy =
        unfold begin_current in rw opened (in_progress-begin sid r.router m env.begun found small)

    over :
        in_progress sid (finish_current cs env.finished (begin_current cs env.begun r)).router
        ≡ m.active_requests
    over =
        unfold finish_current in
        rw opened (
          in_progress-finish sid (begin_current cs env.begun r).router env.finished
          ∙ omega (arith, busy))

    settle : (o : Step) → Routed cs env r o → Balanced sid m.active_requests o
    settle (continue q qs) h = ap (in_progress sid) h ∙ over
    settle (wait q qs is_new_forwarder) h =
        let now_busy : in_progress sid q.router ≡ m.active_requests + 1 =
          ap (in_progress sid) h ∙ busy in
        (
          now_busy,
          λ cs' msg' resp latency now opened'.
              let (got, lost) =
                on_response-in_progress q cs' msg' is_new_forwarder resp latency now sid opened' in
              (omega (arith, got, now_busy), omega (arith, lost, now_busy)),
        )
