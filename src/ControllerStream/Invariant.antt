-- ===== src/ControllerStream/Invariant.antt =====
-- crates/relay/src/grpc_service.rs, `run_connect_to_device_stream`: the tables of the relay while a
-- request is served.
use g_rpc_relay.Base.{
  ℕ, ◌+◌, ◌<◌, inl, inr, ℤ, ok, err, length, Bool-cases, Option-cases, Result-cases, list_eq, ℕ_eq,
  ℤ_eq, pair_eq,
}
use g_rpc_relay.Collections.HashMap
use g_rpc_relay.Text.{Str}
use g_rpc_relay.Proto.{ControllerMessage}
use g_rpc_relay.State.{DeviceSession, ensure_inflight_waiter}
use g_rpc_relay.State.Waiters.{ensure_inflight_waiter-IsTable}
use g_rpc_relay.Session.{get_device_session}
use g_rpc_relay.Stream.{StreamRouter, usize_mod, create_mapping}
use g_rpc_relay.Stream
use g_rpc_relay.Stream.Invariant.{IsIndexed}
use g_rpc_relay.Stream.Create.{create_mapping-IsIndexed}
use g_rpc_relay.Stream.Cleanup.{begin_request-IsIndexed, finish_request-IsIndexed}
use g_rpc_relay.RateLimiter.Bandwidth.{record_and_check}
use g_rpc_relay.Service.{Relay, audited, emit, deliver_all}
use g_rpc_relay.DeviceStream.Frames.{shared}
use g_rpc_relay.DeviceStream.Invariant.{IsSound, take_inflight-IsSound}
use g_rpc_relay.ControllerStream.{
  ControllerStream, Surroundings, Step, continue, wait, Check, refuse, open_stream, refuse_stream,
  begin_current, finish_current, fail_inflight, send_to_device, forward, serve, send_error_response,
}

abbrev pub relay_of : Step → Relay
relay_of (continue q qs) = q
relay_of (wait q qs is_new_forwarder) = q

-- The tables after a check, whether it goes on or not.
abbrev pub IsSoundCheck : ℕ → Check (Relay × ControllerStream) → Type 0
IsSoundCheck n (ok p) = IsSound n (shared p.0)
IsSoundCheck n (err p) = IsSound n (shared p.0)

refuse_stream-IsSound :
    (n : ℕ) (q : Relay) (cs : ControllerStream) (msg : ControllerMessage)
    → (kind : Stream.StreamRouterErrorKind) → IsSound n (shared q)
    → IsSoundCheck n (refuse_stream q cs msg kind)
unfolding refuse_stream refuse send_error_response emit audited
refuse_stream-IsSound n q cs msg Stream.max_streams_exceeded w = w
refuse_stream-IsSound n q cs msg Stream.device_offline w = w
refuse_stream-IsSound n q cs msg Stream.internal w = w

module _ (n : ℕ) (r : Relay) (v : IsSound n (shared r)) where
  pub with_router : (ro : StreamRouter) → IsIndexed ro → IsSound n (r.state, ro)
  with_router ro w = record {
    sessions = v.sessions;
    table = v.table;
    indexed = w;
    counted = v.counted;
  }

  pub with_connections :
      (count : ℕ) → IsSound n (record r.state { controller_connection_count = count }, r.router)
  with_connections count = record {
    sessions = record {
      forward = v.sessions.forward;
      backward = v.sessions.backward;
      fresh = v.sessions.fresh;
    };
    table = record { distinct = v.table.distinct; keyed = v.table.keyed };
    indexed = v.indexed;
    counted = v.counted;
  }

  ensure-IsSound :
      (seq : ℤ) (d : Str) (tx : ℕ)
      → IsSound n ((ensure_inflight_waiter r.state seq d tx).0, r.router)
  unfolding ensure_inflight_waiter
  ensure-IsSound seq d tx =
      let table = ensure_inflight_waiter-IsTable r.state seq d tx v.table in
      elim (Option-cases (HashMap.get (d, seq) r.state.inflight_by_sequence)) [
        | inl e ↦
            rw (e, ensure_inflight_waiter)
              (record {
                sessions = record {
                  forward = v.sessions.forward;
                  backward = v.sessions.backward;
                  fresh = v.sessions.fresh;
                };
                table = rw (e, ensure_inflight_waiter) at table;
                indexed = v.indexed;
                counted = v.counted;
              })
        | inr (f, e) ↦
            rw (e, ensure_inflight_waiter)
              (record {
                sessions = record {
                  forward = v.sessions.forward;
                  backward = v.sessions.backward;
                  fresh = v.sessions.fresh;
                };
                table = rw (e, ensure_inflight_waiter) at table;
                indexed = v.indexed;
                counted = v.counted;
              })
      ]

  begin_current-IsSound :
      (cs : ControllerStream) (now : ℕ) → IsSound n (shared (begin_current cs now r))
  unfolding begin_current
  begin_current-IsSound cs now = elim (Option-cases cs.stream_id) [
    | inl e ↦ rw e v
    | inr (sid, e) ↦ rw e (with_router _ (begin_request-IsIndexed r.router sid now v.indexed))
  ]

  pub finish_current-IsSound :
      (cs : ControllerStream) (now : ℕ) → IsSound n (shared (finish_current cs now r))
  unfolding finish_current
  finish_current-IsSound cs now = elim (Option-cases cs.stream_id) [
    | inl e ↦ rw e v
    | inr (sid, e) ↦ rw e (with_router _ (finish_request-IsIndexed r.router sid now v.indexed))
  ]

  pub fail_inflight-IsSound : (d : Str) (seq : ℤ) → IsSound n (shared (fail_inflight d seq r))
  unfolding fail_inflight deliver_all
  fail_inflight-IsSound d seq = take_inflight-IsSound n r.state r.router d v seq

  pub open_stream-IsSound :
      (cs : ControllerStream) (msg : ControllerMessage) (env : Surroundings)
      → r.router.counter + 1 < usize_mod
      → IsSoundCheck n (open_stream r cs msg env)
  unfolding open_stream refuse_stream refuse send_error_response emit audited
  open_stream-IsSound cs msg env small =
      let opened = with_router _ (
        create_mapping-IsIndexed r.router msg.target_device_id msg.controller_id msg.method_name
          cs.out_tx env.created v.indexed small) in
      elim (Result-cases
        (create_mapping r.router msg.target_device_id msg.controller_id msg.method_name cs.out_tx
          env.created).0) [
            | inl (sid, e) ↦ rw (e, open_stream) opened
            | inr (bad, e) ↦ rw (e, open_stream) (refuse_stream-IsSound n _ cs msg bad.kind opened)
          ]

module _ (n : ℕ) (cs : ControllerStream) (msg : ControllerMessage) (env : Surroundings) where
  send_to_device-IsSound :
      (r : Relay) (session : DeviceSession)
      → IsSound n (shared r)
      → IsSound n (shared (relay_of (send_to_device r cs msg env session)))
  unfolding send_to_device send_error_response emit audited
  send_to_device-IsSound r session v =
      let (t0, t1, t2) = env.recorded in
      elim (Bool-cases
        (record_and_check r.bandwidth_tracker msg.target_device_id msg.controller_id
          (length msg.encrypted_payload) t0 t1 t2).1) [
            | inr over ↦ rw (over, send_to_device) (finish_current-IsSound n _ v cs env.finished)
            | inl within ↦ elim (Bool-cases env.is_sent) [
              | inl sent ↦ rw (within, sent, send_to_device) v
              | inr lost ↦
                  rw (within, lost, send_to_device)
                    (finish_current-IsSound n _
                      (fail_inflight-IsSound n _ v msg.target_device_id msg.sequence_number) cs
                      env.finished)
            ]
          ]

  forward-IsSound :
      (r : Relay) → IsSound n (shared r) → IsSound n (shared (relay_of (forward r cs msg env)))
  unfolding forward
  forward-IsSound r v = elim (Option-cases (get_device_session r.state msg.target_device_id)) [
    | inl e ↦
        rw (e, forward)
          (finish_current-IsSound n _
            (fail_inflight-IsSound n r v msg.target_device_id msg.sequence_number) cs env.finished)
    | inr (session, e) ↦ rw (e, forward) (send_to_device-IsSound r session v)
  ]

  pub serve-IsSound :
      (r : Relay) → IsSound n (shared r) → IsSound n (shared (relay_of (serve r cs msg env)))
  unfolding serve emit
  serve-IsSound r v =
      let r1 = begin_current cs env.begun r in
      let v1 = begin_current-IsSound n r v cs env.begun in
      elim (Option-cases env.cached) [
        | inr (resp, e) ↦ rw (e, serve) (finish_current-IsSound n _ v1 cs env.finished)
        | inl e ↦
            let (s2, is_new) =
              ensure_inflight_waiter r1.state msg.sequence_number msg.target_device_id env.waiter in
            let v2 = ensure-IsSound n r1 v1 msg.sequence_number msg.target_device_id env.waiter in
            elim (Bool-cases is_new) [
              | inl new ↦ rw (e, new, serve) (forward-IsSound (record r1 { state = s2 }) v2)
              | inr old ↦ rw (e, old, serve) v2
            ]
      ]
