-- ===== src/ControllerStream/Answers.antt =====
-- crates/relay/src/grpc_service.rs, `run_connect_to_device_stream`: what serving a request does to
-- those who wait for a response.
use g_rpc_relay.Base.{
  ℕ, ◌+◌, ◌≡◌, refl, ◌∙◌, inl, inr, ℤ, arith, if◌then◌else◌, eqb, is_some, length, list_eq, ℕ_eq,
  ℤ_eq, pair_eq, Bool-cases, Option-cases,
}
use g_rpc_relay.Text.{Str, str}
use g_rpc_relay.Proto
use g_rpc_relay.Proto.{ControllerMessage}
use g_rpc_relay.State.{DeviceSession, ensure_inflight_waiter, take_inflight}
use g_rpc_relay.State.Waiters.{
  delivered, delivered-complete, IsTable, ensure_inflight_waiter-IsTable,
  ensure_inflight_waiter-pending, take_inflight-pending,
}
use g_rpc_relay.Session.{get_device_session}
use g_rpc_relay.RateLimiter.Bandwidth.{record_and_check}
use g_rpc_relay.Service.{AuditEvent, Relay, failure, audited}
use g_rpc_relay.DeviceStream.Answers.{
  answered, account, account-audited, account-emit, account-deliver_all,
}
use g_rpc_relay.ControllerStream.{
  ControllerStream, Surroundings, error_resp, send_error_response, begin_current, finish_current,
  fail_inflight, send_to_device, forward, serve,
}
use g_rpc_relay.ControllerStream.Invariant.{relay_of}

module _ (k : ℕ) where
  pub account-fail_inflight :
      (r : Relay) (d : Str) (seq : ℤ)
      → IsTable r.state
      → account k (fail_inflight d seq r) ≡ account k r
  unfolding fail_inflight
  account-fail_inflight r d seq v =
      let taken = take_inflight-pending r.state seq d k v in
      elim (Option-cases (take_inflight r.state d seq).0) [
        | inl e ↦
            rw (e, fail_inflight)
              (account-deliver_all k _ _ ∙ unfold delivered in omega (arith, rw e at taken))
        | inr (f, e) ↦
            rw (e, fail_inflight)
              (account-deliver_all k _ _
                ∙ omega (
                  arith,
                  rw e at taken,
                  delivered-complete k f (error_resp d seq Proto.device_offline),
                ))
      ]

  account-fail_inflight-audited :
      (r : Relay) (e : AuditEvent) (d : Str) (seq : ℤ)
      → IsTable r.state
      → account k (fail_inflight d seq (audited e r)) ≡ account k r
  unfolding audited
  account-fail_inflight-audited r e d seq v =
      account-fail_inflight (audited e r) d seq v ∙ account-audited k e r

  module _ (cs : ControllerStream) (msg : ControllerMessage) (env : Surroundings) where
    account-send_to_device :
        (r : Relay) (session : DeviceSession)
        → IsTable r.state
        → account k (relay_of (send_to_device r cs msg env session)) ≡ account k r
    unfolding send_to_device finish_current send_error_response answered
    account-send_to_device r session v =
        let (t0, t1, t2) = env.recorded in
        elim (Bool-cases
          (record_and_check r.bandwidth_tracker msg.target_device_id msg.controller_id
            (length msg.encrypted_payload) t0 t1 t2).1) [
              | inr over ↦
                  rw (over, send_to_device)
                    (account-emit k _ _ refl ∙ account-emit k _ _ refl ∙ account-audited k _ _)
              | inl within ↦ elim (Bool-cases env.is_sent) [
                | inl sent ↦ rw (within, sent, send_to_device) (account-emit k _ _ refl)
                | inr lost ↦
                    rw (within, lost, send_to_device)
                      (account-fail_inflight-audited
                        (record r {
                          bandwidth_tracker =
                              (record_and_check r.bandwidth_tracker msg.target_device_id
                                msg.controller_id (length msg.encrypted_payload) t0 t1 t2).0;
                        })
                        (failure (str "failed to forward request to device")
                          (str "DEVICE_FORWARD_FAILED"))
                        msg.target_device_id msg.sequence_number v)
              ]
            ]

    account-forward :
        (r : Relay) → IsTable r.state → account k (relay_of (forward r cs msg env)) ≡ account k r
    unfolding forward finish_current
    account-forward r v = elim (Option-cases (get_device_session r.state msg.target_device_id)) [
      | inl e ↦ rw (e, forward) (account-fail_inflight r msg.target_device_id msg.sequence_number v)
      | inr (session, e) ↦ rw (e, forward) (account-send_to_device r session v)
    ]

    -- From a table with no key twice, serving a message that the cache does not answer adds one to
    -- what its own channel gets or waits for; for every other channel, and for a message that the
    -- cache answers, the responses sent and the places in the in-flight table add up as before.
    pub account-serve :
        (r : Relay)
        → IsTable r.state
        → account k (relay_of (serve r cs msg env))
          ≡ account k r + (if is_some env.cached then 0 else if eqb env.waiter k then 1 else 0)
    unfolding serve begin_current finish_current answered
    account-serve r v =
        let put =
          ensure_inflight_waiter-pending r.state msg.sequence_number msg.target_device_id env.waiter
            k in
        let table =
          ensure_inflight_waiter-IsTable r.state msg.sequence_number msg.target_device_id env.waiter
            v in
        elim (Option-cases env.cached) [
          | inr (resp, e) ↦
              rw (e, serve) (account-emit k _ _ refl ∙ account-emit k _ _ refl ∙ omega arith)
          | inl e ↦
              let (s2, is_new) =
                ensure_inflight_waiter r.state msg.sequence_number msg.target_device_id
                  env.waiter in
              elim (Bool-cases is_new) [
                | inl new ↦ rw (e, new, serve) (account-forward _ table ∙ ground (arith, put))
                | inr old ↦ rw (e, old, serve) (ground (arith, put))
              ]
        ]
