-- ===== src/DeviceStream/Answers.antt =====
-- crates/relay/src/grpc_service.rs, `run_device_connect_stream`: the account of the
-- controllers that wait for a response.
use g_rpc_relay.Base.{
  ℕ, ◌+◌, ◌≡◌, refl, ◌∙◌, inl, inr, ℤ, List, [], ◌∷◌, ◌++◌, map, arith, if◌then◌else◌, eqb,
  Bool-cases, Option-cases, list_eq, ℕ_eq, ℤ_eq, pair_eq,
}
use g_rpc_relay.Text.{Str}
use g_rpc_relay.Proto
use g_rpc_relay.Proto.{DataResponse}
use g_rpc_relay.State.{take_inflight, take_inflight_for_device, make_error_response}
use g_rpc_relay.State.Inflight.{InFlight, Delivery, complete}
use g_rpc_relay.State.Waiters.{
  pending, delivered, delivered-append, delivered-complete, IsTable, take_inflight-pending,
}
use g_rpc_relay.State.Disconnect.{waiting, take_inflight_for_device-pending}
use g_rpc_relay.Stream.{StreamMapping}
use g_rpc_relay.Service.{
  Relay, Event, AuditEvent, deliver, delivery, audit, emit, audited, published, deliver_all,
}
use g_rpc_relay.DeviceStream.{reject, accept, answer, offline_deliveries, notify_idle, drop_device}

-- How often a one-shot channel was sent a response.
unfoldable pub answered : ℕ → List Event → ℕ
answered k [] = 0
answered k (deliver x resp ∷ es) = (if eqb x k then 1 else 0) + answered k es
answered k (_ ∷ es) = answered k es

-- The responses that a channel got and is still to get.
abbrev pub account : ℕ → Relay → ℕ
account k r = answered k r.events + pending k r.state

module _ (k : ℕ) where
  pub answered-append : (es fs : List Event) → answered k (es ++ fs) ≡ answered k es + answered k fs
  unfolding answered
  answered-append [] fs = omega arith
  answered-append (e ∷ es) fs = ground (arith, answered-append es fs)

  answered-deliveries : (ds : List Delivery) → answered k (map delivery ds) ≡ delivered k ds
  unfolding answered delivered
  answered-deliveries [] = refl
  answered-deliveries ((x, resp) ∷ ds) = omega (arith, answered-deliveries ds)

  pub account-audited : (e : AuditEvent) (r : Relay) → account k (audited e r) ≡ account k r
  unfolding audited answered
  account-audited e r = elim (Bool-cases r.has_audit) [
    | inl on ↦ ground (arith, on, answered-append r.events (audit e ∷ []))
    | inr off ↦ ground (arith, off, answered-append r.events [])
  ]

  pub account-published :
      (e : Event) (r : Relay) → answered k (e ∷ []) ≡ 0 → account k (published e r) ≡ account k r
  unfolding published answered
  account-published e r quiet = elim (Bool-cases r.has_mqtt) [
    | inl on ↦ ground (arith, on, quiet, answered-append r.events (e ∷ []))
    | inr off ↦ ground (arith, off, answered-append r.events [])
  ]

  pub account-emit :
      (e : Event) (r : Relay) → answered k (e ∷ []) ≡ 0 → account k (emit e r) ≡ account k r
  unfolding emit
  account-emit e r quiet = omega (arith, quiet, answered-append r.events (e ∷ []))

  pub account-deliver_all :
      (ds : List Delivery) (r : Relay) → account k (deliver_all ds r) ≡ account k r + delivered k ds
  unfolding deliver_all
  account-deliver_all ds r =
      omega (arith, answered-append r.events (map delivery ds), answered-deliveries ds)

  pub account-reject :
      (r : Relay) (d t reason : Str) → account k (reject r d t reason) ≡ account k r
  unfolding reject
  account-reject r d t reason = account-audited _ _

  pub account-accept : (r : Relay) (d : Str) → account k (accept r d) ≡ account k r
  unfolding accept
  account-accept r d = account-audited _ _

  account-notify_idle :
      (d : Str) (ms : List StreamMapping) (r : Relay) → account k (notify_idle d ms r) ≡ account k r
  unfolding notify_idle answered
  account-notify_idle d [] r = refl
  account-notify_idle d (m ∷ ms) r = elim (Bool-cases (eqb m.active_requests 0)) [
    | inl idle ↦ rw (idle, notify_idle) (account-notify_idle d ms _ ∙ account-emit _ r refl)
    | inr busy ↦ rw (busy, notify_idle) (account-notify_idle d ms r)
  ]

  delivered-offline :
      (d : Str) (fs : List (ℤ × InFlight)) → delivered k (offline_deliveries d fs) ≡ waiting k fs
  unfolding offline_deliveries waiting delivered
  delivered-offline d [] = refl
  delivered-offline d ((seq, f) ∷ fs) =
      let now = (complete f (make_error_response d seq Proto.device_offline)).1 in
      omega (
        arith,
        delivered-append k now (offline_deliveries d fs),
        delivered-complete k f (make_error_response d seq Proto.device_offline),
        delivered-offline d fs,
      )

  pub account-drop_device :
      (r : Relay) (d : Str) → IsTable r.state → account k (drop_device r d) ≡ account k r
  unfolding drop_device
  account-drop_device r d v =
      account-notify_idle d _ _
      ∙ account-deliver_all _ _
      ∙ omega (
        arith,
        delivered-offline d (take_inflight_for_device r.state d).0,
        take_inflight_for_device-pending r.state d v k,
      )

  pub account-answer :
      (r : Relay) (d : Str) (resp : DataResponse)
      → IsTable r.state
      → account k (answer r d resp) ≡ account k r
  unfolding answer
  account-answer r d resp v =
      let taken = take_inflight-pending r.state resp.sequence_number d k v in
      elim (Option-cases (take_inflight r.state d resp.sequence_number).0) [
        | inl e ↦ rw (e, answer) (omega (arith, rw e at taken))
        | inr (f, e) ↦
            rw (e, answer)
              (account-deliver_all _ _ ∙ omega (arith, rw e at taken, delivered-complete k f _))
      ]
