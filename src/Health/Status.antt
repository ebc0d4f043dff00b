-- ===== src/Health/Status.antt =====
-- crates/relay/src/observability.rs: the status that the components' statuses add up to.
use g_rpc_relay.Base.{
  ℕ, ◌≡◌, refl, inl, inr, Bool, true, false, ◌||◌, List, [], ◌∷◌, all, arith, if◌then◌else◌, ◌==◌,
  Bool-cases, list_beq, list_eq, ℕ_eq, pos,
}
use g_rpc_relay.Text.{Str, str}
use g_rpc_relay.Mqtt.{MqttRuntimeState}
use g_rpc_relay.Health.{
  HealthComponents, statuses, derive_from, derive_overall_status, components_of, mqtt_health,
  HealthState, build_health_response, ready, status_code, refresh_runtime_metrics_with_response,
}

abbrev pub is_healthy : Str → Bool
is_healthy status = status == str "healthy"

abbrev pub is_known : Str → Bool
is_known status = (status == str "healthy") || (status == str "degraded")

-- The status that is meant: unhealthy if a component is neither healthy nor degraded, else healthy
-- if all of them are.
abbrev pub overall : List Str → Str
overall ss =
    if all is_known ss
    then if all is_healthy ss then str "healthy" else str "degraded"
    else str "unhealthy"

derive_from_lem :
    (has_degraded : Bool) (ss : List Str)
    → derive_from has_degraded ss ≡ (
        if all is_known ss
        then if has_degraded then str "degraded" else overall ss
        else str "unhealthy")
unfolding derive_from
derive_from_lem true [] = refl
derive_from_lem false [] = refl
derive_from_lem has_degraded (s ∷ ss) =
    let same = derive_from_lem has_degraded ss in
    let worse = derive_from_lem true ss in ground (arith, same, worse)

-- The overall status is unhealthy exactly when the status of the gRPC server, the QUIC listener, the
-- MQTT client, the authentication service or the metrics collector is neither healthy nor
-- degraded, and otherwise healthy exactly when all five are healthy.
pub derive_overall_status_lem :
    (c : HealthComponents)
    → derive_overall_status c
      ≡ overall (
          c.grpc_server.status ∷ c.quic_listener.status ∷ c.mqtt_client.status
          ∷ c.auth_service.status ∷ c.metrics_collector.status ∷ [])
unfolding derive_overall_status statuses
derive_overall_status_lem c = let e = derive_from_lem false (statuses c) in ground (arith, e)

components_of-statuses :
    (s : MqttRuntimeState) → derive_overall_status (components_of s) ≡ str "degraded"
unfolding derive_overall_status derive_from statuses components_of mqtt_health list_beq
components_of-statuses s = elim (Bool-cases s.enabled) [
  | inl on ↦ elim (Bool-cases s.connected) [
    | inl up ↦ rw (on, up, mqtt_health) refl
    | inr down ↦ rw (on, down, mqtt_health) refl
  ]
  | inr off ↦ rw (off, mqtt_health) refl
]

module _ (Float : Type 0) (as_f64 : ℕ → Float) where
  -- Whatever the state of the relay, its health is reported as degraded and the relay as ready, with
  -- the gauge of the health at 1: the report is never healthy, and readiness never fails.
  pub ready_lem :
      (timestamp : Str) (now : ℕ) (s : HealthState Float as_f64)
      → ((ready Float as_f64 timestamp now s).0 ≡ 200)
        × ((ready Float as_f64 timestamp now s).1.status ≡ str "degraded")
        × ((ready Float as_f64 timestamp now s).2.metrics.health_status ≡ pos 1)
  unfolding ready build_health_response refresh_runtime_metrics_with_response status_code list_beq
  ready_lem timestamp now s =
      let e = components_of-statuses s.mqtt_runtime in
      rw (e, build_health_response) (refl, refl, refl)
