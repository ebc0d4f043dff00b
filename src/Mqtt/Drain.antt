-- ===== src/Mqtt/Drain.antt =====
-- crates/relay/src/mqtt.rs: a connected worker whose client takes what it is handed.
use mathlib.Core.List.{append-nil, append_assoc}
use g_rpc_relay.Base.{
  ℕ, zero, suc, ◌+◌, ◌-◌, ◌≡◌, refl, sym, ap, ◌∙◌, Bool, true, List, [], ◌∷◌, ◌++◌, map, arith,
  length, list_eq, ℕ_eq,
}
use g_rpc_relay.Text.{Str}
use g_rpc_relay.State.{RelayState}
use g_rpc_relay.Mqtt.{Mqtt, MqttPublishRequest, Outcome, sent, decrement_queue_pending}
use g_rpc_relay.Mqtt.Session.{
  request, again, note, publish_device_event, on_request, on_poll, pending_first, turn, Action,
  turns, act, run_mqtt_session,
}

-- Turns in which the channel is asked and the client takes what it is handed.
pub attempts : RelayState → Str → ℕ → List Action
attempts s relay_address zero = []
attempts s relay_address (suc n) = turns s relay_address true request ∷ attempts s relay_address n

-- A connected worker, by what a turn may change.
abbrev connected_with : Mqtt → ℕ → (pending rx : List MqttPublishRequest) → List Outcome → Mqtt
connected_with m gauge pending rx log = record m {
  runtime = record m.runtime { connected = true; queue_pending = gauge };
  pending_requests = pending;
  rx = rx;
  log = log;
}

drained :
    (s : RelayState) (relay_address : Str) (m : Mqtt) (n gauge : ℕ)
    → (pending rx : List MqttPublishRequest) (log : List Outcome) → n ≡ length pending + length rx
    → (rest : ℕ) × (run_mqtt_session
          (attempts s relay_address n)
          (connected_with m gauge pending rx log)
        ≡ again (connected_with m rest [] [] (log ++ map sent (pending ++ rx))))
unfolding run_mqtt_session attempts act turn pending_first on_poll on_request publish_device_event
    note decrement_queue_pending
drained s relay_address m zero gauge [] [] log e = (
  gauge,
  ap (λ (l : List Outcome). again (connected_with m gauge [] [] l)) (sym (append-nil log)),
)
drained s relay_address m zero gauge (req ∷ pending) rx log e = absurd (omega arith)
drained s relay_address m zero gauge [] (req ∷ rx) log e = absurd (omega arith)
drained s relay_address m (suc n) gauge (req ∷ pending) rx log e =
    let (rest, ih) =
      drained s relay_address m n (gauge - 1) pending rx (log ++ sent req ∷ []) (omega arith) in
    (
      rest,
      ih
          ∙ ap (λ (l : List Outcome). again (connected_with m rest [] [] l))
              (append_assoc log (sent req ∷ []) (map sent (pending ++ rx))),
    )
drained s relay_address m (suc n) gauge [] (req ∷ rx) log e =
    let (rest, ih) =
      drained s relay_address m n (gauge - 1) [] rx (log ++ sent req ∷ []) (omega arith) in
    (
      rest,
      ih
          ∙ ap (λ (l : List Outcome). again (connected_with m rest [] [] l))
              (append_assoc log (sent req ∷ []) (map sent rx)),
    )
drained s relay_address m (suc n) gauge [] [] log e = absurd (omega arith)

-- A worker that is connected, and whose client takes every message, publishes all the requests
-- that are pending and in the channel, in their order and once each, in as many turns as there are
-- requests: then both queues are empty.
pub run_mqtt_session_drains :
    (s : RelayState) (relay_address : Str) (m : Mqtt)
    → m.runtime.connected ≡ true
    → (end : Mqtt) × (run_mqtt_session
          (attempts s relay_address (length m.pending_requests + length m.rx))
          m
        ≡ again end)
      × (end.pending_requests ≡ [])
      × (end.rx ≡ [])
      × (end.log ≡ m.log ++ map sent (m.pending_requests ++ m.rx))
run_mqtt_session_drains s relay_address m h =
    let n = length m.pending_requests + length m.rx in
    let (rest, all) =
      drained s relay_address m n m.runtime.queue_pending m.pending_requests m.rx m.log refl in
    let same : connected_with m m.runtime.queue_pending m.pending_requests m.rx m.log ≡ m =
      ap (λ (b : Bool). record m { runtime = record m.runtime { connected = b } }) (sym h) in
    (
      connected_with m rest [] [] (m.log ++ map sent (m.pending_requests ++ m.rx)),
      ap (run_mqtt_session (attempts s relay_address n)) (sym same) ∙ all,
      refl,
      refl,
      refl,
    )
