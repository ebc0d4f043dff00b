-- ===== src/Mqtt/Session.antt =====
-- crates/relay/src/mqtt.rs, `run_mqtt_session` and the loop of `spawn_mqtt_publisher`: a turn of
-- the worker's loop. Which arm of `select!` is ready, and whether the client takes a message, are
-- arguments of a turn.
use g_rpc_relay.Base.{
  ◌≡◌, refl, ◌⊎◌, inl, inr, Bool, true, false, not, ◌&&◌, List, [], ◌∷◌, ◌++◌, if◌then◌else◌, leb,
  length, is_empty, list_eq, ℕ_eq,
}
use g_rpc_relay.Text.{Str}
use g_rpc_relay.State.{RelayState}
use g_rpc_relay.Mqtt.{
  Mqtt, MqttPublishRequest, Outcome, sent, failed, evicted, snapshot, telemetry, queue_capacity,
  publish, count_published, set_connected, increment_reconnect_count, increment_dropped_total,
  decrement_queue_pending, online_session_snapshot,
}

-- The arm that is ready. A broker's answer brings the client's answers to the messages of the
-- snapshot, in their order; a missing one is a success.
pub data Poll : Type 0 where
  conn_ack : List Bool → Poll
  other_packet : Poll
  poll_error : Poll
  request : Poll
  tick : Poll

-- How a turn ends: the loop goes on, or the session returns `Ok` or `Err`.
pub data Turn : Type 0 where
  again : Mqtt → Turn
  finished : Mqtt → Turn
  broken : Mqtt → Turn

abbrev pub mqtt_of : Turn → Mqtt
mqtt_of (again m) = m
mqtt_of (finished m) = m
mqtt_of (broken m) = m

unfoldable pub note : Outcome → Mqtt → Mqtt
note o m = record m { log = m.log ++ o ∷ [] }

-- The client is handed the request; whatever it answers, the request no longer counts.
unfoldable pub publish_device_event : MqttPublishRequest → Bool → Mqtt → Turn
publish_device_event req accepted m =
    let m1 = record m { runtime = decrement_queue_pending m.runtime } in
    if accepted then again (note (sent req) m1) else broken (note (failed req) m1)

-- `publish_online_session_snapshot`: it stops at the first error.
unfoldable pub publish_each : List MqttPublishRequest → List Bool → Mqtt → Turn
publish_each [] answers m = again m
publish_each (req ∷ reqs) [] m = publish_each reqs [] (note (snapshot req true) m)
publish_each (req ∷ reqs) (answer ∷ answers) m =
    let rest = publish_each reqs answers (note (snapshot req true) m) in
    if answer then rest else broken (note (snapshot req false) m)

-- All senders are gone and the channel is empty.
unfoldable pub drop_pending : List MqttPublishRequest → Mqtt → Mqtt
drop_pending [] m = m
drop_pending (req ∷ reqs) m = drop_pending reqs (record (note (evicted req) m) {
  pending_requests = reqs;
  runtime = decrement_queue_pending (increment_dropped_total m.runtime);
})

-- The oldest request makes room.
unfoldable pub evict_first : List MqttPublishRequest → Mqtt → Mqtt
evict_first [] m = m
evict_first (req ∷ reqs) m = record (note (evicted req) m) {
  pending_requests = reqs;
  runtime = decrement_queue_pending (increment_dropped_total m.runtime);
}

unfoldable pub enqueue : MqttPublishRequest → Mqtt → Mqtt
enqueue req m =
    let m1 =
      if leb queue_capacity (length m.pending_requests)
      then evict_first m.pending_requests m
      else m in
    record m1 { pending_requests = m1.pending_requests ++ req ∷ [] }

-- `rx.recv()`. It is not ready while the channel is empty and a sender is left.
unfoldable pub on_request : List MqttPublishRequest → Bool → Mqtt → Turn
on_request [] accepted m =
    if m.is_closed
    then finished (record (drop_pending m.pending_requests m) {
      runtime = set_connected false (drop_pending m.pending_requests m).runtime;
    })
    else again m
on_request (req ∷ rest) accepted m =
    let m1 = record m { rx = rest } in
    if m.runtime.connected && is_empty m.pending_requests
    then publish_device_event req accepted m1
    else again (enqueue req m1)

unfoldable pub on_conn_ack : RelayState → Str → List Bool → Mqtt → Turn
on_conn_ack s relay_address answers m =
    let reconnects =
      if m.has_connected_once then increment_reconnect_count m.runtime else m.runtime in
    publish_each (online_session_snapshot s relay_address) answers
      (record m { has_connected_once = true; runtime = set_connected true reconnects })

unfoldable pub on_tick : Bool → Mqtt → Turn
on_tick accepted m =
    if not m.runtime.connected
    then again m
    else if accepted
    then again (note (telemetry true) m)
    else broken (note (telemetry false) (record m { runtime = set_connected false m.runtime }))

unfoldable pub on_poll : RelayState → Str → Bool → Poll → Mqtt → Turn
on_poll s relay_address accepted (conn_ack answers) m = on_conn_ack s relay_address answers m
on_poll s relay_address accepted other_packet m = again m
on_poll s relay_address accepted poll_error m =
    broken (record m { runtime = set_connected false m.runtime })
on_poll s relay_address accepted request m = on_request m.rx accepted m
on_poll s relay_address accepted tick m = on_tick accepted m

-- While it is connected, the worker first publishes what is pending, the oldest first.
unfoldable pub pending_first :
    RelayState → Str → Bool → Poll → List MqttPublishRequest → Mqtt → Turn
pending_first s relay_address accepted p [] m = on_poll s relay_address accepted p m
pending_first s relay_address accepted p (req ∷ reqs) m =
    if m.runtime.connected
    then publish_device_event req accepted (record m { pending_requests = reqs })
    else on_poll s relay_address accepted p m

unfoldable pub turn : RelayState → Str → Bool → Poll → Mqtt → Turn
turn s relay_address accepted p m = pending_first s relay_address accepted p m.pending_requests m

-- What can happen next to the publisher and its worker.
pub data Action : Type 0 where
  publishes : MqttPublishRequest → Action
  counts : Action
  closes : Action
  turns : RelayState → (relay_address : Str) → (accepted : Bool) → Poll → Action

unfoldable pub act : Action → Mqtt → Turn
act (publishes req) m = again (publish req m)
act counts m = again (count_published m)
act closes m = again (record m { is_closed = true })
act (turns s relay_address accepted p) m = turn s relay_address accepted p m

-- A session, until it returns or the actions end.
unfoldable pub run_mqtt_session : List Action → Mqtt → Turn
run_mqtt_session [] m = again m
run_mqtt_session (a ∷ actions) m = elim (act a m) [
  | again m1 ↦ run_mqtt_session actions m1
  | finished m1 ↦ finished m1
  | broken m1 ↦ broken m1
]

pub Turn-cases :
    (t : Turn)
    → ((m : Mqtt) × (t ≡ again m)) ⊎ ((m : Mqtt) × (t ≡ finished m)) ⊎ ((m : Mqtt) × (t ≡ broken m))
Turn-cases (again m) = inl (m, refl)
Turn-cases (finished m) = inr (inl (m, refl))
Turn-cases (broken m) = inr (inr (m, refl))
