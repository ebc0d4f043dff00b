-- ===== src/Mqtt/Departures/Turns.antt =====
-- crates/relay/src/mqtt.rs: a turn of the worker lowers the gauge by the requests that leave.
use g_rpc_relay.Base.{
  ℕ, ◌+◌, ◌-◌, ◌≤◌, ◌≡◌, refl, ap, ◌∙◌, Bool, true, not, false, ◌&&◌, List, [], ◌∷◌, arith,
  if◌then◌else◌, length, is_empty, list_eq, ℕ_eq,
}
use g_rpc_relay.Text.{Str}
use g_rpc_relay.State.{RelayState}
use g_rpc_relay.Mqtt.{
  Mqtt, MqttRuntimeState, MqttPublishRequest, Outcome, online_session_snapshot, set_connected,
  increment_reconnect_count,
}
use g_rpc_relay.Mqtt.Session.{
  Poll, conn_ack, other_packet, poll_error, request, tick, Turn, mqtt_of, on_request, on_conn_ack,
  on_tick, on_poll, pending_first,
}
use g_rpc_relay.Mqtt.Order.{handled}
use g_rpc_relay.Mqtt.Departures.{
  queued, Removes, Departs, Removes-none, Removes-trans, publish_device_event-Removes, Removes-note,
  publish_each-Removes, drop_pending-Removes, enqueue-Removes,
}

-- A request is taken out of a queue before it leaves or is put behind the others.
Removes-taken :
    {k : ℕ} {m n p : Mqtt}
    → n.runtime ≡ m.runtime
    → queued n + 1 ≡ queued m
    → n.uncounted ≡ m.uncounted
    → n.log ≡ m.log
    → length n.pending_requests ≤ length m.pending_requests
    → length n.rx ≤ length m.rx
    → Removes 1 k n p
    → Departs m p
Removes-taken {k = k} runtime out waiting log pending rx v = (
  k,
  record {
    gauge = v.gauge ∙ ap (λ (r : MqttRuntimeState). r.queue_pending - k) runtime;
    fewer = omega (arith, v.fewer);
    waiting = v.waiting ∙ waiting;
    logged = v.logged ∙ ap (λ (l : List Outcome). length (handled l) + k) log;
    few = λ h. v.few (omega arith);
    shorter = omega (arith, v.shorter);
  },
)

either_Departs :
    {m : Mqtt} (b : Bool) (t u : Turn)
    → Departs m (mqtt_of t)
    → Departs m (mqtt_of u)
    → Departs m (mqtt_of (if b then t else u))
either_Departs true t u h k = h
either_Departs false t u h k = k

-- The state changes in what the gauge does not read.
Removes-same :
    (m n : Mqtt)
    → n.runtime.queue_pending ≡ m.runtime.queue_pending
    → n.pending_requests ≡ m.pending_requests
    → n.rx ≡ m.rx
    → n.uncounted ≡ m.uncounted
    → n.log ≡ m.log
    → Removes 0 0 m n
Removes-same m n gauge pending rx waiting log = record {
  gauge = omega arith;
  fewer = ground arith;
  waiting = waiting;
  logged = ground arith;
  few = λ h. ground arith;
  shorter = ground arith;
}

on_request-Departs :
    (rx : List MqttPublishRequest) (accepted : Bool) (m : Mqtt)
    → m.rx ≡ rx
    → Departs m (mqtt_of (on_request rx accepted m))
unfolding on_request set_connected
on_request-Departs [] accepted m e =
    let dropped = drop_pending-Removes m.pending_requests m refl in
    either_Departs m.is_closed _ _
      (_, Removes-trans dropped (Removes-same _ _ refl refl refl refl refl)) (0, Removes-none m)
on_request-Departs (req ∷ rest) accepted m e =
    let m1 = record m { rx = rest } in
    let direct = publish_device_event-Removes req accepted m1 in
    let (k, later) = enqueue-Removes req m1 in
    either_Departs (m.runtime.connected && is_empty m.pending_requests) _ _
      (Removes-taken refl (ground arith) refl refl (omega arith) (ground arith) direct)
      (Removes-taken refl (ground arith) refl refl (omega arith) (ground arith) later)

on_poll-Departs :
    (s : RelayState) (relay_address : Str) (accepted : Bool) (p : Poll) (m : Mqtt)
    → Departs m (mqtt_of (on_poll s relay_address accepted p m))
unfolding on_poll on_conn_ack on_tick set_connected increment_reconnect_count
on_poll-Departs s relay_address accepted (conn_ack answers) m = (
  0,
  Removes-trans (Removes-same m _ (ground arith) refl refl refl refl)
      (publish_each-Removes (online_session_snapshot s relay_address) answers _),
)
on_poll-Departs s relay_address accepted other_packet m = (0, Removes-none m)
on_poll-Departs s relay_address accepted poll_error m =
    (0, Removes-same m _ refl refl refl refl refl)
on_poll-Departs s relay_address accepted request m = on_request-Departs m.rx accepted m refl
on_poll-Departs s relay_address accepted tick m =
    either_Departs (not m.runtime.connected) _ _ (0, Removes-none m)
      (either_Departs accepted _ _ (0, Removes-note _ m refl)
        (0, Removes-trans (Removes-same m _ refl refl refl refl refl) (Removes-note _ _ refl)))

-- A turn of the worker lowers the gauge by one for each request that leaves, down to zero.
pub pending_first-Departs :
    (s : RelayState) (relay_address : Str) (accepted : Bool) (p : Poll)
    → (reqs : List MqttPublishRequest) (m : Mqtt) → m.pending_requests ≡ reqs
    → Departs m (mqtt_of (pending_first s relay_address accepted p reqs m))
unfolding pending_first
pending_first-Departs s relay_address accepted p [] m e =
    on_poll-Departs s relay_address accepted p m
pending_first-Departs s relay_address accepted p (req ∷ reqs) m e =
    let m1 = record m { pending_requests = reqs } in
    let direct = publish_device_event-Removes req accepted m1 in
    either_Departs m.runtime.connected _ _
      (Removes-taken refl (ground arith) refl refl (ground arith) (omega arith) direct)
      (on_poll-Departs s relay_address accepted p m)
