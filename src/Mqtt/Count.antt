-- ===== src/Mqtt/Count.antt =====
-- crates/relay/src/mqtt.rs: `queue_pending` and the bounds of the two queues.
use g_rpc_relay.Base.{
  ℕ, suc, ◌+◌, ◌-◌, ◌≤◌, ◌<◌, ◌≡◌, refl, inl, inr, List, [], ◌∷◌, arith, length, length-append,
  list_eq, ℕ_eq,
}
use g_rpc_relay.Mqtt.{
  Mqtt, queue_capacity, u64_mod, publish, count_published, has_room, increment_dropped_total,
  increment_queue_pending,
}
use g_rpc_relay.Mqtt.Session.{
  again, finished, broken, mqtt_of, turn, Action, publishes, counts, closes, turns, act,
  run_mqtt_session, Turn-cases,
}
use g_rpc_relay.Mqtt.Departures.{queued, departed}
use g_rpc_relay.Mqtt.Departures.Turns.{pending_first-Departs}

-- The gauge and the publishers that have not counted their requests yet make up the requests in
-- the two queues and an excess; neither queue outgrows its capacity, and `n` more requests can be
-- counted before the gauge wraps.
pub record IsCounted (n excess : ℕ) (m : Mqtt) : Type 0 where
  pub counted : m.runtime.queue_pending + m.uncounted ≡ queued m + excess
  pub few_pending : length m.pending_requests ≤ queue_capacity
  pub few_in_channel : length m.rx ≤ queue_capacity
  pub no_wrap : m.runtime.queue_pending + m.uncounted + n < u64_mod

-- By how much the requests that leave in a turn outnumber the gauge.
abbrev pub missed_by : Action → Mqtt → ℕ
missed_by (publishes req) m = 0
missed_by counts m = 0
missed_by closes m = 0
missed_by (turns s relay_address accepted p) m =
    departed (mqtt_of (turn s relay_address accepted p m)) - departed m - m.runtime.queue_pending

-- The same for all the turns of a session, up to its end.
pub missed_in : List Action → Mqtt → ℕ
missed_in [] m = 0
missed_in (a ∷ actions) m =
    missed_by a m
    + elim (act a m) [ again m1 ↦ missed_in actions m1 | finished m1 ↦ 0 | broken m1 ↦ 0 ]

act-IsCounted :
    {n excess : ℕ} (a : Action) (m : Mqtt)
    → IsCounted (suc n) excess m
    → IsCounted n (excess + missed_by a m) (mqtt_of (act a m))
unfolding act publish count_published turn has_room increment_queue_pending increment_dropped_total
act-IsCounted (publishes req) m v = ground (arith, length-append m.rx (req ∷ []))
act-IsCounted counts m v = ground arith
act-IsCounted closes m v = omega arith
act-IsCounted (turns s relay_address accepted p) m v =
    let (k, left) = pending_first-Departs s relay_address accepted p m.pending_requests m refl in
    let few = left.few v.few_pending in
    record {
      counted = omega (arith, left, v);
      few_pending = few;
      few_in_channel = omega (arith, left, v);
      no_wrap = omega (arith, left, v);
    }

weaken : {n e f : ℕ} {m : Mqtt} → e ≡ f → IsCounted n e m → IsCounted 0 f m
weaken same v = omega (arith, same, v)

-- From a gauge that, with the publishers that have yet to count their requests, makes up the
-- requests in the two queues and an excess, with both queues within their capacities and room for
-- each action to count one more before the gauge wraps, any run of a session leads to the same,
-- also when the session ends. The excess grows exactly by the numbers by which the requests that
-- leave in a turn outnumber the gauge, which can be when a publisher has not counted its request
-- yet, and it never falls: the gauge then stays too high.
pub run_mqtt_session-IsCounted :
    (actions : List Action) (m : Mqtt) (excess : ℕ)
    → IsCounted (length actions) excess m
    → IsCounted 0 (excess + missed_in actions m) (mqtt_of (run_mqtt_session actions m))
unfolding run_mqtt_session missed_in
run_mqtt_session-IsCounted [] m excess v = weaken (omega arith) v
run_mqtt_session-IsCounted (a ∷ actions) m excess v =
    let first = act-IsCounted a m v in
    elim (Turn-cases (act a m)) [
      | inl (m1, e) ↦
          let rest = run_mqtt_session-IsCounted actions m1 _ (rw e at first) in
          rw (e, run_mqtt_session, missed_in) (weaken (omega arith) rest)
      | inr (inl (m1, e)) ↦
          rw (e, run_mqtt_session, missed_in) (weaken (omega arith) (rw e at first))
      | inr (inr (m1, e)) ↦
          rw (e, run_mqtt_session, missed_in) (weaken (omega arith) (rw e at first))
    ]
