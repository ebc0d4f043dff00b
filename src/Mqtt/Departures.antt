-- ===== src/Mqtt/Departures.antt =====
-- crates/relay/src/mqtt.rs: how the requests that leave in a turn of the worker change the gauge.
pub mod Turns
use g_rpc_relay.Base.{
  ℕ, suc, ◌+◌, ◌-◌, ◌≤◌, ◌≡◌, refl, inl, inr, Bool, true, false, List, [], ◌∷◌, ◌++◌, arith,
  if◌then◌else◌, leb, length, length-append, Bool-cases, leb→le, list_eq, ℕ_eq,
}
use g_rpc_relay.Mqtt.{
  Mqtt, MqttPublishRequest, Outcome, queue_capacity, increment_dropped_total,
  decrement_queue_pending,
}
use g_rpc_relay.Mqtt.Session.{
  mqtt_of, note, publish_device_event, publish_each, drop_pending, evict_first, enqueue,
}
use g_rpc_relay.Mqtt.Order.{request_of, handled, handled-append}

abbrev pub queued : Mqtt → ℕ
queued m = length m.pending_requests + length m.rx

-- The requests that left the publisher, by the log.
abbrev pub departed : Mqtt → ℕ
departed m = length (handled m.log)

-- The worker went from `m` to `n`: `k` requests left, and each lowered the gauge by one, down to
-- zero; `taken` requests were already out of the queues in `m`.
pub record Removes (taken k : ℕ) (m n : Mqtt) : Type 0 where
  pub gauge : n.runtime.queue_pending ≡ m.runtime.queue_pending - k
  pub fewer : queued n + k ≡ queued m + taken
  pub waiting : n.uncounted ≡ m.uncounted
  pub logged : departed n ≡ departed m + k
  pub few : length m.pending_requests ≤ queue_capacity → length n.pending_requests ≤ queue_capacity
  pub shorter : length n.rx ≤ length m.rx

departed-note :
    (os : List Outcome) (o : Outcome)
    → length (handled (os ++ o ∷ [])) ≡ length (handled os) + length (request_of o)
departed-note os o = rw (handled-append os o) (length-append (handled os) (request_of o))

pub Removes-none : (m : Mqtt) → Removes 0 0 m m
Removes-none m = record {
  gauge = omega arith;
  fewer = omega arith;
  waiting = refl;
  logged = omega arith;
  few = λ h. h;
  shorter = omega arith;
}

pub Removes-trans :
    {t j k : ℕ} {m n p : Mqtt} → Removes 0 j m n → Removes t k n p → Removes t (j + k) m p
Removes-trans v w = record {
  gauge = omega (arith, v, w);
  fewer = omega (arith, v, w);
  waiting = omega (arith, v, w);
  logged = omega (arith, v, w);
  few = λ h. w.few (v.few h);
  shorter = omega (arith, v, w);
}

pub publish_device_event-Removes :
    (req : MqttPublishRequest) (accepted : Bool) (m : Mqtt)
    → Removes 1 1 m (mqtt_of (publish_device_event req accepted m))
unfolding publish_device_event note decrement_queue_pending
publish_device_event-Removes req true m = record {
  gauge = refl;
  fewer = refl;
  waiting = refl;
  logged = departed-note m.log _;
  few = λ h. h;
  shorter = omega arith;
}
publish_device_event-Removes req false m = record {
  gauge = refl;
  fewer = refl;
  waiting = refl;
  logged = departed-note m.log _;
  few = λ h. h;
  shorter = omega arith;
}

-- A message of the worker's own is no request.
pub Removes-note : (o : Outcome) (m : Mqtt) → request_of o ≡ [] → Removes 0 0 m (note o m)
unfolding note
Removes-note o m own = record {
  gauge = omega arith;
  fewer = omega arith;
  waiting = refl;
  logged = rw own at (departed-note m.log o);
  few = λ h. h;
  shorter = omega arith;
}

pub publish_each-Removes :
    (reqs : List MqttPublishRequest) (answers : List Bool) (m : Mqtt)
    → Removes 0 0 m (mqtt_of (publish_each reqs answers m))
unfolding publish_each
publish_each-Removes [] answers m = Removes-none m
publish_each-Removes (req ∷ reqs) [] m =
    Removes-trans (Removes-note _ m refl) (publish_each-Removes reqs [] _)
publish_each-Removes (req ∷ reqs) (true ∷ answers) m =
    Removes-trans (Removes-note _ m refl) (publish_each-Removes reqs answers _)
publish_each-Removes (req ∷ reqs) (false ∷ answers) m = Removes-note _ m refl

-- The oldest request that is pending leaves.
evicted-Removes :
    (req : MqttPublishRequest) (reqs : List MqttPublishRequest) (m : Mqtt)
    → m.pending_requests ≡ req ∷ reqs
    → Removes 0 1 m (evict_first (req ∷ reqs) m)
unfolding evict_first note decrement_queue_pending increment_dropped_total
evicted-Removes req reqs m e = record {
  gauge = refl;
  fewer = ground arith;
  waiting = refl;
  logged = departed-note m.log _;
  few = λ h. ground arith;
  shorter = omega arith;
}

pub drop_pending-Removes :
    (reqs : List MqttPublishRequest) (m : Mqtt)
    → m.pending_requests ≡ reqs
    → Removes 0 (length reqs) m (drop_pending reqs m)
unfolding drop_pending evict_first
drop_pending-Removes [] m e = Removes-none m
drop_pending-Removes (req ∷ reqs) m e =
    let rest = drop_pending-Removes reqs (evict_first (req ∷ reqs) m) refl in
    let all = Removes-trans (evicted-Removes req reqs m e) rest in
    let sum : 1 + length reqs ≡ suc (length reqs) = omega arith in rw sum at all

-- So many requests leave, which were in the queues.
abbrev pub Departs : Mqtt → Mqtt → Type 0
Departs m n = (k : ℕ) × Removes 0 k m n

make_room :
    (reqs : List MqttPublishRequest) (m : Mqtt)
    → m.pending_requests ≡ reqs
    → queue_capacity ≤ length reqs
    → Removes 0 1 m (evict_first reqs m)
      × (length (evict_first reqs m).pending_requests + 1 ≡ length reqs)
unfolding evict_first
make_room [] m e full = absurd (ground arith)
make_room (req ∷ reqs) m e full = (evicted-Removes req reqs m e, ground arith)

put_behind :
    {k : ℕ} (req : MqttPublishRequest) (m n : Mqtt)
    → Removes 0 k m n
    → (length m.pending_requests ≤ queue_capacity → length n.pending_requests + 1 ≤ queue_capacity)
    → Removes 1 k m (record n { pending_requests = n.pending_requests ++ req ∷ [] })
put_behind req m n v room =
    let longer = length-append n.pending_requests (req ∷ []) in
    record {
      gauge = v.gauge;
      fewer = omega (arith, longer, v);
      waiting = v.waiting;
      logged = v.logged;
      few = λ h. omega (arith, longer, room h);
      shorter = v.shorter;
    }

pub enqueue-Removes :
    (req : MqttPublishRequest) (m : Mqtt) → (k : ℕ) × Removes 1 k m (enqueue req m)
unfolding enqueue
enqueue-Removes req m = elim (Bool-cases (leb queue_capacity (length m.pending_requests))) [
  | inl full ↦
      let (evicts, shorter) = make_room m.pending_requests m refl (leb→le _ _ full) in
      rw (full, enqueue) (1, put_behind req m _ evicts (λ h. omega (arith, shorter, h)))
  | inr room ↦
      rw (room, enqueue) (0, put_behind req m m (Removes-none m) (λ h. ground (arith, room)))
]
