-- ===== src/Mqtt/Order.antt =====
-- crates/relay/src/mqtt.rs: the order in which requests leave the publisher.
use mathlib.Core.List.{append-nil, append_assoc}
use g_rpc_relay.Base.{
  ◌≡◌, refl, sym, ap, ◌∙◌, inl, inr, Bool, true, false, ◌&&◌, List, [], ◌∷◌, ◌++◌, arith,
  if◌then◌else◌, leb, ltb, length, is_empty, Bool-cases, list_eq, ℕ_eq,
}
use g_rpc_relay.Text.{Str}
use g_rpc_relay.State.{RelayState}
use g_rpc_relay.Mqtt.{
  Mqtt, MqttPublishRequest, Outcome, sent, failed, evicted, snapshot, telemetry, queue_capacity,
  publish, count_published, has_room, online_session_snapshot,
}
use g_rpc_relay.Mqtt.Session.{
  Poll, conn_ack, other_packet, poll_error, request, tick, Turn, again, finished, broken, mqtt_of,
  note, publish_device_event, publish_each, drop_pending, evict_first, enqueue, on_request,
  on_conn_ack, on_tick, on_poll, pending_first, turn, Action, publishes, counts, closes, turns, act,
  run_mqtt_session, Turn-cases,
}

-- The requests that left the publisher, in their order: taken or refused by the client, or evicted.
abbrev pub request_of : Outcome → List MqttPublishRequest
request_of (sent req) = req ∷ []
request_of (failed req) = req ∷ []
request_of (evicted req) = req ∷ []
request_of (snapshot req accepted) = []
request_of (telemetry accepted) = []

pub handled : List Outcome → List MqttPublishRequest
handled [] = []
handled (o ∷ os) = request_of o ++ handled os

-- Those that left, those that are pending and those in the channel.
abbrev pub line : Mqtt → List MqttPublishRequest
line m = handled m.log ++ (m.pending_requests ++ m.rx)

-- The requests that an action puts into the channel.
abbrev pub accepted_by : Action → Mqtt → List MqttPublishRequest
accepted_by (publishes req) m = if has_room m then req ∷ [] else []
accepted_by counts m = []
accepted_by closes m = []
accepted_by (turns s relay_address accepted p) m = []

-- Those that a session's actions put into the channel, up to its end.
pub accepted_in : List Action → Mqtt → List MqttPublishRequest
accepted_in [] m = []
accepted_in (a ∷ actions) m =
    accepted_by a m
    ++ elim (act a m) [ again m1 ↦ accepted_in actions m1 | finished m1 ↦ [] | broken m1 ↦ [] ]

pub handled-append :
    (os : List Outcome) (o : Outcome) → handled (os ++ o ∷ []) ≡ handled os ++ request_of o
unfolding handled
handled-append [] o = append-nil _
handled-append (p ∷ os) o =
    rw (handled-append os o) (sym (append_assoc (request_of p) (handled os) _))

publish_device_event-line :
    (req : MqttPublishRequest) (accepted : Bool) (m : Mqtt)
    → line (mqtt_of (publish_device_event req accepted m))
      ≡ handled m.log ++ req ∷ (m.pending_requests ++ m.rx)
unfolding publish_device_event note
publish_device_event-line req true m = simp (handled-append, append_assoc)
publish_device_event-line req false m = simp (handled-append, append_assoc)

publish_each-line :
    (reqs : List MqttPublishRequest) (answers : List Bool) (m : Mqtt)
    → line (mqtt_of (publish_each reqs answers m)) ≡ line m
unfolding publish_each note
publish_each-line [] answers m = refl
publish_each-line (req ∷ reqs) [] m =
    publish_each-line reqs [] _ ∙ simp (handled-append, append-nil)
publish_each-line (req ∷ reqs) (true ∷ answers) m =
    publish_each-line reqs answers _ ∙ simp (handled-append, append-nil)
publish_each-line (req ∷ reqs) (false ∷ answers) m = simp (handled-append, append-nil)

drop_pending-line :
    (reqs : List MqttPublishRequest) (m : Mqtt)
    → m.pending_requests ≡ reqs
    → line (drop_pending reqs m) ≡ line m
unfolding drop_pending note
drop_pending-line [] m e = refl
drop_pending-line (req ∷ reqs) m e =
    drop_pending-line reqs _ refl ∙ simp (handled-append, append_assoc, e)

evict_first-line :
    (reqs : List MqttPublishRequest) (m : Mqtt)
    → m.pending_requests ≡ reqs
    → (handled (evict_first reqs m).log ++ (evict_first reqs m).pending_requests
        ≡ handled m.log ++ m.pending_requests)
      × ((evict_first reqs m).rx ≡ m.rx)
unfolding evict_first note
evict_first-line [] m e = (refl, refl)
evict_first-line (req ∷ reqs) m e = (simp (handled-append, append_assoc, e), refl)

-- A request that is put behind those pending.
put_line :
    (req : MqttPublishRequest) (m n : Mqtt)
    → (handled m.log ++ m.pending_requests ≡ handled n.log ++ n.pending_requests) × (m.rx ≡ n.rx)
    → handled m.log ++ ((m.pending_requests ++ req ∷ []) ++ m.rx)
      ≡ handled n.log ++ (n.pending_requests ++ (req ∷ n.rx))
put_line req m n (front, back) = simp append_assoc (
    sym (append_assoc (handled m.log) m.pending_requests (req ∷ m.rx))
    ∙ ap (λ (l : List MqttPublishRequest). l ++ (req ∷ m.rx)) front
    ∙ append_assoc (handled n.log) n.pending_requests (req ∷ m.rx)
    ∙ ap (λ (l : List MqttPublishRequest). handled n.log ++ (n.pending_requests ++ (req ∷ l))) back)

either_line :
    (b : Bool) (t u : Turn) (l : List MqttPublishRequest)
    → (b ≡ true → line (mqtt_of t) ≡ l)
    → line (mqtt_of u) ≡ l
    → line (mqtt_of (if b then t else u)) ≡ l
either_line true t u l h k = h refl
either_line false t u l h k = k

enqueue-line :
    (req : MqttPublishRequest) (m : Mqtt)
    → line (enqueue req m) ≡ handled m.log ++ (m.pending_requests ++ (req ∷ m.rx))
unfolding enqueue
enqueue-line req m = elim (Bool-cases (leb queue_capacity (length m.pending_requests))) [
  | inl full ↦
      rw (full, enqueue)
        (put_line req (evict_first m.pending_requests m) m
          (evict_first-line m.pending_requests m refl))
  | inr room ↦ rw (room, enqueue) (put_line req m m (refl, refl))
]

at_once :
    (req : MqttPublishRequest) (pending rest rx : List MqttPublishRequest)
    → rx ≡ req ∷ rest
    → is_empty pending ≡ true
    → req ∷ (pending ++ rest) ≡ pending ++ rx
at_once req [] rest rx e h = sym e
at_once req (x ∷ pending) rest rx e h = cc

on_request-line :
    (rx : List MqttPublishRequest) (accepted : Bool) (m : Mqtt)
    → m.rx ≡ rx
    → line (mqtt_of (on_request rx accepted m)) ≡ line m
unfolding on_request
on_request-line [] accepted m e = ground (arith, drop_pending-line m.pending_requests m refl)
on_request-line (req ∷ rest) accepted m e =
    let m1 = record m { rx = rest } in
    either_line (m.runtime.connected && is_empty m.pending_requests) _ _ _
      (λ direct.
        publish_device_event-line req accepted m1
        ∙ ap (λ (l : List MqttPublishRequest). handled m.log ++ l)
            (at_once req m.pending_requests rest m.rx e (ground (arith, direct))))
      (enqueue-line req m1
        ∙ ap (λ (l : List MqttPublishRequest). handled m.log ++ (m.pending_requests ++ l)) (sym e))

on_poll-line :
    (s : RelayState) (relay_address : Str) (accepted : Bool) (p : Poll) (m : Mqtt)
    → line (mqtt_of (on_poll s relay_address accepted p m)) ≡ line m
unfolding on_poll on_conn_ack on_tick note
on_poll-line s relay_address accepted (conn_ack answers) m =
    publish_each-line (online_session_snapshot s relay_address) answers _
on_poll-line s relay_address accepted other_packet m = refl
on_poll-line s relay_address accepted poll_error m = refl
on_poll-line s relay_address accepted request m = on_request-line m.rx accepted m refl
on_poll-line s relay_address accepted tick m = ground (
  arith,
  handled-append m.log (telemetry true),
  handled-append m.log (telemetry false),
  append-nil (handled m.log),
)

pending_first-line :
    (s : RelayState) (relay_address : Str) (accepted : Bool) (p : Poll)
    → (reqs : List MqttPublishRequest) (m : Mqtt) → m.pending_requests ≡ reqs
    → line (mqtt_of (pending_first s relay_address accepted p reqs m)) ≡ line m
unfolding pending_first
pending_first-line s relay_address accepted p [] m e = on_poll-line s relay_address accepted p m
pending_first-line s relay_address accepted p (req ∷ reqs) m e =
    either_line m.runtime.connected _ _ _
      (λ _.
        publish_device_event-line req accepted (record m { pending_requests = reqs })
        ∙ ap (λ (l : List MqttPublishRequest). handled m.log ++ (l ++ m.rx)) (sym e))
      (on_poll-line s relay_address accepted p m)

act-line : (a : Action) (m : Mqtt) → line (mqtt_of (act a m)) ≡ line m ++ accepted_by a m
unfolding act publish count_published turn
act-line (publishes req) m = elim (Bool-cases (has_room m)) [
  | inl room ↦ rw (room, publish) (simp append_assoc)
  | inr full ↦ rw (full, publish) (sym (append-nil (line m)))
]
act-line counts m = elim (Bool-cases (ltb 0 m.uncounted)) [
  | inl some_left ↦ rw (some_left, count_published) (sym (append-nil (line m)))
  | inr none_left ↦ rw (none_left, count_published) (sym (append-nil (line m)))
]
act-line closes m = sym (append-nil (line m))
act-line (turns s relay_address accepted p) m =
    pending_first-line s relay_address accepted p m.pending_requests m refl
    ∙ sym (append-nil (line m))

-- However a session goes, the requests that left the publisher, in their order, followed by those
-- that are pending and those in the channel, are the ones before it followed by those that its
-- actions put into the channel: none is lost or doubled, and none overtakes another, until the
-- session ends.
pub run_mqtt_session-line :
    (actions : List Action) (m : Mqtt)
    → line (mqtt_of (run_mqtt_session actions m)) ≡ line m ++ accepted_in actions m
unfolding run_mqtt_session accepted_in
run_mqtt_session-line [] m = sym (append-nil (line m))
run_mqtt_session-line (a ∷ actions) m =
    let first = act-line a m in
    elim (Turn-cases (act a m)) [
      | inl (m1, e) ↦
          rw (e, run_mqtt_session, accepted_in)
            (run_mqtt_session-line actions m1
              ∙ ap (λ (l : List MqttPublishRequest). l ++ accepted_in actions m1) (rw e at first)
              ∙ append_assoc (line m) (accepted_by a m) (accepted_in actions m1))
      | inr (inl (m1, e)) ↦ rw (e, run_mqtt_session, accepted_in) (rw append-nil (rw e at first))
      | inr (inr (m1, e)) ↦ rw (e, run_mqtt_session, accepted_in) (rw append-nil (rw e at first))
    ]
