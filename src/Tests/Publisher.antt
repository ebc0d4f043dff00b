-- ===== src/Tests/Publisher.antt =====
-- The publisher of device events.
use g_rpc_relay.Base.{
  ◌+◌, ◌≡◌, refl, true, false, List, [], ◌∷◌, ◌++◌, ok, arith, length, list_eq, ℕ_eq, ℤ_eq, pair_eq,
}
use g_rpc_relay.Text.{Str, str}
use g_rpc_relay.Text.Decimal.{to_string}
use g_rpc_relay.State
use g_rpc_relay.Mqtt.{Mqtt, MqttPublishRequest, device_offline, sent}
use g_rpc_relay.Mqtt.Session.{
  Action, publishes, counts, turns, poll_error, request, again, mqtt_of, run_mqtt_session,
}
use g_rpc_relay.Mqtt.Order.{handled, line, accepted_in, run_mqtt_session-line}
use g_rpc_relay.Mqtt.Count.{IsCounted, missed_in, run_mqtt_session-IsCounted}
use g_rpc_relay.Mqtt.Drain.{attempts, run_mqtt_session_drains}
use g_rpc_relay.Mqtt.Address.{parse_host_port}
use g_rpc_relay.Mqtt.AddressRoundTrip.{IsHost, print, parse_host_port-print, parse_host_port-url}
use g_rpc_relay.Mqtt.Worker.{default_config, worker_round}
use g_rpc_relay.Mqtt.Reconnect.{state_of, lost_in, worker_round-line}

abbrev offline : Str → MqttPublishRequest
offline device_id = device_offline device_id (str "c1") (str "stream_closed")

-- Nothing is connected yet and one request is in the channel.
abbrev fresh : Mqtt
fresh = record {
  runtime = record {
    enabled = true;
    connected = false;
    reconnect_count = 0;
    dropped_total = 0;
    queue_pending = 1;
  };
  rx = offline (str "a") ∷ [];
  uncounted = 0;
  is_closed = false;
  pending_requests = [];
  has_connected_once = false;
  log = [];
}

abbrev live : Mqtt
live = record fresh {
  runtime = record fresh.runtime { connected = true; queue_pending = 3 };
  rx = offline (str "b") ∷ offline (str "c") ∷ [];
  pending_requests = offline (str "a") ∷ [];
}

abbrev steps : List Action
steps =
    publishes (offline (str "b"))
    ∷ turns State.new (str "relay") true request
    ∷ counts
    ∷ turns State.new (str "relay") true poll_error
    ∷ []

fresh-IsCounted : IsCounted 4 0 fresh
fresh-IsCounted = record {
  counted = refl;
  few_pending = omega arith;
  few_in_channel = omega arith;
  no_wrap = omega arith;
}

run_mqtt_session-line_example :
    line (mqtt_of (run_mqtt_session steps fresh)) ≡ line fresh ++ accepted_in steps fresh
run_mqtt_session-line_example = run_mqtt_session-line steps fresh

run_mqtt_session-IsCounted_example :
    IsCounted 0 (0 + missed_in steps fresh) (mqtt_of (run_mqtt_session steps fresh))
run_mqtt_session-IsCounted_example = run_mqtt_session-IsCounted steps fresh 0 fresh-IsCounted

run_mqtt_session_drains_example :
    (end : Mqtt) × (run_mqtt_session (attempts State.new (str "relay") 3) live ≡ again end)
    × (end.pending_requests ≡ [])
    × (end.rx ≡ [])
    × (end.log
        ≡ sent (offline (str "a")) ∷ sent (offline (str "b")) ∷ sent (offline (str "c")) ∷ [])
run_mqtt_session_drains_example = run_mqtt_session_drains State.new (str "relay") live refl

abbrev host : Str
host = str "broker"

host-IsHost : IsHost host
host-IsHost = record {
  filled = refl;
  no_colon = refl;
  no_slash = refl;
  no_at = refl;
  no_bracket = refl;
}

parse_host_port-url_example :
    parse_host_port
      (str "mqtt" ++ (str "://" ++ ((str "me:pw" ++ (b'@' ∷ print host 1883)) ++ (b'/' ∷ str "x"))))
    ≡ ok (host, 1883)
parse_host_port-url_example =
    parse_host_port-url (str "mqtt") (str "me:pw") host (str "x") 1883 refl refl host-IsHost
      (omega arith)

default_config-address : parse_host_port default_config.broker_address ≡ ok (str "localhost", 1883)
unfolding default_config to_string
default_config-address =
    parse_host_port-print (str "localhost") 1883
      (record { filled = refl; no_colon = refl; no_slash = refl; no_at = refl; no_bracket = refl })
      (omega arith)

worker_round-line_example :
    let t = run_mqtt_session steps fresh in
    let n = state_of (worker_round default_config 0 steps fresh) in
    (handled n.log ++ (lost_in t ++ (n.pending_requests ++ n.rx))
      ≡ line fresh ++ accepted_in steps fresh)
    × (n.runtime.dropped_total ≡ (mqtt_of t).runtime.dropped_total)
    × IsCounted 0 (0 + missed_in steps fresh + length (lost_in t)) n
worker_round-line_example =
    worker_round-line default_config 0 0 steps fresh (str "localhost", 1883) default_config-address
      refl fresh-IsCounted
