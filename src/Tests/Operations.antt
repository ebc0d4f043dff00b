-- ===== src/Tests/Operations.antt =====
-- The audit log, the alerts and the health report.
use g_rpc_relay.Base.{
  ℕ, ◌+◌, ◌-◌, ◌*◌, ◌%◌, ◌≡◌, refl, Bool, true, false, none, some, List, [], ◌∷◌, ◌++◌, pos, ok,
  err, arith, eqb, take, zero, suc, leb, ltb, if◌then◌else◌, list_eq, ℕ_eq, ℤ_eq, pair_eq,
}
use g_rpc_relay.Text.{Str, str, len, utf8_width}
use g_rpc_relay.State
use g_rpc_relay.Mqtt
use g_rpc_relay.Audit.Files.{FileAuditWriter, LogFile, Slots, u64_mod, rotate, write_event}
use g_rpc_relay.Audit.Rotation.{get_elem?}
use g_rpc_relay.Audit.Archive.{Archive, Represents, store, write_event-Represents}
use g_rpc_relay.Audit.Failure.{rotate_fails}
use g_rpc_relay.Audit.Logger.{AuditLogger}
use g_rpc_relay.Audit.Calls.{call_auth_success}
use g_rpc_relay.Audit.Journal.{Step, calls, takes, run, accepted, refused, journal, run-journal}
use g_rpc_relay.Alerting.{AlertRuleConfig, Alerts, Floats, AlertContext, warning, on_tick, second}
use g_rpc_relay.Alerting.Spacing.{IsSpaced, on_tick-IsSpaced}
use g_rpc_relay.Stream
use g_rpc_relay.Health.{
  HealthState, ready, HealthComponents, ComponentHealth, derive_overall_status,
}
use g_rpc_relay.Health.Status.{overall, derive_overall_status_lem, ready_lem}

abbrev active_file : LogFile
active_file = record { lines = str "one" ∷ []; modified = 10 }

abbrev old_file : LogFile
old_file = record { lines = str "zero" ∷ []; modified = 5 }

-- The active file at slot 0, one backup at slot 1.
abbrev disk : Slots
disk = λ i. if eqb i 0 then some active_file else if eqb i 1 then some old_file else none

abbrev writer : FileAuditWriter
writer = record {
  slots = disk;
  max_size = 8;
  max_backups = 2;
  retention_days = 0;
  bytes_written = 4;
}

abbrev archive : Archive
archive = record { active = active_file; backups = old_file ∷ [] }

disk_backups : (j : ℕ) → disk (suc j) ≡ get_elem? j (old_file ∷ [])
disk_backups zero = refl
disk_backups (suc j) = ground arith

writer-Represents : Represents writer archive
unfolding len utf8_width
writer-Represents = record {
  active = refl;
  held = disk_backups;
  few = omega arith;
  falling = (omega arith, tt);
  counted = refl;
}

write_event-Represents_example :
    ((write_event (λ i. false) (str "two") 20 writer).0 ≡ ok tt)
    × Represents
        (write_event (λ i. false) (str "two") 20 writer).1
        (store 8 2 0 (str "two") 20 archive)
unfolding len utf8_width
write_event-Represents_example =
    write_event-Represents (str "two") 20 writer archive writer-Represents (omega arith)
      (omega arith) (omega arith)

abbrev active_stuck : ℕ → Bool
active_stuck i = eqb i 0

active_stuck_later : (i : ℕ) → active_stuck (suc i) ≡ false
active_stuck_later i = ground arith

rotate_fails_example :
    ((rotate active_stuck 20 writer).0 ≡ err tt)
    × ((rotate active_stuck 20 writer).1.bytes_written ≡ writer.bytes_written)
    × ((rotate active_stuck 20 writer).1.slots 0 ≡ some archive.active)
    × ((rotate active_stuck 20 writer).1.slots 1 ≡ none)
    × ((j : ℕ)
        → (rotate active_stuck 20 writer).1.slots (suc (suc j))
          ≡ get_elem? j (take (writer.max_backups - 1) archive.backups))
rotate_fails_example =
    rotate_fails active_stuck active_stuck_later 20 writer archive writer-Represents (omega arith)
      refl

abbrev logger : AuditLogger
logger = record {
  relay_id = str "relay-1";
  enabled_events = some (str "auth_success" ∷ []);
  dropped_events = 0;
  rx = [];
  written = [];
}

abbrev steps : List Step
steps =
    calls (call_auth_success (str "device") (str "dev-1") (str "10.0.0.1")) (str "now") ∷ takes ∷ []

run-journal_example :
    (journal (run steps logger) ≡ journal logger ++ accepted steps logger)
    × ((run steps logger).dropped_events % u64_mod
        ≡ (logger.dropped_events + refused steps logger) % u64_mod)
run-journal_example = run-journal steps logger

abbrev rule : AlertRuleConfig
rule = record {
  name = str "streams";
  condition = str "active_streams > 3";
  severity = warning;
  message = str "many streams";
  duration_seconds = none;
}

abbrev whole_numbers : Floats
whole_numbers = record {
  Float = ℕ;
  is_ge = λ a b. leb b a;
  is_gt = λ a b. ltb b a;
  parse_or_max = λ text. 3;
}

abbrev context : AlertContext whole_numbers
context = record {
  active_device_connections = 1;
  active_streams = 5;
  cpu_usage_percent = 10;
  memory_usage_percent = 10;
  mqtt_connected = true;
  auth_failures_total = 0;
}

abbrev alerts : Alerts
alerts = record { last_sent = []; last_state = []; condition_active_since = []; sent = [] }

alerts-IsSpaced : IsSpaced (300 * second) alerts
alerts-IsSpaced = record { spaced = tt; last = λ name. tt }

on_tick-IsSpaced_example :
    IsSpaced (300 * second) (on_tick whole_numbers 300 ((rule, 7) ∷ []) context alerts)
on_tick-IsSpaced_example =
    on_tick-IsSpaced whole_numbers 300 ((rule, 7) ∷ []) context alerts alerts-IsSpaced

abbrev component : Str → ComponentHealth
component status = record { status = status; message = [] }

abbrev parts : HealthComponents
parts = record {
  grpc_server = component (str "healthy");
  quic_listener = component (str "broken");
  mqtt_client = component (str "degraded");
  auth_service = component (str "healthy");
  metrics_collector = component (str "healthy");
}

derive_overall_status_lem_example :
    derive_overall_status parts
    ≡ overall (
        parts.grpc_server.status ∷ parts.quic_listener.status ∷ parts.mqtt_client.status
        ∷ parts.auth_service.status ∷ parts.metrics_collector.status ∷ [])
derive_overall_status_lem_example = derive_overall_status_lem parts

abbrev whole : ℕ → ℕ
whole n = n

abbrev health_state : HealthState ℕ whole
health_state = record {
  started_at = 0;
  version = str "0.1.0";
  cpu_usage_percent = 10;
  memory_usage_percent = 10;
  used_memory_mb = 100;
  mqtt_runtime = Mqtt.new true;
  relay_state = State.new;
  stream_router = Stream.new (record {
    idle_timeout_seconds = 300;
    max_active_streams = 10;
    max_concurrent_streams_per_controller = 100;
  });
  metrics = record {
    active_device_connections = pos 0;
    active_controller_connections = pos 0;
    active_streams = pos 0;
    cpu_usage_percent = 0;
    memory_usage_percent = 0;
    memory_used_bytes = 0;
    mqtt_connected = pos 0;
    mqtt_reconnect_count = pos 0;
    mqtt_dropped_count = pos 0;
    mqtt_queue_pending = pos 0;
    health_status = pos 0;
    component_health = [];
  };
  startup_complete = true;
}

ready_lem_example :
    ((ready ℕ whole (str "now") 5 health_state).0 ≡ 200)
    × ((ready ℕ whole (str "now") 5 health_state).1.status ≡ str "degraded")
    × ((ready ℕ whole (str "now") 5 health_state).2.metrics.health_status ≡ pos 1)
ready_lem_example = ready_lem ℕ whole (str "now") 5 health_state
