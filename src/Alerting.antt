-- ===== src/Alerting.antt =====
-- crates/relay/src/alerting.rs: the rules that are evaluated at every tick, and the alerts they send.
use g_rpc_relay.Base.{
  ℕ, ◌+◌, ◌-◌, ◌*◌, Bool, true, false, ◌||◌, ◌&&◌, Option, none, some, List, [], ◌∷◌, ◌++◌,
  if◌then◌else◌, ltb, ◌==◌, filter, not, eqb, list_eq, ℕ_eq,
}
use g_rpc_relay.Collections.HashMap
use g_rpc_relay.Collections.HashMap.{HashMap}
use g_rpc_relay.Text.{Str, str}
use g_rpc_relay.Text.Split.{split_once, split_once_str}
pub mod Spacing

pub data AlertingSeverity : Type 0 where
  warning critical : AlertingSeverity

pub record AlertRuleConfig : Type 0 where
  pub name : Str
  pub condition : Str
  pub severity : AlertingSeverity
  pub message : Str
  pub duration_seconds : Option ℕ

-- What the rules need of floating-point numbers: two comparisons, the text of a number, which falls
-- back to the largest one.
pub record Floats : Type 1 where
  pub Float : Type 0
  pub is_ge : Float → Float → Bool
  pub is_gt : Float → Float → Bool
  pub parse_or_max : Str → Float

pub record AlertContext (f : Floats) : Type 0 where
  pub active_device_connections : f.Float
  pub active_streams : f.Float
  pub cpu_usage_percent : f.Float
  pub memory_usage_percent : f.Float
  pub mqtt_connected : Bool
  pub auth_failures_total : f.Float

-- Times are nanoseconds; `sent` lists the rules that sent an alert and when, the newest first.
pub record Alerts : Type 0 where
  pub last_sent : HashMap Str ℕ
  pub last_state : HashMap Str AlertingSeverity
  pub condition_active_since : HashMap Str ℕ
  pub sent : List (Str × ℕ)

abbrev pub second : ℕ
second = 1_000_000_000

abbrev pub same_severity : Option AlertingSeverity → AlertingSeverity → Bool
same_severity (some warning) warning = true
same_severity (some critical) critical = true
same_severity _ _ = false

module _ (f : Floats) where
  unfoldable pub read_metric : Str → AlertContext f → Option f.Float
  read_metric metric c =
      if metric == str "active_device_connections"
      then some c.active_device_connections
      else if metric == str "active_streams"
      then some c.active_streams
      else if metric == str "cpu_usage_percent"
      then some c.cpu_usage_percent
      else if metric == str "memory_usage_percent"
      then some c.memory_usage_percent
      else if metric == str "auth_failures_total"
      then some c.auth_failures_total
      else none

  abbrev compared : (f.Float → f.Float → Bool) → Option f.Float → Str → Bool
  compared test none threshold = false
  compared test (some value) threshold = test value (f.parse_or_max threshold)

  unfoldable pub evaluate_equation : Option (Str × Str) → AlertContext f → Bool
  evaluate_equation none c = false
  evaluate_equation (some (metric, expected)) c =
      (metric == str "mqtt_connected")
      && (if expected == str "true" then c.mqtt_connected else not c.mqtt_connected)

  unfoldable pub evaluate_condition : Str → AlertContext f → Bool
  evaluate_condition condition c =
      let normalized = filter (λ (b : ℕ). not (eqb b b' ')) condition in
      elim (split_once_str (str ">=") normalized) [
        | some (metric, threshold) ↦ compared f.is_ge (read_metric metric c) threshold
        | none ↦ elim (split_once b'>' normalized) [
          | some (metric, threshold) ↦ compared f.is_gt (read_metric metric c) threshold
          | none ↦ evaluate_equation (split_once_str (str "==") normalized) c
        ]
      ]

  unfoldable pub evaluate_rule : AlertRuleConfig → AlertContext f → Option AlertingSeverity
  evaluate_rule rule c = if evaluate_condition rule.condition c then some rule.severity else none

-- The condition does not hold.
unfoldable pub clear : AlertRuleConfig → Alerts → Alerts
clear rule a = record a {
  condition_active_since = HashMap.remove rule.name a.condition_active_since;
  last_state = HashMap.remove rule.name a.last_state;
}

unfoldable pub since : Option ℕ → (now : ℕ) → ℕ
since none now = now
since (some at) now = at

unfoldable pub emit_alert : AlertRuleConfig → AlertingSeverity → (now : ℕ) → Alerts → Alerts
emit_alert rule severity now a = record a {
  sent = (rule.name, now) ∷ a.sent;
  last_sent = HashMap.insert rule.name now a.last_sent;
  last_state = HashMap.insert rule.name severity a.last_state;
}

abbrev pub is_brief : (active_since now : ℕ) → Option ℕ → Bool
is_brief active_since now none = false
is_brief active_since now (some duration) = ltb (now - active_since) (duration * second)

abbrev pub is_suppressed : (min_interval_seconds now : ℕ) → Option ℕ → Bool
is_suppressed min_interval_seconds now none = false
is_suppressed min_interval_seconds now (some at) = ltb (now - at) (min_interval_seconds * second)

-- One rule at one tick, whose condition holds with a severity or does not hold.
unfoldable pub on_rule :
    (min_interval_seconds : ℕ)
    → AlertRuleConfig
    → Option AlertingSeverity
    → (now : ℕ) → Alerts
    → Alerts
on_rule min_interval_seconds rule none now a = clear rule a
on_rule min_interval_seconds rule (some severity) now a =
    let active_since = since (HashMap.get rule.name a.condition_active_since) now in
    let tracked = record a {
      condition_active_since = HashMap.insert rule.name active_since a.condition_active_since;
    } in
    if is_brief active_since now rule.duration_seconds
    then tracked
    else if is_suppressed min_interval_seconds now (HashMap.get rule.name a.last_sent)
    then tracked
    else if same_severity (HashMap.get rule.name a.last_state) severity
    then tracked
    else emit_alert rule severity now tracked

-- A tick: every rule, each with its reading of the clock.
unfoldable pub on_tick :
    (f : Floats)
    → (min_interval_seconds : ℕ) → List (AlertRuleConfig × ℕ)
    → AlertContext f
    → Alerts
    → Alerts
on_tick f min_interval_seconds [] c a = a
on_tick f min_interval_seconds ((rule, now) ∷ rules) c a =
    on_tick f min_interval_seconds rules c
      (on_rule min_interval_seconds rule (evaluate_rule f rule c) now a)
