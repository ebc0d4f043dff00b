-- ===== src/Alerting/Spacing.antt =====
-- crates/relay/src/alerting.rs: the time between two alerts of a rule.
use g_rpc_relay.Base.{
  ℕ, ◌-◌, ◌*◌, ◌≤◌, ◌≡◌, ◌≢◌, refl, subst, ◌⊎◌, inl, inr, Bool, true, false, Option, none, some,
  List, [], ◌∷◌, arith, if◌then◌else◌, ◌==◌, ==_iff, Bool-cases, list_eq, ℕ_eq,
}
use g_rpc_relay.Collections.HashMap
use g_rpc_relay.Collections.HashMap.{HashMap, get-insert_self, get-insert_ne}
use g_rpc_relay.Text.{Str}
use g_rpc_relay.Alerting.{
  AlertingSeverity, AlertRuleConfig, Alerts, Floats, AlertContext, second, same_severity, is_brief,
  is_suppressed, since, clear, emit_alert, on_rule, on_tick, evaluate_rule,
}

-- Each earlier alert of the name was sent at least so many nanoseconds before.
abbrev pub Apart : (interval : ℕ) → (name : Str) → (now : ℕ) → List (Str × ℕ) → Type 0
Apart interval name now [] = Unit {0}
Apart interval name now ((n, t) ∷ sent) =
    (n ≡ name → interval ≤ now - t) × Apart interval name now sent

abbrev pub Spaced : (interval : ℕ) → List (Str × ℕ) → Type 0
Spaced interval [] = Unit {0}
Spaced interval ((n, t) ∷ sent) = Apart interval n t sent × Spaced interval sent

-- The time that is kept is that of the last alert of the name, if there is one.
abbrev pub IsLast : (interval : ℕ) → (name : Str) → Option ℕ → List (Str × ℕ) → Type 0
IsLast interval name last [] = Unit {0}
IsLast interval name none ((n, t) ∷ sent) = (n ≢ name) × IsLast interval name none sent
IsLast interval name (some at) ((n, t) ∷ sent) =
    (n ≡ name → (t ≡ at) ⊎ (interval ≤ at - t)) × IsLast interval name (some at) sent

-- Two alerts of a name are at least the interval apart, and `last_sent` knows the last one.
pub record IsSpaced (interval : ℕ) (a : Alerts) : Type 0 where
  pub spaced : Spaced interval a.sent
  pub last : (name : Str) → IsLast interval name (HashMap.get name a.last_sent) a.sent

module _ (seconds now : ℕ) (name : Str) where
  apart :
      (last : Option ℕ) (sent : List (Str × ℕ))
      → IsLast (seconds * second) name last sent
      → is_suppressed seconds now last ≡ false
      → Apart (seconds * second) name now sent
  apart last [] v h = tt
  apart none ((n, t) ∷ sent) v h = (λ same. absurd (v.0 same), apart none sent v.1 h)
  apart (some at) ((n, t) ∷ sent) v h = (
    λ same. elim (v.0 same) [ inl e ↦ ground (arith, e) | inr far ↦ ground (arith, far) ],
    apart (some at) sent v.1 h,
  )

  now-IsLast :
      (sent : List (Str × ℕ))
      → Apart (seconds * second) name now sent
      → IsLast (seconds * second) name (some now) sent
  now-IsLast [] v = tt
  now-IsLast ((n, t) ∷ sent) v = (λ same. inr (v.0 same), now-IsLast sent v.1)

other-IsLast :
    (interval : ℕ) (name other : Str) (now : ℕ) (last : Option ℕ) (sent : List (Str × ℕ))
    → name ≢ other
    → IsLast interval other last sent
    → IsLast interval other last ((name, now) ∷ sent)
other-IsLast interval name other now none sent apart v = (apart, v)
other-IsLast interval name other now (some at) sent apart v = (λ same. absurd (apart same), v)

emit_alert-IsSpaced :
    (seconds : ℕ) (rule : AlertRuleConfig) (severity : AlertingSeverity) (now : ℕ) (a : Alerts)
    → IsSpaced (seconds * second) a
    → is_suppressed seconds now (HashMap.get rule.name a.last_sent) ≡ false
    → IsSpaced (seconds * second) (emit_alert rule severity now a)
unfolding emit_alert
emit_alert-IsSpaced seconds rule severity now a v h =
    let far =
      apart seconds now rule.name (HashMap.get rule.name a.last_sent) a.sent (v.last rule.name) h in
    record {
      spaced = (far, v.spaced);
      last = λ name. elim (Bool-cases (rule.name == name)) [
        | inl same ↦
            subst
              (λ (n : Str).
                IsLast (seconds * second) n
                  (HashMap.get n (HashMap.insert rule.name now a.last_sent))
                  ((rule.name, now) ∷ a.sent))
              ((==_iff rule.name name).0 same)
              (rw (get-insert_self rule.name now a.last_sent)
                (λ _. inl refl, now-IsLast seconds now rule.name a.sent far))
        | inr apart ↦
            let other : rule.name ≢ name = λ e. ground (arith, ==_iff rule.name name) in
            rw (get-insert_ne rule.name name now a.last_sent other) (
              other-IsLast (seconds * second) rule.name name now (HashMap.get name a.last_sent)
                a.sent other (v.last name))
      ];
    }

either_IsSpaced :
    (interval : ℕ) (b : Bool) (a1 a2 : Alerts)
    → IsSpaced interval a1
    → (b ≡ false → IsSpaced interval a2)
    → IsSpaced interval (if b then a1 else a2)
either_IsSpaced interval true a1 a2 v w = v
either_IsSpaced interval false a1 a2 v w = w refl

on_rule-IsSpaced :
    (seconds : ℕ) (rule : AlertRuleConfig) (severity : Option AlertingSeverity) (now : ℕ)
    (a : Alerts)
    → IsSpaced (seconds * second) a
    → IsSpaced (seconds * second) (on_rule seconds rule severity now a)
unfolding on_rule clear
on_rule-IsSpaced seconds rule none now a v = record { spaced = v.spaced; last = v.last }
on_rule-IsSpaced seconds rule (some severity) now a v =
    let active_since = since (HashMap.get rule.name a.condition_active_since) now in
    let tracked : Alerts = record a {
      condition_active_since = HashMap.insert rule.name active_since a.condition_active_since;
    } in
    let still : IsSpaced (seconds * second) tracked = record { spaced = v.spaced; last = v.last } in
    let emitted = emit_alert rule severity now tracked in
    let is_same = same_severity (HashMap.get rule.name a.last_state) severity in
    let is_soon = is_suppressed seconds now (HashMap.get rule.name a.last_sent) in
    either_IsSpaced (seconds * second) (is_brief active_since now rule.duration_seconds) tracked
      (if is_soon then tracked else if is_same then tracked else emitted) still
      (λ _.
        either_IsSpaced (seconds * second) is_soon tracked (if is_same then tracked else emitted)
          still
          (λ late.
            either_IsSpaced (seconds * second) is_same tracked emitted still
              (λ _. emit_alert-IsSpaced seconds rule severity now tracked still late)))

-- However the rules' conditions change from tick to tick, two alerts of rules with one name are at
-- least `min_interval_seconds` apart: a tick keeps all the alerts so far, its own included, that far
-- apart.
pub on_tick-IsSpaced :
    (f : Floats) (seconds : ℕ) (rules : List (AlertRuleConfig × ℕ)) (c : AlertContext f)
    (a : Alerts)
    → IsSpaced (seconds * second) a
    → IsSpaced (seconds * second) (on_tick f seconds rules c a)
unfolding on_tick
on_tick-IsSpaced f seconds [] c a v = v
on_tick-IsSpaced f seconds ((rule, now) ∷ rules) c a v =
    on_tick-IsSpaced f seconds rules c _
      (on_rule-IsSpaced seconds rule (evaluate_rule f rule c) now a v)
