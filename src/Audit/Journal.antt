-- ===== src/Audit/Journal.antt =====
-- crates/relay/src/audit.rs, `AuditLogger`: what becomes of the events, over any sequence of calls
-- and rounds of the writer's task.
use mathlib.Core.List.{append-nil, append_assoc}
use g_rpc_relay.Base.{
  ℕ, ◌+◌, ◌%◌, ◌≡◌, refl, ap, sym, ◌∙◌, inl, inr, Bool, List, [], ◌∷◌, ◌++◌, arith, if◌then◌else◌,
  ltb, length, ◌&&◌, Bool-cases, list_eq, ℕ_eq,
}
use g_rpc_relay.Text.{Str}
use g_rpc_relay.Audit.Event.{AuditEvent, event_type}
use g_rpc_relay.Audit.Logger.{
  AuditLogger, should_log, send, take_from, take_next, channel_capacity, u64_mod,
}
use g_rpc_relay.Audit.Calls.{Call, call, event_of, call_lem}

pub data Step : Type 0 where
  calls : Call → (now : Str) → Step
  takes : Step

pub step : Step → AuditLogger → AuditLogger
step (calls c now) l = call c now l
step takes l = take_next l

pub run : List Step → AuditLogger → AuditLogger
run [] l = l
run (s ∷ steps) l = run steps (step s l)

abbrev event_is_on : Call → Str → AuditLogger → Bool
event_is_on c now l = should_log l (event_type (event_of c now l.relay_id))

abbrev has_room : AuditLogger → Bool
has_room l = ltb (length l.rx) channel_capacity

abbrev accepted_by : Step → AuditLogger → List AuditEvent
accepted_by (calls c now) l =
    if event_is_on c now l && has_room l then event_of c now l.relay_id ∷ [] else []
accepted_by takes l = []

-- The events of enabled kinds that found room in the channel.
pub accepted : List Step → AuditLogger → List AuditEvent
accepted [] l = []
accepted (s ∷ steps) l = accepted_by s l ++ accepted steps (step s l)

abbrev refused_by : Step → AuditLogger → ℕ
refused_by (calls c now) l = if event_is_on c now l then if has_room l then 0 else 1 else 0
refused_by takes l = 0

-- How many of enabled kinds did not.
pub refused : List Step → AuditLogger → ℕ
refused [] l = 0
refused (s ∷ steps) l = refused_by s l + refused steps (step s l)

-- Those that the writer was handed and those in the channel.
abbrev pub journal : AuditLogger → List AuditEvent
journal l = l.written ++ l.rx

record Follows (l l1 : AuditLogger) (events : List AuditEvent) (drops : ℕ) : Type 0 where
  kept : journal l1 ≡ journal l ++ events
  counted : l1.dropped_events % u64_mod ≡ (l.dropped_events + drops) % u64_mod

unchanged : (l : AuditLogger) → Follows l l [] 0
unchanged l = record {
  kept = sym (append-nil (journal l));
  counted = ap (λ (n : ℕ). n % u64_mod) (omega arith);
}

send-Follows :
    (event : AuditEvent) (l : AuditLogger)
    → Follows l (send event l) (if has_room l then event ∷ [] else []) (if has_room l then 0 else 1)
unfolding send
send-Follows event l = elim (Bool-cases (has_room l)) [
  | inl room ↦
      rw (room, send)
        (record {
          kept = sym (append_assoc l.written l.rx (event ∷ []));
          counted = ap (λ (n : ℕ). n % u64_mod) (omega arith);
        })
  | inr full ↦
      rw (full, send) (record { kept = sym (append-nil (journal l)); counted = omega arith })
]

take_from-Follows :
    (events : List AuditEvent) (l : AuditLogger)
    → l.rx ≡ events
    → Follows l (take_from events l) [] 0
unfolding take_from
take_from-Follows [] l e = unchanged l
take_from-Follows (event ∷ events) l e = record {
  kept =
      append_assoc l.written (event ∷ []) events
      ∙ ap (λ (es : List AuditEvent). l.written ++ es) (sym e)
      ∙ sym (append-nil (journal l));
  counted = ap (λ (n : ℕ). n % u64_mod) (omega arith);
}

step-Follows :
    (s : Step) (l : AuditLogger) → Follows l (step s l) (accepted_by s l) (refused_by s l)
unfolding step take_next
step-Follows takes l = take_from-Follows l.rx l refl
step-Follows (calls c now) l = elim (Bool-cases (event_is_on c now l)) [
  | inl on ↦ rw (call_lem c now l, on) (send-Follows (event_of c now l.relay_id) l)
  | inr off ↦ rw (call_lem c now l, off) (unchanged l)
]

-- Over any calls and rounds of the task, the events that the writer was handed, in their order, and
-- after them those in the channel are the earlier ones followed by the events that were enabled and
-- found room, in the order of their calls; and `dropped_events` has grown, modulo 2^64, by the
-- number of those that were enabled and found none.
pub run-journal :
    (steps : List Step) (l : AuditLogger)
    → (journal (run steps l) ≡ journal l ++ accepted steps l)
      × ((run steps l).dropped_events % u64_mod ≡ (l.dropped_events + refused steps l) % u64_mod)
unfolding run accepted refused
run-journal [] l = let v = unchanged l in (v.kept, v.counted)
run-journal (s ∷ steps) l =
    let one = step-Follows s l in
    let later = run-journal steps (step s l) in
    let first = one.counted in
    let rest = later.1 in
    (
      later.0
          ∙ ap (λ (es : List AuditEvent). es ++ accepted steps (step s l)) one.kept
          ∙ append_assoc (journal l) (accepted_by s l) (accepted steps (step s l)),
      omega (arith, first, rest),
    )
