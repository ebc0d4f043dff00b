-- ===== src/RateLimiter/Connections/Window.antt =====
-- crates/relay/src/rate_limiter.rs, `prune_and_check`: the pruned deque beside a counter over all
-- the connections that were ever admitted.
use mathlib.Core.List.{append_assoc}
use mathlib.Core.Path.{ap₂}
use g_rpc_relay.Base.{
  ℕ, ◌+◌, ◌-◌, ◌≤◌, ◌<◌, ◌≡◌, refl, sym, ap, ◌∙◌, Bool, true, false, List, [], ◌∷◌, ◌++◌, arith,
  if◌then◌else◌, ltb, leb, leb→le, length, inl, inr, Bool-cases, list_eq, ℕ_eq,
}
use g_rpc_relay.RateLimiter.Connections.{prune, prune_and_check, prune_and_check_inner}

-- How many of the times are less than `dur` ago.
pub recent : ℕ → ℕ → List ℕ → ℕ
recent dur now [] = 0
recent dur now (t ∷ ts) = (if ltb (now - t) dur then 1 else 0) + recent dur now ts

-- The reference limiter keeps every admitted time, and admits while fewer than `limit` are recent.
pub ideal : List ℕ → ℕ → ℕ → ℕ → List ℕ × Bool
ideal admitted limit dur now =
    if ltb (recent dur now admitted) limit then (admitted ++ now ∷ [], true) else (admitted, false)

-- The decisions on a sequence of attempts.
pub decisions : List ℕ → ℕ → ℕ → List ℕ → List Bool
decisions window limit dur [] = []
decisions window limit dur (now ∷ later) =
    let (window', allowed) = prune_and_check window limit dur now in
    allowed ∷ decisions window' limit dur later

pub ideal_decisions : List ℕ → ℕ → ℕ → List ℕ → List Bool
ideal_decisions admitted limit dur [] = []
ideal_decisions admitted limit dur (now ∷ later) =
    let (admitted', allowed) = ideal admitted limit dur now in
    allowed ∷ ideal_decisions admitted' limit dur later

recent-append :
    (dur now : ℕ) (xs ys : List ℕ)
    → recent dur now (xs ++ ys) ≡ recent dur now xs + recent dur now ys
unfolding recent
recent-append dur now [] ys = omega arith
recent-append dur now (x ∷ xs) ys = omega (arith, recent-append dur now xs ys)

-- Times that do not fall, from a first bound to a last.
abbrev pub Rising : ℕ → ℕ → List ℕ → Type 0
Rising lo hi [] = lo ≤ hi
Rising lo hi (t ∷ ts) = (lo ≤ t) × Rising t hi ts

-- The times up to now that have expired.
abbrev Expired : ℕ → ℕ → List ℕ → Type 0
Expired dur now [] = Unit {0}
Expired dur now (t ∷ ts) = (dur ≤ now - t) × Expired dur now ts

-- The deque is the tail of the admitted times whose earlier ones have expired.
record Window (dur now : ℕ) (admitted window : List ℕ) : Type 0 where
  gone : List ℕ
  split : admitted ≡ gone ++ window
  expired : Expired dur now gone
  floor : ℕ
  rising : Rising floor now window

Expired-later :
    (dur : ℕ) {now later : ℕ} (ts : List ℕ)
    → now ≤ later
    → Expired dur now ts
    → Expired dur later ts
Expired-later dur [] h e = tt
Expired-later dur (t ∷ ts) h e = (omega arith, Expired-later dur ts h e.1)

recent-Expired : (dur now : ℕ) (ts : List ℕ) → Expired dur now ts → recent dur now ts ≡ 0
unfolding recent
recent-Expired dur now [] e = refl
recent-Expired dur now (t ∷ ts) e = ground (arith, recent-Expired dur now ts e.1)

Rising-later : (lo hi later : ℕ) (ts : List ℕ) → hi ≤ later → Rising lo hi ts → Rising lo later ts
Rising-later lo hi later [] h r = omega arith
Rising-later lo hi later (t ∷ ts) h r = (r.0, Rising-later t hi later ts h r.1)

Rising-lower : (lo lo' hi : ℕ) (ts : List ℕ) → lo' ≤ lo → Rising lo hi ts → Rising lo' hi ts
Rising-lower lo lo' hi [] h r = omega arith
Rising-lower lo lo' hi (t ∷ ts) h r = (omega arith, r.1)

Rising-append : (lo hi : ℕ) (ts : List ℕ) → Rising lo hi ts → Rising lo hi (ts ++ hi ∷ [])
Rising-append lo hi [] r = (r, omega arith)
Rising-append lo hi (t ∷ ts) r = (r.0, Rising-append t hi ts r.1)

recent-Rising :
    (dur lo now : ℕ) (ts : List ℕ)
    → now - lo < dur
    → Rising lo now ts
    → recent dur now ts ≡ length ts
unfolding recent
recent-Rising dur lo now [] h r = refl
recent-Rising dur lo now (t ∷ ts) h r = ground (arith, recent-Rising dur t now ts (omega arith) r.1)

Expired-append :
    (dur now : ℕ) (xs ys : List ℕ)
    → Expired dur now xs
    → Expired dur now ys
    → Expired dur now (xs ++ ys)
Expired-append dur now [] ys e f = f
Expired-append dur now (x ∷ xs) ys e f = (e.0, Expired-append dur now xs ys e.1 f)

-- The loop drops expired times, and what it keeps is recent throughout.
record Pruned (dur now floor : ℕ) (window : List ℕ) : Type 0 where
  gone : List ℕ
  split : window ≡ gone ++ prune now dur window
  expired : Expired dur now gone
  kept : recent dur now (prune now dur window) ≡ length (prune now dur window)
  rising : Rising floor now (prune now dur window)

prune-Pruned :
    (dur now floor : ℕ) (window : List ℕ) → Rising floor now window → Pruned dur now floor window
unfolding prune recent
prune-Pruned dur now floor [] r = record {
  gone = [];
  split = refl;
  expired = tt;
  kept = refl;
  rising = r;
}
prune-Pruned dur now floor (t ∷ ts) r = elim (Bool-cases (leb dur (now - t))) [
  | inl old ↦
      let p = prune-Pruned dur now t ts r.1 in
      record {
        gone = t ∷ p.gone;
        split = ground (arith, p.split, old);
        expired = (leb→le _ _ old, p.expired);
        kept = ground (arith, p.kept, old);
        rising = rw (old, prune) (Rising-lower t floor now _ r.0 p.rising);
      }
  | inr new ↦ record {
    gone = [];
    split = ground (arith, new);
    expired = tt;
    kept = rw (new, prune) (ground (arith, recent-Rising dur t now ts (ground arith) r.1));
    rising = rw (new, prune) r;
  }
]

step_lem :
    (dur last now limit : ℕ) (admitted window : List ℕ)
    → last ≤ now
    → Window dur last admitted window
    → ((prune_and_check window limit dur now).1 ≡ (ideal admitted limit dur now).1)
      × Window dur now (ideal admitted limit dur now).0 (prune_and_check window limit dur now).0
unfolding prune_and_check ideal
step_lem dur last now limit admitted window h w =
    let p = prune-Pruned dur now w.floor window (Rising-later w.floor last now window h w.rising) in
    let gone =
      Expired-append dur now w.gone p.gone (Expired-later dur w.gone h w.expired) p.expired in
    let whole : admitted ≡ (w.gone ++ p.gone) ++ prune now dur window =
      w.split ∙ ap (◌++◌ w.gone) p.split ∙ sym (append_assoc w.gone p.gone _) in
    let many : recent dur now admitted ≡ length (prune now dur window) =
      ap (recent dur now) whole
      ∙ recent-append dur now (w.gone ++ p.gone) _
      ∙ omega (arith, recent-Expired dur now (w.gone ++ p.gone) gone, p.kept) in
    elim (Bool-cases (ltb (recent dur now admitted) limit)) [
      | inl room ↦
          let free : leb limit (length (prune now dur window)) ≡ false =
            ground (arith, many, room) in
          rw (room, free)
            (
              refl,
              record {
                gone = w.gone ++ p.gone;
                split =
                    ap (λ (xs : List ℕ). xs ++ now ∷ []) whole
                    ∙ append_assoc (w.gone ++ p.gone) _ _;
                expired = gone;
                floor = w.floor;
                rising = Rising-append w.floor now _ p.rising;
              },
            )
      | inr full ↦
          let busy : leb limit (length (prune now dur window)) ≡ true =
            ground (arith, many, full) in
          rw (full, busy)
            (
              refl,
              record {
                gone = w.gone ++ p.gone;
                split = whole;
                expired = gone;
                floor = w.floor;
                rising = p.rising;
              },
            )
    ]

decisions-Window :
    (dur last limit : ℕ) (admitted window attempts : List ℕ) (end : ℕ)
    → Rising last end attempts
    → Window dur last admitted window
    → decisions window limit dur attempts ≡ ideal_decisions admitted limit dur attempts
unfolding decisions ideal_decisions
decisions-Window dur last limit admitted window [] end r w = refl
decisions-Window dur last limit admitted window (now ∷ later) end r w =
    let (same, next) = step_lem dur last now limit admitted window r.0 w in
    ap₂ ◌∷◌ same (decisions-Window dur now limit _ _ later end r.1 next)

-- On attempts whose times do not fall, the deque lets a connection through exactly when fewer than
-- `limit` of all those admitted before are less than the window's length ago.
pub decisions-ideal :
    (limit dur first end : ℕ) (attempts : List ℕ)
    → Rising first end attempts
    → decisions [] limit dur attempts ≡ ideal_decisions [] limit dur attempts
decisions-ideal limit dur first end attempts r =
    decisions-Window dur first limit [] [] attempts end r
      (record { gone = []; split = refl; expired = tt; floor = first; rising = omega arith })

-- The two copies of the function in the source agree.
pub prune_and_check_inner_lem :
    (window : List ℕ) (limit dur now : ℕ)
    → prune_and_check_inner window limit dur now ≡ prune_and_check window limit dur now
unfolding prune_and_check prune_and_check_inner
prune_and_check_inner_lem window limit dur now = refl
