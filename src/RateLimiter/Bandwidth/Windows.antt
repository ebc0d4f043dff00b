-- ===== src/RateLimiter/Bandwidth/Windows.antt =====
-- crates/relay/src/rate_limiter.rs, `record_key`: how many bytes a key can move.
use mathlib.Core.List.{append_assoc, append-nil}
use g_rpc_relay.Base.{
  ℕ, ◌+◌, ◌-◌, ◌*◌, ◌≤◌, ◌⊎◌, ◌≡◌, refl, Bool, List, [], ◌∷◌, ◌++◌, arith, if◌then◌else◌, ltb, leb,
  leb→le, inl, inr, Bool-cases, list_eq, ℕ_eq,
}
use g_rpc_relay.RateLimiter.Bandwidth.{record_window, rotate, count_bytes, second, u64_mod}

-- The transfers that were let through, as (time, bytes).
pub transfers : ℕ × ℕ → ℕ → List (ℕ × ℕ) → List (ℕ × ℕ)
transfers window limit [] = []
transfers window limit ((now, bytes) ∷ later) =
    let (window', within) = record_window window now bytes limit in
    let rest = transfers window' limit later in if within then (now, bytes) ∷ rest else rest

-- The bytes of the transfers that are less than a second before `now`.
pub moved : ℕ → List (ℕ × ℕ) → ℕ
moved now [] = 0
moved now ((t, bytes) ∷ ts) = (if ltb (now - t) second then bytes else 0) + moved now ts

abbrev pub Rising : ℕ → ℕ → List (ℕ × ℕ) → Type 0
Rising lo hi [] = lo ≤ hi
Rising lo hi ((t, bytes) ∷ ts) = (lo ≤ t) × Rising t hi ts

-- All their bytes, and that none is later than a time.
total_bytes : List (ℕ × ℕ) → ℕ
total_bytes [] = 0
total_bytes ((t, bytes) ∷ ts) = bytes + total_bytes ts

abbrev Before : ℕ → List (ℕ × ℕ) → Type 0
Before b [] = Unit {0}
Before b ((t, bytes) ∷ ts) = (t ≤ b) × Before b ts

Before-later : (b c : ℕ) (ts : List (ℕ × ℕ)) → b ≤ c → Before b ts → Before c ts
Before-later b c [] h p = tt
Before-later b c ((t, bytes) ∷ ts) h p = (omega arith, Before-later b c ts h p.1)

Before-append : (b : ℕ) (xs ys : List (ℕ × ℕ)) → Before b xs → Before b ys → Before b (xs ++ ys)
Before-append b [] ys p q = q
Before-append b ((t, bytes) ∷ xs) ys p q = (p.0, Before-append b xs ys p.1 q)

total_bytes-append :
    (xs ys : List (ℕ × ℕ)) → total_bytes (xs ++ ys) ≡ total_bytes xs + total_bytes ys
unfolding total_bytes
total_bytes-append [] ys = omega arith
total_bytes-append ((t, bytes) ∷ xs) ys = omega (arith, total_bytes-append xs ys)

moved-append : (now : ℕ) (xs ys : List (ℕ × ℕ)) → moved now (xs ++ ys) ≡ moved now xs + moved now ys
unfolding moved
moved-append now [] ys = omega arith
moved-append now ((t, bytes) ∷ xs) ys = omega (arith, moved-append now xs ys)

moved-le-total_bytes : (now : ℕ) (ts : List (ℕ × ℕ)) → moved now ts ≤ total_bytes ts
unfolding moved total_bytes
moved-le-total_bytes now [] = omega arith
moved-le-total_bytes now ((t, bytes) ∷ ts) = ground (arith, moved-le-total_bytes now ts)

moved_old : (now b : ℕ) (ts : List (ℕ × ℕ)) → b + second ≤ now → Before b ts → moved now ts ≡ 0
unfolding moved
moved_old now b [] h p = refl
moved_old now b ((t, bytes) ∷ ts) h p = ground (arith, moved_old now b ts h p.1)

-- What was let through up to now: in the window that is open, in the one before, and earlier. A
-- window begins a second or more after the one before.
record Ledger (limit now : ℕ) (window : ℕ × ℕ) (done : List (ℕ × ℕ)) : Type 0 where
  older : List (ℕ × ℕ)
  previous : List (ℕ × ℕ)
  current : List (ℕ × ℕ)
  split : done ≡ older ++ (previous ++ current)
  current_counted : total_bytes current ≤ window.0
  current_bounded : total_bytes current ≤ limit
  previous_bounded : total_bytes previous ≤ limit
  older_end : ℕ
  older_before : Before older_end older
  older_gap : older ≡ [] ⊎ (older_end + second ≤ window.1)
  previous_before : Before window.1 previous
  current_before : Before now current
  started : window.1 ≤ now

Ledger-moved :
    (limit now : ℕ) (window : ℕ × ℕ) (done : List (ℕ × ℕ))
    → Ledger limit now window done
    → moved now done ≤ 2 * limit
Ledger-moved limit now window done l = rw l.split (
    omega (
      arith,
      moved-append now l.older (l.previous ++ l.current),
      moved-append now l.previous l.current,
      moved-le-total_bytes now l.previous,
      moved-le-total_bytes now l.current,
      older_gone l.older_gap,
    ))
  where
    older_gone : l.older ≡ [] ⊎ (l.older_end + second ≤ window.1) → moved now l.older ≡ 0
    older_gone (inl e) = rw e (unfold moved in refl)
    older_gone (inr h) = moved_old now l.older_end l.older (omega (arith, l.started)) l.older_before

Ledger-later :
    (limit last now : ℕ) (window : ℕ × ℕ) (done : List (ℕ × ℕ))
    → last ≤ now
    → Ledger limit last window done
    → Ledger limit now window done
Ledger-later limit last now window done h l = record {
  older = l.older;
  previous = l.previous;
  current = l.current;
  split = l.split;
  current_counted = l.current_counted;
  current_bounded = l.current_bounded;
  previous_bounded = l.previous_bounded;
  older_end = l.older_end;
  older_before = l.older_before;
  older_gap = l.older_gap;
  previous_before = l.previous_before;
  current_before = Before-later last now l.current h l.current_before;
  started = omega (arith, l.started);
}

-- The history after a transfer that was tried at a time.
abbrev extended : List (ℕ × ℕ) → ℕ → ℕ → Bool → List (ℕ × ℕ)
extended done now bytes within = if within then done ++ (now, bytes) ∷ [] else done

rotate-Ledger :
    (limit now total start : ℕ) (done : List (ℕ × ℕ))
    → Ledger limit now (total, start) done
    → Ledger limit now (rotate (total, start) now) done
unfolding total_bytes rotate
rotate-Ledger limit now total start done l = elim (Bool-cases (leb second (now - start))) [
  | inr new ↦ rw new l
  | inl old ↦ rw old (record {
    older = l.older ++ l.previous;
    previous = l.current;
    current = [];
    split = regroup;
    current_counted = omega arith;
    current_bounded = omega arith;
    previous_bounded = l.current_bounded;
    older_end = start;
    older_before =
        Before-append start l.older l.previous (older_before l.older_gap) l.previous_before;
    older_gap = inr (omega (arith, leb→le _ _ old));
    previous_before = l.current_before;
    current_before = tt;
    started = omega arith;
  })
]
  where
    older_before : l.older ≡ [] ⊎ (l.older_end + second ≤ start) → Before start l.older
    older_before (inl e) = rw e tt
    older_before (inr g) = Before-later l.older_end start l.older (omega arith) l.older_before

    regroup : done ≡ (l.older ++ l.previous) ++ (l.current ++ [])
    regroup = rw (append-nil, append_assoc) l.split

count_bytes-Ledger :
    (limit now bytes total start : ℕ) (done : List (ℕ × ℕ))
    → Ledger limit now (total, start) done
    → Ledger limit now
        (count_bytes (total, start) bytes limit).0
        (extended done now bytes (count_bytes (total, start) bytes limit).1)
unfolding count_bytes total_bytes
count_bytes-Ledger limit now bytes total start done l =
    elim (Bool-cases (ltb (total + bytes) u64_mod)) [
      | inr over ↦ rw over l
      | inl fits ↦ elim (Bool-cases (leb (total + bytes) limit)) [
        | inr over ↦
            rw (fits, over)
              (record {
                older = l.older;
                previous = l.previous;
                current = l.current;
                split = l.split;
                current_counted = omega (arith, l.current_counted);
                current_bounded = l.current_bounded;
                previous_bounded = l.previous_bounded;
                older_end = l.older_end;
                older_before = l.older_before;
                older_gap = l.older_gap;
                previous_before = l.previous_before;
                current_before = l.current_before;
                started = l.started;
              })
        | inl under ↦
            rw (fits, under)
              (record {
                older = l.older;
                previous = l.previous;
                current = l.current ++ (now, bytes) ∷ [];
                split = rw l.split (simp append_assoc);
                current_counted =
                    omega (arith, total_bytes-append l.current one, l.current_counted);
                current_bounded =
                    omega (
                      arith,
                      total_bytes-append l.current one,
                      l.current_counted,
                      leb→le _ _ under,
                    );
                previous_bounded = l.previous_bounded;
                older_end = l.older_end;
                older_before = l.older_before;
                older_gap = l.older_gap;
                previous_before = l.previous_before;
                current_before = Before-append now l.current one l.current_before (omega arith, tt);
                started = l.started;
              })
      ]
    ]
  where
    one : List (ℕ × ℕ)
    one = (now, bytes) ∷ []

record_window-Ledger :
    (limit last now bytes total start : ℕ) (done : List (ℕ × ℕ))
    → last ≤ now
    → Ledger limit last (total, start) done
    → Ledger limit now
        (record_window (total, start) now bytes limit).0
        (extended done now bytes (record_window (total, start) now bytes limit).1)
unfolding record_window
record_window-Ledger limit last now bytes total start done h l =
    count_bytes-Ledger limit now bytes _ _ done
      (rotate-Ledger limit now total start done (Ledger-later limit last now _ done h l))

Ledger-transfers :
    (limit last end total start : ℕ) (done ts : List (ℕ × ℕ))
    → Rising last end ts
    → Ledger limit last (total, start) done
    → moved end (done ++ transfers (total, start) limit ts) ≤ 2 * limit
unfolding transfers
Ledger-transfers limit last end total start done [] r l =
    rw append-nil (Ledger-moved limit end _ done (Ledger-later limit last end _ done r l))
Ledger-transfers limit last end total start done ((now, bytes) ∷ later) r l =
    let next = record_window-Ledger limit last now bytes total start done r.0 l in
    let rest = Ledger-transfers limit now end _ _ _ later r.1 next in
    elim (Bool-cases (record_window (total, start) now bytes limit).1) [
      | inl within ↦ rw (within, transfers) (rw (within, append_assoc) at rest)
      | inr over ↦ rw (over, transfers) (rw over at rest)
    ]

-- When the times of the transfers of a key do not fall, the bytes admitted less than a second
-- before any time that is no earlier than the last of them are at most twice the key's limit, from
-- an empty window.
pub transfers_bound :
    (limit first end : ℕ) (ts : List (ℕ × ℕ))
    → Rising first end ts
    → moved end (transfers (0, first) limit ts) ≤ 2 * limit
unfolding total_bytes
transfers_bound limit first end ts r = Ledger-transfers limit first end 0 first [] ts r (record {
  older = [];
  previous = [];
  current = [];
  split = refl;
  current_counted = omega arith;
  current_bounded = omega arith;
  previous_bounded = omega arith;
  older_end = 0;
  older_before = tt;
  older_gap = inl refl;
  previous_before = tt;
  current_before = tt;
  started = omega arith;
})
