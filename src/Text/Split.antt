-- ===== src/Text/Split.antt =====
-- Rust's `str::split_once`, `str::rsplit_once`, and the first piece of `str::split` and of
-- `str::rsplit`.
use g_rpc_relay.Base.{
  ℕ, ◌≡◌, refl, Bool, true, false, Option, none, some, [], ◌∷◌, ◌++◌, arith, if◌then◌else◌, eqb,
  any, list_eq, ℕ_eq,
}
use g_rpc_relay.Text.{Str, starts_with, prefix-starts_with}

abbrev pub contains : ℕ → Str → Bool
contains c s = any (λ x. eqb x c) s

pub contains-append :
    (c : ℕ) (s t : Str) → contains c s ≡ false → contains c t ≡ false → contains c (s ++ t) ≡ false
contains-append c [] t h k = k
contains-append c (x ∷ s) t h k = ground (arith, contains-append c s t)

-- `s.split(c).next()`
unfoldable pub before : ℕ → Str → Str
before c [] = []
before c (x ∷ s) = if eqb x c then [] else x ∷ before c s

pub before_absent : (c : ℕ) (s : Str) → contains c s ≡ false → before c s ≡ s
unfolding before
before_absent c [] h = refl
before_absent c (x ∷ s) h = ground (arith, before_absent c s)

pub before-append : (c : ℕ) (s t : Str) → contains c s ≡ false → before c (s ++ c ∷ t) ≡ s
unfolding before
before-append c [] t h = ground arith
before-append c (x ∷ s) t h = ground (arith, before-append c s t)

-- `s.rsplit_once(c)`
unfoldable pub rsplit_once : ℕ → Str → Option (Str × Str)
rsplit_once c [] = none
rsplit_once c (x ∷ s) = elim (rsplit_once c s) [
  | some (a, b) ↦ some (x ∷ a, b)
  | none ↦ if eqb x c then some ([], s) else none
]

pub rsplit_once_absent : (c : ℕ) (s : Str) → contains c s ≡ false → rsplit_once c s ≡ none
unfolding rsplit_once
rsplit_once_absent c [] h = refl
rsplit_once_absent c (x ∷ s) h = ground (arith, rsplit_once_absent c s)

pub rsplit_once-append :
    (c : ℕ) (s t : Str) → contains c t ≡ false → rsplit_once c (s ++ c ∷ t) ≡ some (s, t)
unfolding rsplit_once
rsplit_once-append c [] t h = ground (arith, rsplit_once_absent c t h)
rsplit_once-append c (x ∷ s) t h = let ih = rsplit_once-append c s t h in rw (ih, rsplit_once) refl

-- `s.rsplit(c).next()`
unfoldable pub after_last : ℕ → Str → Str
unfolding rsplit_once
after_last c s = elim (rsplit_once c s) [ none ↦ s | some (_, b) ↦ b ]

pub after_last_absent : (c : ℕ) (s : Str) → contains c s ≡ false → after_last c s ≡ s
unfolding after_last
after_last_absent c s h = rw (rsplit_once_absent c s h, after_last) refl

pub after_last-append : (c : ℕ) (s t : Str) → contains c t ≡ false → after_last c (s ++ c ∷ t) ≡ t
unfolding after_last
after_last-append c s t h = rw (rsplit_once-append c s t h, after_last) refl

-- `s.split_once(c)`
unfoldable pub split_once : ℕ → Str → Option (Str × Str)
split_once c [] = none
split_once c (x ∷ s) = elim (eqb x c) [
  | true ↦ some ([], s)
  | false ↦ elim (split_once c s) [ none ↦ none | some (a, b) ↦ some (x ∷ a, b) ]
]

pub split_once-append :
    (c : ℕ) (s t : Str) → contains c s ≡ false → split_once c (s ++ c ∷ t) ≡ some (s, t)
unfolding split_once
split_once-append c [] t h = ground arith
split_once-append c (x ∷ s) t h = ground (arith, split_once-append c s t)

-- `s.split_once(pattern)` for a text; `drop` takes a prefix off.
unfoldable pub drop : Str → Str → Str
drop [] s = s
drop (p ∷ ps) [] = []
drop (p ∷ ps) (c ∷ s) = drop ps s

unfoldable pub split_once_str : Str → Str → Option (Str × Str)
unfolding drop starts_with
split_once_str pattern [] = none
split_once_str pattern (c ∷ s) = elim (starts_with (c ∷ s) pattern) [
  | true ↦ some ([], drop pattern (c ∷ s))
  | false ↦ elim (split_once_str pattern s) [ none ↦ none | some (a, b) ↦ some (c ∷ a, b) ]
]

drop-append : (p s : Str) → drop p (p ++ s) ≡ s
unfolding drop
drop-append [] s = refl
drop-append (c ∷ p) s = drop-append p s

-- A pattern whose second character does not occur is not found.
pub split_once_str_absent :
    (p q : ℕ) (ps s : Str) → contains q s ≡ false → split_once_str (p ∷ q ∷ ps) s ≡ none
unfolding split_once_str starts_with
split_once_str_absent p q ps [] h = refl
split_once_str_absent p q ps (c ∷ []) h = ground arith
split_once_str_absent p q ps (c ∷ d ∷ s) h = ground (arith, split_once_str_absent p q ps (d ∷ s))

-- The first place is found where the first character of the pattern does not occur before it.
pub split_once_str-append :
    (p : ℕ) (ps s t : Str)
    → contains p s ≡ false
    → split_once_str (p ∷ ps) (s ++ ((p ∷ ps) ++ t)) ≡ some (s, t)
unfolding split_once_str starts_with
split_once_str-append p ps [] t h =
    let found = prefix-starts_with (p ∷ ps) t in
    rw (found, split_once_str) (rw (drop-append (p ∷ ps) t) refl)
split_once_str-append p ps (c ∷ s) t h = ground (arith, split_once_str-append p ps s t)
