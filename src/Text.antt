-- ===== src/Text.antt =====
-- Rust's `str` as its sequence of Unicode scalar values, and the standard library's functions on
-- it that the relay calls.
pub mod Decimal
pub mod Split
use Prim.Native.Char.{code}
use Prim.Native.String
use Prim.Native.String.{String}
use g_rpc_relay.Base.{
  ℕ, ◌+◌, ◌≤◌, ◌≡◌, refl, ◌↔◌, Bool, true, false, ◌&&◌, ◌||◌, List, [], ◌∷◌, ◌++◌, arith,
  if◌then◌else◌, ltb, leb, eqb, eqb→eq, eqb_refl, all, is_empty, length, list_eq, ℕ_eq,
}

abbrev pub Str : Type 0
Str = List ℕ

abbrev pub str : String → Str
str String.[] = []
str (String.◌∷◌ c s) = code c ∷ str s

-- `char::is_whitespace`: the Unicode property White_Space.
unfoldable pub is_whitespace : ℕ → Bool
is_whitespace c =
    leb 0x09 c && leb c 0x0d
    || eqb c 0x20
    || eqb c 0x85
    || eqb c 0xa0
    || eqb c 0x1680
    || leb 0x2000 c && leb c 0x200a
    || eqb c 0x2028
    || eqb c 0x2029
    || eqb c 0x202f
    || eqb c 0x205f
    || eqb c 0x3000

unfoldable pub trim_start : Str → Str
trim_start [] = []
trim_start (c ∷ s) = if is_whitespace c then trim_start s else c ∷ s

unfoldable pub trim_end : Str → Str
trim_end [] = []
trim_end (c ∷ s) =
    let rest = trim_end s in if is_whitespace c && is_empty rest then [] else c ∷ rest

unfoldable pub trim : Str → Str
unfolding trim_start trim_end is_whitespace
trim s = trim_end (trim_start s)

-- `s.trim().is_empty()`
abbrev pub is_blank : Str → Bool
is_blank s = is_empty (trim s)

is_empty-trim_end : (s : Str) → is_empty (trim_end s) ≡ all is_whitespace s
unfolding trim_end
is_empty-trim_end [] = refl
is_empty-trim_end (c ∷ s) = ground (arith, is_empty-trim_end s)

-- A text is blank exactly when it holds nothing but whitespace.
pub is_blank-all : (s : Str) → is_blank s ≡ all is_whitespace s
unfolding trim_start
is_blank-all s = unfold trim in go s
  where
    go : (s : Str) → is_empty (trim_end (trim_start s)) ≡ all is_whitespace s
    go [] = is_empty-trim_end []
    go (c ∷ s) = ground (arith, go s, is_empty-trim_end (c ∷ s))

-- The bytes of a scalar value in UTF-8, and `str::len`.
unfoldable pub utf8_width : ℕ → ℕ
utf8_width c = if ltb c 0x80 then 1 else if ltb c 0x800 then 2 else if ltb c 0x1_0000 then 3 else 4

unfoldable pub len : Str → ℕ
unfolding utf8_width
len [] = 0
len (c ∷ s) = utf8_width c + len s

pub length-le-len : (s : Str) → length s ≤ len s
unfolding len
length-le-len [] = omega arith
length-le-len (c ∷ s) = ground (arith, length-le-len s)

-- `s.starts_with(prefix)`
unfoldable pub starts_with : Str → Str → Bool
starts_with s [] = true
starts_with [] (p ∷ prefix) = false
starts_with (c ∷ s) (p ∷ prefix) = eqb c p && starts_with s prefix

starts_with-prefix :
    (s prefix : Str) → starts_with s prefix ≡ true → (rest : Str) × (s ≡ prefix ++ rest)
unfolding starts_with
starts_with-prefix s [] h = (s, refl)
starts_with-prefix [] (p ∷ prefix) h = cc
starts_with-prefix (c ∷ s) (p ∷ prefix) h =
    let (rest, e) = starts_with-prefix s prefix (ground arith) in (rest, ground (arith, eqb→eq c p))

pub prefix-starts_with : (prefix rest : Str) → starts_with (prefix ++ rest) prefix ≡ true
unfolding starts_with
prefix-starts_with [] [] = refl
prefix-starts_with [] (c ∷ rest) = refl
prefix-starts_with (p ∷ prefix) rest = ground (arith, eqb_refl p, prefix-starts_with prefix rest)

pub starts_with_iff :
    (s prefix : Str) → (starts_with s prefix ≡ true) ↔ ((rest : Str) × (s ≡ prefix ++ rest))
starts_with_iff s prefix =
    (starts_with-prefix s prefix, λ (rest, e). rw e (prefix-starts_with prefix rest))

unfoldable pub is_ascii_alphanumeric : ℕ → Bool
is_ascii_alphanumeric c =
    leb b'0' c && leb c b'9' || leb b'A' c && leb c b'Z' || leb b'a' c && leb c b'z'

pub starts_with_refl : (s : Str) → starts_with s s ≡ true
unfolding starts_with
starts_with_refl [] = refl
starts_with_refl (c ∷ s) = ground (arith, eqb_refl c, starts_with_refl s)
