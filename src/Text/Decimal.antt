-- ===== src/Text/Decimal.antt =====
-- The decimal digits that `format!("{id}")` prints for an unsigned integer, and what `str::parse`
-- reads from them.
use g_rpc_relay.Base.{
  ℕ, zero, suc, ◌+◌, ◌-◌, ◌*◌, ◌/◌, ◌%◌, ◌<◌, ◌≡◌, refl, sym, ap, ◌∙◌, true, false, List, [], ◌∷◌,
  ◌++◌, arith, ltb, inl, inr, Bool-cases, list_eq, ◌≤◌, ◌≢◌, Bool, ◌&&◌, Option, none, some,
  if◌then◌else◌, leb, eqb, any, ℕ_eq,
}

-- `fuel` above the number is enough: see `read-digits`.
digits : ℕ → ℕ → List ℕ
digits zero n = []
digits (suc fuel) n = elim (ltb n 10) [
  | true ↦ (b'0' + n) ∷ []
  | false ↦ digits fuel (n / 10) ++ (b'0' + n % 10) ∷ []
]

unfoldable pub to_string : ℕ → List ℕ
unfolding digits
to_string n = digits (suc n) n

-- The number that a text of digits stands for.
read : ℕ → List ℕ → ℕ
read acc [] = acc
read acc (c ∷ s) = read (acc * 10 + (c - b'0')) s

read-append : (acc : ℕ) (s t : List ℕ) → read acc (s ++ t) ≡ read (read acc s) t
unfolding read
read-append acc [] t = refl
read-append acc (c ∷ s) t = read-append (acc * 10 + (c - b'0')) s t

read-digits : (fuel n : ℕ) → n < fuel → read 0 (digits fuel n) ≡ n
unfolding read digits
read-digits zero n h = elim h [ ]
read-digits (suc fuel) n h = elim (Bool-cases (ltb n 10)) [
  | inl small ↦ rw (small, digits) (omega arith)
  | inr large ↦
      rw (large, digits, read-append) (omega (arith, read-digits fuel (n / 10) (ground arith)))
]

-- Two numbers with the same digits are the same.
pub to_string-injective : (m n : ℕ) → to_string m ≡ to_string n → m ≡ n
unfolding to_string
to_string-injective m n h =
    sym (read-digits (suc m) m (omega arith)) ∙ ap (read 0) h ∙ read-digits (suc n) n (omega arith)

-- `s.strip_prefix(c)`
unfoldable pub strip_char : ℕ → List ℕ → Option (List ℕ)
strip_char c [] = none
strip_char c (x ∷ s) = if eqb x c then some s else none

-- `str::parse` of an unsigned integer that is at most `max`: digits after an optional plus sign.
abbrev pub is_digit : ℕ → Bool
is_digit c = leb b'0' c && leb c b'9'

parse_digits : ℕ → ℕ → List ℕ → Option ℕ
parse_digits max acc [] = some acc
parse_digits max acc (c ∷ s) =
    let next = acc * 10 + (c - b'0') in
    elim (is_digit c && leb next max) [ false ↦ none | true ↦ parse_digits max next s ]

parse_unsigned : ℕ → List ℕ → Option ℕ
parse_unsigned max [] = none
parse_unsigned max (c ∷ s) = parse_digits max 0 (c ∷ s)

unfoldable pub parse_uint : ℕ → List ℕ → Option ℕ
unfolding parse_digits parse_unsigned strip_char
parse_uint max s = elim (strip_char b'+' s) [
  | some rest ↦ parse_unsigned max rest
  | none ↦ parse_unsigned max s
]

any-append :
    (p : ℕ → Bool) (s t : List ℕ) → any p s ≡ false → any p t ≡ false → any p (s ++ t) ≡ false
any-append p [] t h k = k
any-append p (x ∷ s) t h k = ground (arith, any-append p s t)

module _ (c : ℕ) (other : is_digit c ≡ false) where
  contains-digits : (fuel n : ℕ) → any (λ x. eqb x c) (digits fuel n) ≡ false
  unfolding digits
  contains-digits zero n = refl
  contains-digits (suc fuel) n = elim (Bool-cases (ltb n 10)) [
    | inl small ↦ rw (small, digits) (ground arith)
    | inr large ↦
        rw (large, digits)
          (any-append (λ x. eqb x c) (digits fuel (n / 10)) _ (contains-digits fuel (n / 10))
            (ground arith))
  ]

  -- A printed number holds nothing but digits.
  pub contains-to_string : (n : ℕ) → any (λ x. eqb x c) (to_string n) ≡ false
  unfolding to_string
  contains-to_string n = contains-digits (suc n) n

parse_digits-append :
    (max acc : ℕ) (s t : List ℕ)
    → parse_digits max acc (s ++ t)
      ≡ elim (parse_digits max acc s) [ none ↦ none | some k ↦ parse_digits max k t ]
unfolding parse_digits
parse_digits-append max acc [] t = refl
parse_digits-append max acc (c ∷ s) t =
    let next = acc * 10 + (c - b'0') in
    elim (Bool-cases (is_digit c && leb next max)) [
      | inl fits ↦ rw (fits, parse_digits) (parse_digits-append max next s t)
      | inr bad ↦ rw (bad, parse_digits) refl
    ]

parse_digits-last :
    (max n k d : ℕ)
    → n ≤ max
    → n ≡ k * 10 + d
    → d < 10
    → parse_digits max k ((b'0' + d) ∷ []) ≡ some n
unfolding parse_digits
parse_digits-last max n k d small e digit = ground arith

parse_digits-digits :
    (max fuel n : ℕ) → n < fuel → n ≤ max → parse_digits max 0 (digits fuel n) ≡ some n
unfolding digits
parse_digits-digits max zero n h k = elim h [ ]
parse_digits-digits max (suc fuel) n h k = elim (Bool-cases (ltb n 10)) [
  | inl small ↦ rw (small, digits) (parse_digits-last max n 0 n k (omega arith) (ground arith))
  | inr large ↦
      let ih = parse_digits-digits max fuel (n / 10) (ground arith) (omega arith) in
      rw (large, digits, parse_digits-append, ih)
        (parse_digits-last max n (n / 10) (n % 10) k (omega arith) (omega arith))
]

strip_char_absent : (c : ℕ) (s : List ℕ) → any (λ x. eqb x c) s ≡ false → strip_char c s ≡ none
unfolding strip_char
strip_char_absent c [] h = refl
strip_char_absent c (x ∷ s) h = ground arith

parse_unsigned-parse_digits :
    (max n : ℕ) (s : List ℕ)
    → s ≢ []
    → parse_digits max 0 s ≡ some n
    → parse_unsigned max s ≡ some n
unfolding parse_unsigned
parse_unsigned-parse_digits max n [] apart h = absurd (apart refl)
parse_unsigned-parse_digits max n (c ∷ s) apart h = h

append-ne-nil : (s : List ℕ) (c : ℕ) → s ++ c ∷ [] ≢ []
append-ne-nil [] c = λ h. cc
append-ne-nil (x ∷ s) c = λ h. cc

to_string-ne-nil : (n : ℕ) → to_string n ≢ []
unfolding to_string
to_string-ne-nil n = elim (Bool-cases (ltb n 10)) [
  | inl small ↦ rw (small, digits) (λ h. cc)
  | inr large ↦ rw (large, digits) (append-ne-nil (digits n (n / 10)) (b'0' + n % 10))
]

-- A printed number that is in range is read back.
pub parse_uint-to_string : (max n : ℕ) → n ≤ max → parse_uint max (to_string n) ≡ some n
unfolding parse_uint
parse_uint-to_string max n h =
    let plain = strip_char_absent b'+' (to_string n) (contains-to_string b'+' refl n) in
    rw (plain, parse_uint)
      (parse_unsigned-parse_digits max n (to_string n) (to_string-ne-nil n)
        (unfold to_string in parse_digits-digits max (suc n) n (omega arith) h))
