-- ===== src/Collections/HashMap/Entries.antt =====
-- The entries of a map as a whole: keys that occur once, and sums over the values.
use g_rpc_relay.Base.{ℕ, ◌+◌, ◌≡◌, refl, false, none, some, [], ◌∷◌, arith, PartialEq, ==_iff}
use g_rpc_relay.Collections.HashMap.{
  HashMap, get, insert, remove, modify, contains_key, get-insert, get-remove, get-modify,
}

module _ {ℓ κ} {K : Type ℓ} {V : Type κ} ⦃e : PartialEq K⦄ where
  -- No key occurs twice.
  abbrev pub Distinct : HashMap K V → Type 0
  Distinct [] = Unit {0}
  Distinct ((k, v) ∷ m) = (contains_key k m ≡ false) × Distinct m

  pub insert-Distinct : (k : K) (v : V) (m : HashMap K V) → Distinct m → Distinct (insert k v m)
  unfolding insert get
  insert-Distinct k v [] d = (refl, tt)
  insert-Distinct k v ((j, w) ∷ m) d =
      ground (arith, ==_iff j k, ==_iff k j, insert-Distinct k v m d.1, get-insert k j v m)

  pub remove-Distinct : (k : K) (m : HashMap K V) → Distinct m → Distinct (remove k m)
  unfolding remove get
  remove-Distinct k [] d = tt
  remove-Distinct k ((j, w) ∷ m) d =
      ground (arith, ==_iff j k, ==_iff k j, remove-Distinct k m d.1, get-remove k j m)

  pub modify-Distinct : (k : K) (f : V → V) (m : HashMap K V) → Distinct m → Distinct (modify k f m)
  unfolding modify get
  modify-Distinct k f [] d = tt
  modify-Distinct k f ((j, w) ∷ m) d = ground (arith, modify-Distinct k f m d.1, get-modify k j f m)

  pub remove_absent : (k : K) (m : HashMap K V) → get k m ≡ none → remove k m ≡ m
  unfolding remove get
  remove_absent k [] h = refl
  remove_absent k ((j, w) ∷ m) h = ground (arith, remove_absent k m)

  -- The sum of a measure of the values.
  unfoldable pub total : (V → ℕ) → HashMap K V → ℕ
  total f [] = 0
  total f ((k, v) ∷ m) = f v + total f m

  pub total-insert_new :
      (f : V → ℕ) (k : K) (v : V) (m : HashMap K V)
      → get k m ≡ none
      → total f (insert k v m) ≡ total f m + f v
  unfolding total insert get
  total-insert_new f k v [] h = omega arith
  total-insert_new f k v ((j, w) ∷ m) h = ground (arith, total-insert_new f k v m)

  pub total-insert_old :
      (f : V → ℕ) (k : K) (v w : V) (m : HashMap K V)
      → get k m ≡ some w
      → total f (insert k v m) + f w ≡ total f m + f v
  unfolding total insert get
  total-insert_old f k v w [] h = cc
  total-insert_old f k v w ((j, u) ∷ m) h = ground (arith, total-insert_old f k v w m)

  pub total-remove :
      (f : V → ℕ) (k : K) (w : V) (m : HashMap K V)
      → Distinct m
      → get k m ≡ some w
      → total f (remove k m) + f w ≡ total f m
  unfolding total remove get
  total-remove f k w [] d h = cc
  total-remove f k w ((j, u) ∷ m) d h =
      ground (arith, total-remove f k w m d.1, ==_iff j k, remove_absent k m)
