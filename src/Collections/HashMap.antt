-- ===== src/Collections/HashMap.antt =====
-- `HashMap` and `DashMap` as association lists: one entry for a key after `insert`, iteration in
-- the order of the list. A `DashMap` operation is one atomic step.
pub mod Entries
use g_rpc_relay.Base.{
  ◌≡◌, refl, ◌≢◌, Bool, Option, none, some, List, [], ◌∷◌, arith, PartialEq, ◌==◌, ==_iff, ==_refl,
  ==_ne, if◌then◌else◌, is_some,
}

abbrev pub HashMap {ℓ κ} : Type ℓ → Type κ → Type (ℓ ⊔ κ)
HashMap K V = List (K × V)

module _ {ℓ κ} {K : Type ℓ} {V : Type κ} ⦃e : PartialEq K⦄ where
  unfoldable pub get : K → HashMap K V → Option V
  get key [] = none
  get key ((k, value) ∷ m) = if k == key then some value else get key m

  unfoldable pub insert : K → V → HashMap K V → HashMap K V
  insert key value [] = (key, value) ∷ []
  insert key value (entry ∷ m) =
      let (k, _) = entry in
      let rest = insert key value m in if k == key then (key, value) ∷ m else entry ∷ rest

  unfoldable pub remove : K → HashMap K V → HashMap K V
  remove k [] = []
  remove k ((j, w) ∷ m) = let rest = remove k m in if j == k then rest else (j, w) ∷ rest

  abbrev pub contains_key : K → HashMap K V → Bool
  contains_key k m = is_some (get k m)

  -- `get_mut` followed by an assignment to the value.
  unfoldable pub modify : K → (V → V) → HashMap K V → HashMap K V
  modify k f [] = []
  modify k f ((j, w) ∷ m) = if j == k then (j, f w) ∷ m else (j, w) ∷ modify k f m

  pub get-insert :
      (k j : K) (v : V) (m : HashMap K V)
      → get j (insert k v m) ≡ (if k == j then some v else get j m)
  unfolding get insert
  get-insert k j v [] = refl
  get-insert k j v ((i, w) ∷ m) =
      ground (arith, ==_iff k j, ==_iff i k, ==_iff i j, get-insert k j v m)

  pub get-remove :
      (k j : K) (m : HashMap K V) → get j (remove k m) ≡ (if k == j then none else get j m)
  unfolding get remove
  get-remove k j [] = ground arith
  get-remove k j ((i, w) ∷ m) = ground (arith, ==_iff k j, ==_iff i k, ==_iff i j, get-remove k j m)

  pub get-modify :
      (k j : K) (f : V → V) (m : HashMap K V)
      → get j (modify k f m)
        ≡ (if k == j then elim (get j m) [ none ↦ none | some v ↦ some (f v) ] else get j m)
  unfolding get modify
  get-modify k j f [] = ground arith
  get-modify k j f ((i, w) ∷ m) =
      ground (arith, ==_iff k j, ==_iff i k, ==_iff i j, get-modify k j f m)

  pub get-insert_self : (k : K) (v : V) (m : HashMap K V) → get k (insert k v m) ≡ some v
  get-insert_self k v m = simp (get-insert, ==_refl)

  pub get-remove_self : (k : K) (m : HashMap K V) → get k (remove k m) ≡ none
  get-remove_self k m = simp (get-remove, ==_refl)

  pub get-insert_ne : (k j : K) (v : V) (m : HashMap K V) → k ≢ j → get j (insert k v m) ≡ get j m
  get-insert_ne k j v m h = rw (get-insert, ==_ne k j h)

  pub get-remove_ne : (k j : K) (m : HashMap K V) → k ≢ j → get j (remove k m) ≡ get j m
  get-remove_ne k j m h = rw (get-remove, ==_ne k j h)

  pub get-modify_self :
      (k : K) (f : V → V) (v : V) (m : HashMap K V)
      → get k m ≡ some v
      → get k (modify k f m) ≡ some (f v)
  get-modify_self k f v m h = rw (get-modify, ==_refl, h)
