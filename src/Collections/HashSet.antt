-- ===== src/Collections/HashSet.antt =====
-- `HashSet` as a list without repetitions.
use g_rpc_relay.Base.{
  ◌+◌, ◌≤◌, ◌≡◌, refl, Bool, true, false, ◌||◌, List, [], ◌∷◌, arith, PartialEq, ◌==◌, ==_iff,
  if◌then◌else◌, length, is_empty,
}

abbrev pub HashSet {κ} : Type κ → Type κ
HashSet T = List T

module _ {κ} {T : Type κ} ⦃trait : PartialEq T⦄ where
  unfoldable pub contains : T → HashSet T → Bool
  contains a [] = false
  contains a (x ∷ xs) = x == a || contains a xs

  unfoldable pub insert : T → HashSet T → HashSet T
  insert a xs = if contains a xs then xs else a ∷ xs

  unfoldable pub remove : T → HashSet T → HashSet T
  remove a [] = []
  remove a (x ∷ xs) = let rest = remove a xs in if x == a then rest else x ∷ rest

  pub contains-insert :
      (a b : T) (xs : HashSet T) → contains b (insert a xs) ≡ (a == b || contains b xs)
  unfolding insert contains
  contains-insert a b xs = ground (arith, ==_iff a b)

  pub contains-remove :
      (a b : T) (xs : HashSet T)
      → contains b (remove a xs) ≡ (if a == b then false else contains b xs)
  unfolding remove contains
  contains-remove a b [] = ground arith
  contains-remove a b (x ∷ xs) =
      ground (arith, ==_iff a b, ==_iff x a, ==_iff x b, contains-remove a b xs)

  pub length-insert : (a : T) (xs : HashSet T) → length (insert a xs) ≤ 1 + length xs
  unfolding insert
  length-insert a xs = ground arith

  pub length-remove : (a : T) (xs : HashSet T) → length (remove a xs) ≤ length xs
  unfolding remove
  length-remove a [] = ground arith
  length-remove a (x ∷ xs) = ground (arith, length-remove a xs)

  -- Adding a new element and taking it out again gives the set back.
  pub remove-insert : (a : T) (xs : HashSet T) → contains a xs ≡ false → remove a (insert a xs) ≡ xs
  unfolding insert remove contains
  remove-insert a xs h = ground (arith, ==_iff a a, remove_absent a xs h)
    where
      remove_absent : (a : T) (xs : HashSet T) → contains a xs ≡ false → remove a xs ≡ xs
      remove_absent a [] h = refl
      remove_absent a (x ∷ xs) h = ground (arith, remove_absent a xs)

  pub contains-is_empty : (a : T) (xs : HashSet T) → is_empty xs ≡ true → contains a xs ≡ false
  unfolding contains
  contains-is_empty a [] h = refl
  contains-is_empty a (x ∷ xs) h = cc

  pub length-insert_new :
      (a : T) (xs : HashSet T) → contains a xs ≡ false → length (insert a xs) ≡ length xs + 1
  unfolding insert
  length-insert_new a xs h = rw h (omega arith)
