-- ===== src/Base/Equality.antt =====
-- Rust's `PartialEq`, as an instance argument: numbers, `i64`, lists and pairs.
use Prim.Native.Nat.{ℕ}
use mathlib.Core.Path.{◌≡◌, refl, ap}
use mathlib.Core.Logic.{◌↔◌, ◌≢◌}
use mathlib.Core.Bool.{Bool, true, false, ◌&&◌}
use mathlib.Core.List.{List, [], ◌∷◌}
use native.Mathlib.Omega.{arith}
use g_rpc_relay.Base.Tests.{eqb, eqb→eq}
use g_rpc_relay.Base.Int.{ℤ, pos, negsuc}

-- The trait: a test, and that it decides equality.
pub record PartialEq {κ} (T : Type κ) : Type κ where
  pub eq : T → T → Bool
  pub reflects : (x y : T) → (x ≡ y) ↔ (eq x y ≡ true)

infix 50 ◌==◌
abbrev pub ◌==◌ {κ} : {T : Type κ} ⦃trait : PartialEq T⦄ (x y : T) → Bool
◌==◌ ⦃trait⦄ x y = trait.eq x y

pub ==_iff {κ} : {T : Type κ} ⦃trait : PartialEq T⦄ (x y : T) → ((x == y) ≡ true) ↔ (x ≡ y)
==_iff ⦃trait⦄ x y = ((trait.reflects x y).1, (trait.reflects x y).0)

pub ==_refl {κ} : {T : Type κ} ⦃trait : PartialEq T⦄ (x : T) → (x == x) ≡ true
==_refl ⦃trait⦄ x = (trait.reflects x x).0 refl

pub ==_ne {κ} : {T : Type κ} ⦃trait : PartialEq T⦄ (x y : T) → x ≢ y → (x == y) ≡ false
==_ne ⦃trait⦄ x y apart = ground (arith, trait.reflects x y)

pub eqb_iff : (a b : ℕ) → (a ≡ b) ↔ (eqb a b ≡ true)
eqb_iff a b = (λ p. ground arith, eqb→eq a b)

instance abbrev pub ℕ_eq : PartialEq ℕ
ℕ_eq = record { eq = eqb; reflects = eqb_iff }

unfoldable pub int_beq : ℤ → ℤ → Bool
int_beq (pos a) (pos b) = eqb a b
int_beq (negsuc a) (negsuc b) = eqb a b
int_beq (pos a) (negsuc b) = false
int_beq (negsuc a) (pos b) = false

pub int_beq_iff : (a b : ℤ) → (a ≡ b) ↔ (int_beq a b ≡ true)
unfolding int_beq
int_beq_iff (pos a) (pos b) = (λ p. ground arith, λ h. ap pos (eqb→eq a b h))
int_beq_iff (negsuc a) (negsuc b) = (λ p. ground arith, λ h. ap negsuc (eqb→eq a b h))
int_beq_iff (pos a) (negsuc b) = (λ p. cc, λ h. cc)
int_beq_iff (negsuc a) (pos b) = (λ p. cc, λ h. cc)

instance abbrev pub ℤ_eq : PartialEq ℤ
ℤ_eq = record { eq = int_beq; reflects = int_beq_iff }

module _ {κ} {T : Type κ} ⦃trait : PartialEq T⦄ where
  unfoldable pub list_beq : List T → List T → Bool
  list_beq [] [] = true
  list_beq (x ∷ xs) (y ∷ ys) = trait.eq x y && list_beq xs ys
  list_beq [] (y ∷ ys) = false
  list_beq (x ∷ xs) [] = false

  pub list_beq_iff : (xs ys : List T) → (xs ≡ ys) ↔ (list_beq xs ys ≡ true)
  unfolding list_beq
  list_beq_iff [] [] = (λ _. refl, λ _. refl)
  list_beq_iff (x ∷ xs) (y ∷ ys) = (
    λ p. ground (arith, trait.reflects x y, list_beq_iff xs ys),
    λ h. ground (arith, trait.reflects x y, list_beq_iff xs ys),
  )
  list_beq_iff [] (y ∷ ys) = (λ p. cc, λ h. cc)
  list_beq_iff (x ∷ xs) [] = (λ p. cc, λ h. cc)

  instance abbrev pub list_eq : PartialEq (List T)
  list_eq = record { eq = list_beq; reflects = list_beq_iff }

module _ {κ μ} {S : Type κ} {T : Type μ} ⦃first : PartialEq S⦄ ⦃last : PartialEq T⦄ where
  unfoldable pub pair_beq : S × T → S × T → Bool
  pair_beq (a, b) (c, d) = first.eq a c && last.eq b d

  pub pair_beq_iff : (p q : S × T) → (p ≡ q) ↔ (pair_beq p q ≡ true)
  unfolding pair_beq
  pair_beq_iff (a, b) (c, d) = (
    λ h. ground (arith, first.reflects a c, last.reflects b d),
    λ h. ground (arith, first.reflects a c, last.reflects b d),
  )

  instance abbrev pub pair_eq : PartialEq (S × T)
  pair_eq = record { eq = pair_beq; reflects = pair_beq_iff }
