-- ===== src/Prelude/Equality.antt =====
-- Equality tests as an interface, with the instances for numbers, pairs, lists and options.
use Prim.Native.Nat.{ℕ}
use mathlib.Core.Path.{◌≡◌, refl}
use mathlib.Core.Logic.{◌↔◌}
use mathlib.Core.Bool.{Bool, true, false, ◌&&◌, ◌||◌}
use mathlib.Core.List.{List, [], ◌∷◌}
use mathlib.Core.Option.{Option, none, some}
use native.Mathlib.Omega.{arith}
use multi_proxy.Prelude.Tests.{nat_beq, nat_beq_iff}

-- `std::cmp::PartialEq`, with the law that a derived implementation has.
pub record PartialEq {κ} (T : Type κ) : Type κ where
  pub eq : T → T → Bool
  pub eq_iff : (x y : T) → (eq x y ≡ true) ↔ (x ≡ y)

module _ {ℓ} {A : Type ℓ} ⦃e : PartialEq A⦄ where
  unfoldable pub list_beq : List A → List A → Bool
  list_beq [] [] = true
  list_beq [] (y ∷ ys) = false
  list_beq (x ∷ xs) [] = false
  list_beq (x ∷ xs) (y ∷ ys) = e.eq x y && list_beq xs ys

  pub list_beq_iff : (xs ys : List A) → (list_beq xs ys ≡ true) ↔ (xs ≡ ys)
  unfolding list_beq
  list_beq_iff [] [] = ((λ _. refl), λ _. refl)
  list_beq_iff [] (y ∷ ys) = ((λ h. cc), λ h. cc)
  list_beq_iff (x ∷ xs) [] = ((λ h. cc), λ h. cc)
  list_beq_iff (x ∷ xs) (y ∷ ys) = ground (arith, e.eq_iff x y, list_beq_iff xs ys)

  abbrev pub option_beq : Option A → Option A → Bool
  option_beq none none = true
  option_beq none (some y) = false
  option_beq (some x) none = false
  option_beq (some x) (some y) = e.eq x y

  pub option_beq_iff : (x y : Option A) → (option_beq x y ≡ true) ↔ (x ≡ y)
  option_beq_iff none none = ((λ _. refl), λ _. refl)
  option_beq_iff none (some y) = ((λ h. cc), λ h. cc)
  option_beq_iff (some x) none = ((λ h. cc), λ h. cc)
  option_beq_iff (some x) (some y) = ground (arith, e.eq_iff x y)

  -- `Vec::contains`.
  unfoldable pub contains : List A → A → Bool
  contains [] a = false
  contains (x ∷ xs) a = e.eq x a || contains xs a

instance abbrev pub list_eq {ℓ} : {A : Type ℓ} ⦃e : PartialEq A⦄ → PartialEq (List A)
list_eq = record { eq_iff = list_beq_iff; eq = list_beq }

instance abbrev pub option_eq {ℓ} : {A : Type ℓ} ⦃e : PartialEq A⦄ → PartialEq (Option A)
option_eq = record { eq_iff = option_beq_iff; eq = option_beq }

module _ {A B : Type 0} ⦃e : PartialEq A⦄ ⦃f : PartialEq B⦄ where
  abbrev pub pair_beq : A × B → A × B → Bool
  pair_beq (a, b) (c, d) = e.eq a c && f.eq b d

  pub pair_beq_iff : (x y : A × B) → (pair_beq x y ≡ true) ↔ (x ≡ y)
  pair_beq_iff (a, b) (c, d) = ground (arith, e.eq_iff a c, f.eq_iff b d)

instance abbrev pub pair_eq : {A B : Type 0} ⦃e : PartialEq A⦄ ⦃f : PartialEq B⦄ → PartialEq (A × B)
pair_eq = record { eq_iff = pair_beq_iff; eq = pair_beq }

instance abbrev pub nat_eq : PartialEq ℕ
nat_eq = record { eq_iff = nat_beq_iff; eq = nat_beq }

-- The operator of every type with an instance.
infix 50 ◌==◌
abbrev pub ◌==◌ {κ} : {T : Type κ} ⦃p : PartialEq T⦄ → T → T → Bool
◌==◌ ⦃p⦄ = p.eq
