-- ===== src/Prelude/Members.antt =====
-- Membership and lists without repetition, over an equality test.
use mathlib.Core.Path.{◌≡◌, refl, sym, subst}
use mathlib.Core.Logic.{◌↔◌, ◌⊎◌, inl, inr}
use mathlib.Core.Bool.{true}
use mathlib.Core.List.{List, [], ◌∷◌, ◌++◌}
use native.Mathlib.Omega.{arith}
use multi_proxy.Prelude.Equality.{PartialEq, contains}
use multi_proxy.Prelude.Predicates.{All, All-map, Any}

module _ {A : Type 0} where
  abbrev pub Member : A → List A → Type 0
  Member a = Any λ x. x ≡ a

  abbrev pub NoDup : List A → Type 0
  NoDup [] = Unit
  NoDup (x ∷ xs) = ¬ Member x xs × NoDup xs

  pub Member-append_left : (a : A) (xs ys : List A) → Member a xs → Member a (xs ++ ys)
  Member-append_left a [] ys m = elim m [ ]
  Member-append_left a (x ∷ xs) ys (inl e) = inl e
  Member-append_left a (x ∷ xs) ys (inr m) = inr (Member-append_left a xs ys m)

  pub Member-append_right : (a : A) (xs ys : List A) → Member a ys → Member a (xs ++ ys)
  Member-append_right a [] ys m = m
  Member-append_right a (x ∷ xs) ys m = inr (Member-append_right a xs ys m)

  pub Member-append : (a : A) (xs ys : List A) → Member a (xs ++ ys) → Member a xs ⊎ Member a ys
  Member-append a [] ys m = inr m
  Member-append a (x ∷ xs) ys (inl e) = inl (inl e)
  Member-append a (x ∷ xs) ys (inr m) = elim (Member-append a xs ys m) [
    | inl l ↦ inl (inr l)
    | inr r ↦ inr r
  ]

  pub NoDup-snoc : (xs : List A) (a : A) → NoDup xs → ¬ Member a xs → NoDup (xs ++ (a ∷ []))
  NoDup-snoc [] a d n = ((λ m. m), tt)
  NoDup-snoc (x ∷ xs) a d n = (fresh, NoDup-snoc xs a d.1 (λ m. n (inr m)))
    where
      fresh : ¬ Member x (xs ++ (a ∷ []))
      fresh m = elim (Member-append x xs (a ∷ []) m) [
        | inl l ↦ d.0 l
        | inr r ↦ elim r [ inl e ↦ n (inl (sym e)) | inr z ↦ z ]
      ]

  pub All-Member : (P : A → Type 0) (a : A) (xs : List A) → All P xs → Member a xs → P a
  All-Member P a [] ps m = elim m [ ]
  All-Member P a (x ∷ xs) ps (inl e) = subst P e ps.0
  All-Member P a (x ∷ xs) ps (inr m) = All-Member P a xs ps.1 m

  pub all_members : (xs : List A) → All (λ x. Member x xs) xs
  all_members [] = tt
  all_members (x ∷ xs) = (inl refl, All-map (λ y m. inr m) xs (all_members xs))

  module _ ⦃e : PartialEq A⦄ where
    pub contains_iff : (xs : List A) (a : A) → (contains xs a ≡ true) ↔ Member a xs
    unfolding contains
    contains_iff [] a = ((λ h. cc), λ m. elim m [ ])
    contains_iff (x ∷ xs) a = ground (arith, e.eq_iff x a, contains_iff xs a)
