-- ===== src/Prelude/Predicates.antt =====
-- Predicates over lists, by recursion: they compute to tuples, which the tactics read and build.
use mathlib.Core.Path.{◌≡◌, sym, subst}
use native.Mathlib.Omega.{arith}
use mathlib.Core.Logic.{◌⊎◌, inl, inr}
use mathlib.Core.Bool.{Bool, true, false}
use mathlib.Core.List.{List, [], ◌∷◌, ◌++◌}
use mathlib.Core.Option.{Option, none, some}
use multi_proxy.Prelude.Tests.{if◌then◌else◌, Bool-cases, Option-cases}

module _ {ℓ} {A : Type ℓ} where
  abbrev pub All {κ} : (A → Type κ) → List A → Type κ
  All P [] = Unit
  All P (x ∷ xs) = P x × All P xs

  abbrev pub Any : (A → Type 0) → List A → Type 0
  Any P [] = ⊥
  Any P (x ∷ xs) = P x ⊎ Any P xs

module _ {ℓ κ μ} {A : Type ℓ} {P : A → Type κ} {Q : A → Type μ} where
  pub All-map : ((x : A) → P x → Q x) → (xs : List A) → All P xs → All Q xs
  All-map f [] ps = tt
  All-map f (x ∷ xs) ps = (f x ps.0, All-map f xs ps.1)

module _ {ℓ κ μ} {A : Type ℓ} (P : A → Type κ) (Q : A → Type μ) where
  pub All-both : (xs : List A) → All P xs → All Q xs → All (λ x. P x × Q x) xs
  All-both [] ps qs = tt
  All-both (x ∷ xs) ps qs = ((ps.0, qs.0), All-both xs ps.1 qs.1)

module _ {ℓ κ} {A : Type ℓ} (P : A → Type κ) where
  pub All-append : (xs ys : List A) → All P xs → All P ys → All P (xs ++ ys)
  All-append [] ys p q = q
  All-append (x ∷ xs) ys p q = (p.0, All-append xs ys p.1 q)

-- The Boolean filter, `Iterator::filter`.
module _ {ℓ} {A : Type ℓ} where
  unfoldable pub filter : (A → Bool) → List A → List A
  filter p [] = []
  filter p (x ∷ xs) = if p x then x ∷ filter p xs else filter p xs

  -- `Iterator::any` and `Iterator::all`.
  unfoldable pub any : (A → Bool) → List A → Bool
  any p [] = false
  any p (x ∷ xs) = if p x then true else any p xs

  unfoldable pub all : (A → Bool) → List A → Bool
  all p [] = true
  all p (x ∷ xs) = if p x then all p xs else false

  -- `Iterator::find`.
  unfoldable pub find : (A → Bool) → List A → Option A
  find p [] = none
  find p (x ∷ xs) = if p x then some x else find p xs

  pub filter-All : (p : A → Bool) (xs : List A) → All (λ x. p x ≡ true) (filter p xs)
  unfolding filter
  filter-All p [] = tt
  filter-All p (x ∷ xs) = elim (Bool-cases (p x)) [
    | inl e ↦ rw e (e, filter-All p xs)
    | inr e ↦ rw e (filter-All p xs)
  ]

module _ {ℓ} {A : Type ℓ} (p : A → Bool) (P : A → Type 0) where
  -- What holds of the kept items holds of all items that pass.
  pub filter-All_rev : (xs : List A) → All P (filter p xs) → All (λ x. p x ≡ true → P x) xs
  unfolding filter
  filter-All_rev [] a = tt
  filter-All_rev (x ∷ xs) a = elim (Bool-cases (p x)) [
    | inl e ↦ let b = rw e at a in ((λ _. b.0), filter-All_rev xs b.1)
    | inr e ↦ ((λ t. cc), filter-All_rev xs (rw e at a))
  ]

  pub filter-All_keep : (xs : List A) → All P xs → All P (filter p xs)
  unfolding filter
  filter-All_keep [] a = tt
  filter-All_keep (x ∷ xs) a = elim (Bool-cases (p x)) [
    | inl e ↦ rw e (a.0, filter-All_keep xs a.1)
    | inr e ↦ rw e (filter-All_keep xs a.1)
  ]

module _ {ℓ} {A : Type ℓ} (p q : A → Bool) {P : A → Type 0} where
  -- What both tests imply holds of all items kept by one filter after the other.
  pub filter-All_both :
      ((x : A) → p x ≡ true → q x ≡ true → P x) → (xs : List A) → All P (filter q (filter p xs))
  filter-All_both f xs =
      All-map (λ x h. f x h.0 h.1) (filter q (filter p xs))
        (All-both (λ x. p x ≡ true) (λ x. q x ≡ true) (filter q (filter p xs))
          (filter-All_keep q (λ x. p x ≡ true) (filter p xs) (filter-All p xs))
          (filter-All q (filter p xs)))

module _ {ℓ κ} {A : Type ℓ} {B : Type κ} where
  -- `Iterator::filter_map`.
  unfoldable pub filter_map : (A → Option B) → List A → List B
  filter_map f [] = []
  filter_map f (x ∷ xs) = elim (f x) [ none ↦ filter_map f xs | some y ↦ y ∷ filter_map f xs ]

module _ {A B : Type 0} (f : A → Option B) where
  pub filter_map-none : (x : A) (xs : List A) → f x ≡ none → filter_map f (x ∷ xs) ≡ filter_map f xs
  unfolding filter_map
  filter_map-none x xs e = ground arith

  pub filter_map-some :
      (x : A) (xs : List A) (y : B) → f x ≡ some y → filter_map f (x ∷ xs) ≡ y ∷ filter_map f xs
  unfolding filter_map
  filter_map-some x xs y e = ground arith

module _ {A B : Type 0} (f : A → Option B) (Q : B → Type 0) where
  -- An item of a `filter_map` comes from an item that is mapped to it.
  abbrev pub FromSome : A → Type 0
  FromSome x = (y : B) × (f x ≡ some y) × Q y

  pub Any-filter_map : (xs : List A) → Any Q (filter_map f xs) → Any FromSome xs
  Any-filter_map [] m = unfold filter_map in m
  Any-filter_map (x ∷ xs) m = elim (Option-cases (f x)) [
    | inl e ↦ inr (Any-filter_map xs (subst (Any Q) (filter_map-none f x xs e) m))
    | inr (y, e) ↦ elim (subst (Any Q) (filter_map-some f x xs y e) m) [
      | inl q ↦ inl (y, e, q)
      | inr r ↦ inr (Any-filter_map xs r)
    ]
  ]

  pub filter_map-Any : (xs : List A) → Any FromSome xs → Any Q (filter_map f xs)
  filter_map-Any [] m = unfold filter_map in m
  filter_map-Any (x ∷ xs) (inl (y, e, q)) = subst (Any Q) (sym (filter_map-some f x xs y e)) (inl q)
  filter_map-Any (x ∷ xs) (inr m) = elim (Option-cases (f x)) [
    | inl e ↦ subst (Any Q) (sym (filter_map-none f x xs e)) (filter_map-Any xs m)
    | inr (y, e) ↦ subst (Any Q) (sym (filter_map-some f x xs y e)) (inr (filter_map-Any xs m))
  ]

module _ {A : Type 0} (P Q : A → Type 0) where
  pub Any-map : ((x : A) → P x → Q x) → (xs : List A) → Any P xs → Any Q xs
  Any-map f [] m = m
  Any-map f (x ∷ xs) (inl p) = inl (f x p)
  Any-map f (x ∷ xs) (inr m) = inr (Any-map f xs m)

  pub All-Any : (xs : List A) → All P xs → Any Q xs → Any (λ x. P x × Q x) xs
  All-Any [] a m = m
  All-Any (x ∷ xs) a (inl q) = inl (a.0, q)
  All-Any (x ∷ xs) a (inr m) = inr (All-Any xs a.1 m)
