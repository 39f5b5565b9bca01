-- ===== src/Prelude/Sort.antt =====
-- `slice::sort_by`: a stable sort, as insertion, with its order and its permutation.
use mathlib.Core.Path.{◌≡◌}
use mathlib.Core.Logic.{inl, inr}
use mathlib.Core.Bool.{Bool, true, false}
use mathlib.Core.List.{List, [], ◌∷◌, Perm}
use mathlib.Core.List.Perm
use multi_proxy.Prelude.Tests.{if◌then◌else◌, Bool-cases}
use multi_proxy.Prelude.Predicates.{All, All-map}

module _ {ℓ} {A : Type ℓ} (leq : A → A → Bool) where
  -- `x` stood before the items of the sorted list, so it goes before its equals.
  unfoldable pub insert_sorted : A → List A → List A
  insert_sorted x [] = x ∷ []
  insert_sorted x (y ∷ ys) = if leq x y then x ∷ y ∷ ys else y ∷ insert_sorted x ys

  unfoldable pub sort_by : List A → List A
  unfolding insert_sorted
  sort_by [] = []
  sort_by (x ∷ xs) = insert_sorted x (sort_by xs)

  abbrev pub IsSortedBy : List A → Type 0
  IsSortedBy [] = Unit
  IsSortedBy (x ∷ xs) = All (λ y. leq x y ≡ true) xs × IsSortedBy xs

  insert_sorted-perm : (x : A) (ys : List A) → Perm (insert_sorted x ys) (x ∷ ys)
  unfolding insert_sorted
  insert_sorted-perm x [] = Perm.refl (x ∷ [])
  insert_sorted-perm x (y ∷ ys) = elim (Bool-cases (leq x y)) [
    | inl e ↦ rw e (Perm.refl (x ∷ y ∷ ys))
    | inr e ↦ rw e (Perm.trans (Perm.cons y (insert_sorted-perm x ys)) (Perm.swap x y ys))
  ]

  pub sort_by-perm : (xs : List A) → Perm (sort_by xs) xs
  unfolding sort_by
  sort_by-perm [] = Perm.refl []
  sort_by-perm (x ∷ xs) =
      Perm.trans (insert_sorted-perm x (sort_by xs)) (Perm.cons x (sort_by-perm xs))

module _ {ℓ κ} {A : Type ℓ} (leq : A → A → Bool) (P : A → Type κ) where
  insert_sorted-All : (x : A) (ys : List A) → P x → All P ys → All P (insert_sorted leq x ys)
  unfolding insert_sorted
  insert_sorted-All x [] p ps = (p, tt)
  insert_sorted-All x (y ∷ ys) p ps = elim (Bool-cases (leq x y)) [
    | inl e ↦ rw e (p, ps)
    | inr e ↦ rw e (ps.0, insert_sorted-All x ys p ps.1)
  ]

  -- What holds of all items holds of all items of the sorted list.
  pub sort_by-All : (xs : List A) → All P xs → All P (sort_by leq xs)
  unfolding sort_by
  sort_by-All [] ps = tt
  sort_by-All (x ∷ xs) ps = insert_sorted-All x (sort_by leq xs) ps.0 (sort_by-All xs ps.1)

module _ {ℓ} {A : Type ℓ} (leq : A → A → Bool)
    (total : (x y : A) → leq x y ≡ false → leq y x ≡ true)
    (trans : (x y z : A) → leq x y ≡ true → leq y z ≡ true → leq x z ≡ true) where
  insert_sorted-IsSortedBy :
      (x : A) (ys : List A) → IsSortedBy leq ys → IsSortedBy leq (insert_sorted leq x ys)
  unfolding insert_sorted
  insert_sorted-IsSortedBy x [] s = (tt, tt)
  insert_sorted-IsSortedBy x (y ∷ ys) s = elim (Bool-cases (leq x y)) [
    | inl e ↦ rw e ((e, All-map (λ z h. trans x y z e h) ys s.0), s)
    | inr e ↦ rw e (
      insert_sorted-All leq (λ z. leq y z ≡ true) x ys (total x y e) s.0,
      insert_sorted-IsSortedBy x ys s.1,
    )
  ]

  pub sort_by-IsSortedBy : (xs : List A) → IsSortedBy leq (sort_by leq xs)
  unfolding sort_by
  sort_by-IsSortedBy [] = tt
  sort_by-IsSortedBy (x ∷ xs) = insert_sorted-IsSortedBy x (sort_by leq xs) (sort_by-IsSortedBy xs)

module _ {ℓ κ} {A : Type ℓ} (leq : A → A → Bool) (P : A → Type κ) where
  All-insert_sorted : (x : A) (ys : List A) → All P (insert_sorted leq x ys) → P x × All P ys
  unfolding insert_sorted
  All-insert_sorted x [] ps = ps
  All-insert_sorted x (y ∷ ys) ps = elim (Bool-cases (leq x y)) [
    | inl e ↦ rw e at ps
    | inr e ↦
        let qs = rw e at ps in let (px, rest) = All-insert_sorted x ys qs.1 in (px, (qs.0, rest))
  ]

  -- What holds of all items of the sorted list holds of all items.
  pub All-sort_by : (xs : List A) → All P (sort_by leq xs) → All P xs
  unfolding sort_by
  All-sort_by [] ps = tt
  All-sort_by (x ∷ xs) ps =
      let (px, rest) = All-insert_sorted x (sort_by leq xs) ps in (px, All-sort_by xs rest)
