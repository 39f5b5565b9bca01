-- ===== src/Prelude/Maps.antt =====
-- `HashMap` with text keys, as its entries with distinct keys, and the laws of its operations.
use mathlib.Core.Path.{◌≡◌, refl, ◌∙◌}
use mathlib.Core.Logic.{◌≢◌}
use mathlib.Core.List.{List, [], ◌∷◌}
use mathlib.Core.Option.{Option, none, some}
use native.Mathlib.Omega.{arith}
use multi_proxy.Prelude.Tests.{if◌then◌else◌}
use multi_proxy.Prelude.Equality.{◌==◌, nat_eq, list_eq, list_beq_iff}
use multi_proxy.Prelude.Strings.{Text}
use multi_proxy.Prelude.Predicates.{All}

module _ {ℓ} {V : Type ℓ} where
  unfoldable pub get : Text → List (Text × V) → Option V
  get k [] = none
  get k ((j, v) ∷ m) = if j == k then some v else get k m

  unfoldable pub erase : Text → List (Text × V) → List (Text × V)
  erase k [] = []
  erase k ((j, v) ∷ m) = if j == k then erase k m else (j, v) ∷ erase k m

  unfoldable pub insert : Text → V → List (Text × V) → List (Text × V)
  insert k v m = (k, v) ∷ erase k m

  pub get-erase :
      (k j : Text) (m : List (Text × V)) → get j (erase k m) ≡ (if k == j then none else get j m)
  unfolding get erase
  get-erase k j [] = ground arith
  get-erase k j ((i, w) ∷ m) =
      ground (arith, list_beq_iff k j, list_beq_iff i k, list_beq_iff i j, get-erase k j m)

  pub get-insert :
      (k j : Text) (v : V) (m : List (Text × V))
      → get j (insert k v m) ≡ (if k == j then some v else get j m)
  unfolding get insert
  get-insert k j v m = ground (arith, list_beq_iff k j, get-erase k j m)

  -- `Iterator::collect` into a map: a later entry replaces an earlier one with its key.
  unfoldable pub insert_all : List (Text × V) → List (Text × V) → List (Text × V)
  insert_all [] m = m
  insert_all ((k, v) ∷ es) m = insert_all es (insert k v m)

  unfoldable pub collect : List (Text × V) → List (Text × V)
  unfolding insert_all
  collect es = insert_all es []

module _ {ℓ} {A : Type ℓ} where
  -- No two items have the same key.
  abbrev pub Distinct : (A → Text) → List A → Type 0
  Distinct key [] = Unit
  Distinct key (x ∷ xs) = All (λ y. key y ≢ key x) xs × Distinct key xs

-- Each entry is what its key finds.
module _ {ℓ} {V : Type ℓ} where
  abbrev pub Finds : List (Text × V) → List (Text × V) → Type ℓ
  Finds m [] = Unit
  Finds m ((k, v) ∷ es) = (get k m ≡ some v) × Finds m es

  pub get-insert_ne :
      (k j : Text) (v : V) (m : List (Text × V)) → j ≢ k → get k (insert j v m) ≡ get k m
  get-insert_ne k j v m h = ground (arith, get-insert j k v m, list_beq_iff j k)

  pub get-insert_self : (k : Text) (v : V) (m : List (Text × V)) → get k (insert k v m) ≡ some v
  get-insert_self k v m = ground (arith, get-insert k k v m, list_beq_iff k k)

  pub get-erase_ne : (k j : Text) (m : List (Text × V)) → k ≢ j → get k (erase j m) ≡ get k m
  get-erase_ne k j m h = ground (arith, get-erase j k m, list_beq_iff j k)

  get-insert_all_ne :
      (k : Text) (es m : List (Text × V))
      → All (λ (p : Text × V). p.0 ≢ k) es
      → get k (insert_all es m) ≡ get k m
  unfolding insert_all
  get-insert_all_ne k [] m h = refl
  get-insert_all_ne k ((j, v) ∷ es) m h =
      get-insert_all_ne k es (insert j v m) h.1 ∙ get-insert_ne k j v m h.0

  insert_all-Finds :
      (es m : List (Text × V)) → Distinct (λ (p : Text × V). p.0) es → Finds (insert_all es m) es
  unfolding insert_all
  insert_all-Finds [] m d = tt
  insert_all-Finds ((k, v) ∷ es) m d = (
    get-insert_all_ne k es (insert k v m) d.0 ∙ get-insert_self k v m,
    insert_all-Finds es (insert k v m) d.1,
  )

  -- Collected from entries with distinct keys, a map holds each of them.
  pub collect-Finds :
      (es : List (Text × V)) → Distinct (λ (p : Text × V). p.0) es → Finds (collect es) es
  unfolding collect
  collect-Finds es d = insert_all-Finds es [] d
