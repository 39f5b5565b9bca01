-- ===== src/Prelude/Results.antt =====
-- `Result`, and actions on a state of the world that return one: what was done before an error stays done.
use mathlib.Core.Bool.{Bool, true, false}

pub data Result (E A : Type 0) : Type 0 where
  ok : A → Result E A
  err : E → Result E A

abbrev pub Action : Type 0 → Type 0 → Type 0 → Type 0
Action W E A = W → Result E A × W

module _ {W E : Type 0} where
  abbrev pub and_then : {A B : Type 0} → Result E A × W → (A → Action W E B) → Result E B × W
  and_then (ok a, w) f = f a w
  and_then (err e, w) f = (err e, w)

  abbrev pub pure : {A : Type 0} → A → Action W E A
  pure a w = (ok a, w)

  abbrev pub fail : {A : Type 0} → E → Action W E A
  fail e w = (err e, w)

infixl 5 ◌>>=◌ ◌>>◌
abbrev pub ◌>>=◌ : {W E A B : Type 0} → Action W E A → (A → Action W E B) → Action W E B
◌>>=◌ m f w = and_then (m w) f

abbrev pub ◌>>◌ : {W E A B : Type 0} → Action W E A → Action W E B → Action W E B
m >> k = m >>= λ _. k

abbrev pub is_ok : {E A : Type 0} → Result E A → Bool
is_ok (ok a) = true
is_ok (err e) = false
