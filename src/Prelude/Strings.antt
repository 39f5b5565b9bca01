-- ===== src/Prelude/Strings.antt =====
-- Text as the list of its code points, with the operations of `str` that the program calls.
use Prim.Native.Nat.{ℕ, zero, suc, ◌+◌, ◌/◌, ◌%◌}
use Prim.Native.Char.{code}
use Prim.Native.String.{String}
use mathlib.Core.Path.{◌≡◌, refl, ap}
use mathlib.Core.Logic.{◌↔◌, inl, inr}
use mathlib.Core.Bool.{Bool, true, false, ◌&&◌, ◌||◌}
use mathlib.Core.List.{List, [], ◌∷◌, ◌++◌, map}
use native.Mathlib.Omega.{arith}
use multi_proxy.Prelude.Tests.{ltb, leb, nat_beq, if◌then◌else◌, Bool-cases}
use multi_proxy.Prelude.Equality.{nat_eq, list_beq, list_beq_iff}

abbrev pub Text : Type 0
Text = List ℕ

-- A literal.
abbrev pub codes : String → Text
codes String.[] = []
codes (String.◌∷◌ c s) = code c ∷ codes s

-- `str::ends_with`.
unfoldable pub ends_with : Text → Text → Bool
ends_with [] suffix = list_beq [] suffix
ends_with (c ∷ s) suffix = list_beq (c ∷ s) suffix || ends_with s suffix

ends_with_suffix : (s suffix : Text) → ends_with s suffix ≡ true → (p : Text) × (s ≡ p ++ suffix)
unfolding ends_with
ends_with_suffix [] suffix h = ([], (list_beq_iff [] suffix).0 h)
ends_with_suffix (c ∷ s) suffix h = elim (Bool-cases (list_beq (c ∷ s) suffix)) [
  | inl e ↦ ([], (list_beq_iff (c ∷ s) suffix).0 e)
  | inr e ↦ let (p, q) = ends_with_suffix s suffix (rw e at h) in (c ∷ p, ap (◌∷◌ c) q)
]

ends_with-append : (p suffix : Text) → ends_with (p ++ suffix) suffix ≡ true
unfolding ends_with
ends_with-append [] [] = (list_beq_iff [] []).1 refl
ends_with-append [] (c ∷ s) = rw ((list_beq_iff (c ∷ s) (c ∷ s)).1 refl)
ends_with-append (c ∷ p) suffix = ground (arith, ends_with-append p suffix)

pub ends_with_iff :
    (s suffix : Text) → (ends_with s suffix ≡ true) ↔ ((p : Text) × (s ≡ p ++ suffix))
ends_with_iff s suffix = (ends_with_suffix s suffix, λ (p, e). rw e (ends_with-append p suffix))

-- `str::to_ascii_lowercase`.
abbrev pub lower_code : ℕ → ℕ
lower_code c = if leb b'A' c && leb c b'Z' then c + 32 else c

unfoldable pub to_ascii_lowercase : Text → Text
to_ascii_lowercase s = map lower_code s

-- Lexicographic order of texts; on code points it is that of their UTF-8 bytes.
unfoldable pub text_leb : Text → Text → Bool
text_leb [] ys = true
text_leb (x ∷ xs) [] = false
text_leb (x ∷ xs) (y ∷ ys) =
    if ltb x y then true else (if nat_beq x y then text_leb xs ys else false)

pub text_leb-total : (xs ys : Text) → text_leb xs ys ≡ false → text_leb ys xs ≡ true
unfolding text_leb
text_leb-total [] ys h = cc
text_leb-total (x ∷ xs) [] h = refl
text_leb-total (x ∷ xs) (y ∷ ys) h = ground (arith, text_leb-total xs ys)

pub text_leb_trans :
    (xs ys zs : Text) → text_leb xs ys ≡ true → text_leb ys zs ≡ true → text_leb xs zs ≡ true
unfolding text_leb
text_leb_trans [] ys zs h k = refl
text_leb_trans (x ∷ xs) [] zs h k = cc
text_leb_trans (x ∷ xs) (y ∷ ys) [] h k = cc
text_leb_trans (x ∷ xs) (y ∷ ys) (z ∷ zs) h k = ground (arith, text_leb_trans xs ys zs)

-- The decimal digits of `Display` for an unsigned integer; `suc n` rounds are enough.
unfoldable pub decimal_rounds : ℕ → ℕ → Text
decimal_rounds zero n = []
decimal_rounds (suc f) n = elim (ltb n 10) [
  | true ↦ (48 + n) ∷ []
  | false ↦ decimal_rounds f (n / 10) ++ ((48 + n % 10) ∷ [])
]

unfoldable pub decimal : ℕ → Text
unfolding decimal_rounds
decimal n = decimal_rounds (suc n) n

decimal_test : decimal 8096 ≡ codes "8096"
unfolding decimal
decimal_test = refl
