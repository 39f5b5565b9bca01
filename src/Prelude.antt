-- ===== src/Prelude.antt =====
-- The names that the modules share: the libraries', passed on, and those of the children.
pub mod Tests
pub mod Lists
pub mod Equality
pub mod Predicates
pub mod Sort
pub mod Words
pub mod Strings
pub mod Int
pub mod Parsing
pub mod Results
pub mod Maps
pub mod Members
pub use Tests.*
pub use Lists.*
pub use multi_proxy.Prelude.Equality.{
  PartialEq, ◌==◌, nat_eq, list_eq, option_eq, pair_eq, list_beq_iff, option_beq_iff,
}
unfoldable pub use multi_proxy.Prelude.Equality.{list_beq, contains}
unfoldable pub use Maps.*
unfoldable pub use multi_proxy.Prelude.Parsing.{
  is_whitespace, trim, trim_end_matches, split, split_whitespace, split_once, lines, parse_unsigned,
}
unfoldable pub use Predicates.*
unfoldable pub use multi_proxy.Prelude.Strings.{
  codes, ends_with, to_ascii_lowercase, text_leb, decimal,
}
pub use multi_proxy.Prelude.Strings.{ends_with_iff, text_leb-total, text_leb_trans}
pub use Members.*
pub use Words.*
pub use multi_proxy.Prelude.Strings.{Text}
pub use Prim.Native.Nat.{ℕ, zero, suc, ◌+◌, ◌-◌, ◌*◌, ◌/◌, ◌%◌, ◌^◌, ◌≤◌, ◌<◌, min, max}
pub use mathlib.Core.Path.{◌≡◌, refl, sym, ap, ◌∙◌, subst, ap₂}
pub use mathlib.Core.Logic.{◌≢◌, ◌↔◌, ◌⊎◌, inl, inr}
pub use mathlib.Core.Bool.{Bool, true, false, ◌&&◌, ◌||◌, not}
pub use mathlib.Core.Option.{Option, none, some}
pub use mathlib.Core.List.{List, [], ◌∷◌, ◌++◌, map}
pub use native.Mathlib.Omega.{arith}
