-- ===== src/Connections/Versions.antt =====
-- crates/panel/src/updater.rs and ws_server.rs: the comparison of versions, by which an agent counts as new.
use multi_proxy.Prelude.{
  ℕ, ◌≡◌, refl, Bool, true, false, not, List, [], ◌∷◌, Option, none, some, Text, codes, ltb,
  nat_beq, if◌then◌else◌, split, trim, parse_unsigned, u64_max,
}

abbrev or_zero : Option ℕ → ℕ
or_zero none = 0
or_zero (some n) = n

abbrev numbers : List Text → List ℕ
numbers [] = []
numbers (t ∷ ts) = or_zero (parse_unsigned u64_max t) ∷ numbers ts

unfoldable pub parse_version : Text → List ℕ
unfolding split parse_unsigned
parse_version s = numbers (split b'.' s)

-- The order of `Vec<u64>`.
unfoldable pub vec_gtb : List ℕ → List ℕ → Bool
vec_gtb [] cs = false
vec_gtb (l ∷ ls) [] = true
vec_gtb (l ∷ ls) (c ∷ cs) = if ltb c l then true else (if nat_beq l c then vec_gtb ls cs else false)

unfoldable pub version_newer : Text → Text → Bool
unfolding parse_version vec_gtb
version_newer latest current = vec_gtb (parse_version latest) (parse_version current)

-- `trim_start_matches('v')`.
abbrev drop_v : Text → Text
drop_v [] = []
drop_v (c ∷ s) = if nat_beq c b'v' then drop_v s else c ∷ s

unfoldable pub agent_is_new : Text → Bool
unfolding version_newer trim
agent_is_new version = not (version_newer (codes "0.10.0") (drop_v (trim version)))

agent_is_new_test : agent_is_new (codes "v0.10.0") ≡ true
unfolding agent_is_new
agent_is_new_test = refl

agent_is_old_test : agent_is_new (codes "0.9.12") ≡ false
unfolding agent_is_new
agent_is_old_test = refl

-- Fail-safe: a version that does not parse counts as old.
agent_is_unknown_test : agent_is_new [] ≡ false
unfolding agent_is_new
agent_is_unknown_test = refl
