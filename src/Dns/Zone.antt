-- ===== src/Dns/Zone.antt =====
-- crates/panel/src/dns/handler.rs: the zone of a name and the zone's own records.
-- `Name` and its parser `Name::from_ascii` are those of the DNS library.
use multi_proxy.Prelude.{
  ℕ, zero, suc, ◌+◌, ◌-◌, ◌*◌, Bool, true, false, ◌&&◌, ◌||◌, not, List, [], ◌∷◌, ◌++◌, Option,
  none, some, Text, codes, ends_with, to_ascii_lowercase, ◌==◌, nat_eq, list_eq, nat_beq, leb, ltb,
  if◌then◌else◌, filter, u32_max,
}
use mathlib.Core.List.{reverse}
use multi_proxy.Prelude.Int.{ℤ, pos, negsuc}
use multi_proxy.Contract.Isp.{is_whitespace, trim}
use multi_proxy.Contract.Model.{DnsZone}

unfoldable pub drop_dots : Text → Text
drop_dots [] = []
drop_dots (c ∷ s) = if nat_beq c b'.' then drop_dots s else c ∷ s

unfoldable pub normalized_name : Text → Text
unfolding drop_dots to_ascii_lowercase
normalized_name name = to_ascii_lowercase (reverse (drop_dots (reverse name)))

-- `str::len`, in bytes of UTF-8.
abbrev pub utf8_len : ℕ → ℕ
utf8_len c = if ltb c 0x80 then 1 else (if ltb c 0x800 then 2 else (if ltb c 0x10000 then 3 else 4))

unfoldable pub str_len : Text → ℕ
str_len [] = 0
str_len (c ∷ s) = utf8_len c + str_len s

abbrev pub is_empty : Text → Bool
is_empty [] = true
is_empty (c ∷ s) = false

abbrev pub apex_of : DnsZone → Text
apex_of zone = normalized_name zone.apex_domain

unfoldable pub covers : Text → DnsZone → Bool
covers query_name zone =
    not (is_empty (apex_of zone))
    && (query_name == apex_of zone || ends_with query_name (b'.' ∷ apex_of zone))

-- `Iterator::max_by_key`: of several largest items, the last.
abbrev pub later_max : (DnsZone → ℕ) → DnsZone → DnsZone → DnsZone
later_max key best z = if leb (key best) (key z) then z else best

unfoldable pub max_from : (DnsZone → ℕ) → DnsZone → List DnsZone → DnsZone
max_from key best [] = best
max_from key best (z ∷ zs) = max_from key (later_max key best z) zs

unfoldable pub max_by_key : (DnsZone → ℕ) → List DnsZone → Option DnsZone
unfolding max_from
max_by_key key [] = none
max_by_key key (z ∷ zs) = some (max_from key z zs)

unfoldable pub served_zone : List DnsZone → Text → Option DnsZone
unfolding covers max_by_key str_len
served_zone zones query_name =
    max_by_key (λ z. str_len (apex_of z)) (filter (covers query_name) zones)

unfoldable pub zone_ttl : DnsZone → ℕ
zone_ttl zone = zone.default_ttl

unfoldable pub fqdn : Text → Text
unfolding ends_with
fqdn value =
    let value' = trim value in
    if value' == codes "." || ends_with value' (codes ".") then value' else value' ++ codes "."

-- `str::split_whitespace`, with the field under way.
abbrev pub push_field : Text → List Text → List Text
push_field [] fields = fields
push_field (c ∷ s) fields = (c ∷ s) ∷ fields

unfoldable pub split_from : Text → Text → List Text
split_from field [] = push_field field []
split_from field (c ∷ s) = elim (is_whitespace c) [
  | true ↦ push_field field (split_from [] s)
  | false ↦ split_from (field ++ (c ∷ [])) s
]

unfoldable pub split_whitespace : Text → List Text
unfolding split_from
split_whitespace s = split_from [] s

-- `str::parse` for unsigned and signed integers: an optional sign, digits, and the range.
unfoldable pub digits_from : ℕ → Text → Option ℕ
digits_from n [] = some n
digits_from n (c ∷ s) = elim (leb b'0' c && leb c b'9') [
  | true ↦ digits_from (n * 10 + (c - b'0')) s
  | false ↦ none
]

abbrev pub digits : Text → Option ℕ
digits [] = none
digits (c ∷ s) = digits_from 0 (c ∷ s)

abbrev pub at_most : ℕ → Option ℕ → Option ℕ
at_most bound none = none
at_most bound (some n) = if leb n bound then some n else none

unfoldable pub parse_u32 : Text → Option ℕ
unfolding digits_from
parse_u32 [] = none
parse_u32 (c ∷ s) = at_most u32_max (if nat_beq c b'+' then digits s else digits (c ∷ s))

abbrev pub negated : Option ℕ → Option ℤ
negated none = none
negated (some zero) = some (pos 0)
negated (some (suc n)) = some (negsuc n)

abbrev pub positive : Option ℕ → Option ℤ
positive none = none
positive (some n) = some (pos n)

unfoldable pub parse_i32 : Text → Option ℤ
unfolding digits_from
parse_i32 [] = none
parse_i32 (c ∷ s) =
    if nat_beq c b'-'
    then negated (at_most 2147483648 (digits s))
    else positive (at_most 2147483647 (if nat_beq c b'+' then digits s else digits (c ∷ s)))
