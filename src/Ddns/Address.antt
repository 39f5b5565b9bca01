-- ===== src/Ddns/Address.antt =====
-- crates/panel/src/ddns.rs: address literals and host names, and the first IPv4 address of a lookup.
-- `parse_ip` is `str::parse::<IpAddr>`; a lookup gives none when it fails or when its time is over.
use multi_proxy.Prelude.{
  ℕ, ◌+◌, Bool, true, false, ◌&&◌, ◌||◌, not, List, [], ◌∷◌, Option, none, some, Text, ltb, leb,
  nat_beq, is_some, trim, split, contains, nat_eq, all, find, if◌then◌else◌,
}
use multi_proxy.Contract.Model.{IpAddr, v4, v6}

-- The bytes of a text in UTF-8, `str::len`.
abbrev code_len : ℕ → ℕ
code_len c = if ltb c 128 then 1 else if ltb c 2048 then 2 else if ltb c 65536 then 3 else 4

abbrev pub byte_len : Text → ℕ
byte_len [] = 0
byte_len (c ∷ s) = code_len c + byte_len s

abbrev is_hyphen : ℕ → Bool
is_hyphen c = nat_beq c 45

abbrev pub starts_with_hyphen : Text → Bool
starts_with_hyphen [] = false
starts_with_hyphen (c ∷ s) = is_hyphen c

abbrev pub ends_with_hyphen : Text → Bool
ends_with_hyphen [] = false
ends_with_hyphen (c ∷ []) = is_hyphen c
ends_with_hyphen (c ∷ d ∷ s) = ends_with_hyphen (d ∷ s)

-- Of a code point; the bytes of one that is not ASCII all fail, as it does.
abbrev pub is_label_code : ℕ → Bool
is_label_code c =
    ((leb 48 c && leb c 57) || (leb 65 c && leb c 90) || (leb 97 c && leb c 122)) || is_hyphen c

abbrev is_empty : Text → Bool
is_empty [] = true
is_empty (c ∷ s) = false

unfoldable pub is_label : Text → Bool
unfolding all
is_label label =
    not (is_empty label)
    && leb (byte_len label) 63
    && not (starts_with_hyphen label)
    && not (ends_with_hyphen label)
    && all is_label_code label

abbrev trimmed_hostname : Text → Bool
trimmed_hostname a =
    if is_empty a || ltb 253 (byte_len a) || not (contains a 46)
    then false
    else all is_label (split 46 a)

unfoldable pub looks_like_hostname : Text → Bool
unfolding is_label trim split contains all
looks_like_hostname addr = trimmed_hostname (trim addr)

unfoldable pub is_ip_literal : (Text → Option IpAddr) → Text → Bool
unfolding trim
is_ip_literal parse_ip addr = is_some (parse_ip (trim addr))

unfoldable pub is_valid_node_address : (Text → Option IpAddr) → Text → Bool
unfolding is_ip_literal looks_like_hostname
is_valid_node_address parse_ip addr = is_ip_literal parse_ip addr || looks_like_hostname addr

abbrev pub is_ipv4 : IpAddr → Bool
is_ipv4 (v4 n) = true
is_ipv4 (v6 n) = false

abbrev first_ipv4 : Option (List IpAddr) → Option IpAddr
first_ipv4 none = none
first_ipv4 (some addrs) = find is_ipv4 addrs

unfoldable pub resolve_hostname_v4 : (Text → Option (List IpAddr)) → Text → Option IpAddr
unfolding trim find
resolve_hostname_v4 lookup host = first_ipv4 (lookup (trim host))
