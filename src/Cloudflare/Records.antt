-- ===== src/Cloudflare/Records.antt =====
-- crates/panel/src/cloudflare.rs: the comparison of records, and what a set of records at a name amounts to.
use multi_proxy.Prelude.{
  ℕ, ◌+◌, ◌-◌, ◌*◌, Bool, false, not, ◌&&◌, ◌||◌, List, [], ◌∷◌, ◌++◌, Option, none, some, Text,
  codes, ◌==◌, nat_eq, list_eq, if◌then◌else◌, leb, nat_beq, any, filter, trim, trim_end_matches,
  split, to_ascii_lowercase, decimal,
}
use multi_proxy.Prelude.Results.{Result, ok, err}

pub record DnsRecord : Type 0 where
  pub id : Text
  pub record_type : Text
  pub name : Text
  pub content : Text
  pub proxied : Bool
  pub ttl : ℕ

pub data RecordState : Type 0 where
  missing ok_record conflict : RecordState

unfoldable pub eq_ignore_ascii_case : Text → Text → Bool
unfolding to_ascii_lowercase
eq_ignore_ascii_case a b = to_ascii_lowercase a == to_ascii_lowercase b

unfoldable pub normalize_dns_name : Text → Text
unfolding trim trim_end_matches to_ascii_lowercase
normalize_dns_name name = to_ascii_lowercase (trim_end_matches b'.' (trim name))

unfoldable pub normalize_content : Text → Text → Text
unfolding eq_ignore_ascii_case normalize_dns_name trim
normalize_content record_type content =
    if eq_ignore_ascii_case record_type (codes "A")
    then trim content
    else normalize_dns_name content

-- What is asked for, as the source's arguments.
pub record Wanted : Type 0 where
  pub record_type : Text
  pub name : Text
  pub content : Text
  pub proxied : Bool

-- Unproxied, as every caller asks for it.
abbrev pub wanted_at : Text → Text → Text → Wanted
wanted_at record_type name content = record {
  record_type = record_type;
  name = name;
  content = content;
  proxied = false;
}

unfoldable pub same_record : DnsRecord → Wanted → Bool
unfolding eq_ignore_ascii_case normalize_dns_name normalize_content
same_record r want =
    eq_ignore_ascii_case r.record_type want.record_type
    && (normalize_dns_name r.name == normalize_dns_name want.name)
    && (normalize_content want.record_type r.content
        == normalize_content want.record_type want.content)
    && (if r.proxied then want.proxied else not want.proxied)

-- A record that forbids another of the wanted type at the same name.
unfoldable pub forbids : Wanted → DnsRecord → Bool
unfolding eq_ignore_ascii_case
forbids want r =
    if eq_ignore_ascii_case want.record_type (codes "NS")
    then (eq_ignore_ascii_case r.record_type (codes "A")
        || eq_ignore_ascii_case r.record_type (codes "AAAA")
        || eq_ignore_ascii_case r.record_type (codes "CNAME"))
    else if eq_ignore_ascii_case want.record_type (codes "A")
    then (eq_ignore_ascii_case r.record_type (codes "AAAA")
        || eq_ignore_ascii_case r.record_type (codes "CNAME"))
    else false

abbrev pub of_type : Wanted → DnsRecord → Bool
of_type want r = eq_ignore_ascii_case r.record_type want.record_type

abbrev pub classify_same : List DnsRecord → Wanted → RecordState
classify_same [] want = missing
classify_same (r ∷ []) want = if same_record r want then ok_record else conflict
classify_same (r ∷ s ∷ rs) want = conflict

unfoldable pub classify_records : List DnsRecord → Wanted → RecordState
unfolding forbids same_record any filter
classify_records [] want = missing
classify_records (r ∷ rs) want =
    if any (forbids want) (r ∷ rs)
    then conflict
    else classify_same (filter (of_type want) (r ∷ rs)) want

-- `str::parse` to an `Ipv4Addr`: four numbers of one to three digits, with no zero in front.
abbrev is_digit : ℕ → Bool
is_digit c = leb 48 c && leb c 57

abbrev octet_value : Text → Option ℕ
octet_value (a ∷ []) = if is_digit a then some (a - 48) else none
octet_value (a ∷ b ∷ []) =
    if is_digit a && is_digit b && not (nat_beq a 48) then some ((a - 48) * 10 + (b - 48)) else none
octet_value (a ∷ b ∷ c ∷ []) =
    let n = ((a - 48) * 10 + (b - 48)) * 10 + (c - 48) in
    if is_digit a && is_digit b && is_digit c && not (nat_beq a 48) && leb n 255
    then some n
    else none
octet_value _ = none

abbrev dotted : Option ℕ → Option ℕ → Option ℕ → Option ℕ → Option Text
dotted (some a) (some b) (some c) (some d) =
    some (decimal a ++ (b'.' ∷ decimal b) ++ (b'.' ∷ decimal c) ++ (b'.' ∷ decimal d))
dotted _ _ _ _ = none

abbrev ipv4_of : List Text → Option Text
ipv4_of (a ∷ b ∷ c ∷ d ∷ []) =
    dotted (octet_value a) (octet_value b) (octet_value c) (octet_value d)
ipv4_of _ = none

abbrev or_invalid : Text → Option Text → Result Text Text
or_invalid panel_ip none =
    err (codes "panel IP must be a non-empty IPv4 address: `" ++ (panel_ip ++ codes "`"))
or_invalid panel_ip (some ip) = ok ip

-- The address is given as its text.
unfoldable pub parse_panel_ipv4 : Text → Result Text Text
unfolding trim split decimal
parse_panel_ipv4 panel_ip = or_invalid panel_ip (ipv4_of (split b'.' (trim panel_ip)))
