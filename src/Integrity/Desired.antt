-- ===== src/Integrity/Desired.antt =====
-- crates/panel/src/dns_integrity.rs: the records and zones that there should be.
use multi_proxy.Prelude.{
  Bool, true, false, not, ◌&&◌, List, [], ◌∷◌, ◌++◌, Option, none, some, Text, codes, ◌==◌, nat_eq,
  list_eq, if◌then◌else◌, any, ends_with, split, text_leb,
}
use multi_proxy.Prelude.Results.{Result, ok, err}
use multi_proxy.Contract.Model.{DnsZone}
use multi_proxy.Cloudflare.Records.{normalize_dns_name, parse_panel_ipv4}

-- What the settings hold for Cloudflare.
pub record CfConfig : Type 0 where
  pub token : Text
  pub zone_id : Text
  pub domain : Text
  pub subdomain : Text
  pub panel_ip : Text
  pub ns_name : Text
  pub acme_staging : Bool
  pub cert_dir : Text

pub record DesiredState : Type 0 where
  pub parent : Text
  pub configured_child : Text
  pub ns_host : Text
  pub panel_ip : Text
  pub managed_children : List Text

abbrev is_empty : Text → Bool
is_empty [] = true
is_empty (c ∷ t) = false

abbrev pub full_name : Text → Text → Text
full_name label parent = label ++ (codes "." ++ parent)

unfoldable pub qualify_label : Text → Text → Result Text Text
unfolding normalize_dns_name split any
qualify_label given parent =
    let label = normalize_dns_name given in
    if is_empty label
    then err (codes "DNS label is empty")
    else if any is_empty (split b'.' (full_name label parent))
    then err (codes "invalid DNS name `" ++ (full_name label parent ++ codes "`"))
    else ok (full_name label parent)

unfoldable pub is_strict_descendant : Text → Text → Bool
unfolding ends_with
is_strict_descendant name parent = not (name == parent) && ends_with name (b'.' ∷ parent)

-- `BTreeSet::insert`, on the set's items in order.
unfoldable pub insert_child : Text → List Text → List Text
unfolding text_leb
insert_child c [] = c ∷ []
insert_child c (d ∷ ds) =
    let rest = insert_child c ds in
    if c == d then d ∷ ds else (if text_leb c d then c ∷ d ∷ ds else d ∷ rest)

unfoldable pub insert_zones : Text → List DnsZone → List Text → List Text
unfolding insert_child is_strict_descendant normalize_dns_name
insert_zones parent [] children = children
insert_zones parent (z ∷ zones) children =
    let apex = normalize_dns_name z.apex_domain in
    insert_zones parent zones
      (if is_strict_descendant apex parent then insert_child apex children else children)

abbrev and_ok : {A B : Type 0} → Result Text A → (A → Result Text B) → Result Text B
and_ok (err e) f = err e
and_ok (ok a) f = f a

unfoldable pub derive_desired_state : CfConfig → List DnsZone → Result Text DesiredState
unfolding qualify_label insert_zones insert_child normalize_dns_name parse_panel_ipv4
derive_desired_state cf zones =
    let parent = normalize_dns_name cf.domain in
    if is_empty parent
    then err (codes "Cloudflare parent domain is empty")
    else and_ok (qualify_label cf.subdomain parent) λ configured_child.
      and_ok (qualify_label cf.ns_name parent) λ ns_host.
        and_ok (parse_panel_ipv4 cf.panel_ip) λ panel_ip. ok (record {
          parent = parent;
          configured_child = configured_child;
          ns_host = ns_host;
          panel_ip = panel_ip;
          managed_children = insert_zones parent zones (insert_child configured_child []);
        })

abbrev pub fallback_probe_name : Text
fallback_probe_name = codes "dns-integrity.invalid"

unfoldable pub first_apex : List DnsZone → Option Text
unfolding normalize_dns_name
first_apex [] = none
first_apex (z ∷ zones) =
    let rest = first_apex zones in
    let apex = normalize_dns_name z.apex_domain in if is_empty apex then rest else some apex

abbrev or_fallback : Option Text → Text
or_fallback none = fallback_probe_name
or_fallback (some name) = name

unfoldable pub select_probe_name : Option DesiredState → List DnsZone → Text
unfolding first_apex
select_probe_name none zones = or_fallback (first_apex zones)
select_probe_name (some d) zones = d.configured_child
