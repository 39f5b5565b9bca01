-- ===== src/Dns/ZoneRecords.antt =====
-- crates/panel/src/dns/handler.rs: the NS and SOA records of a zone.
-- `Name` and its parser `Name::from_ascii` are those of the DNS library.
use multi_proxy.Prelude.{
  ℕ, List, [], ◌∷◌, ◌++◌, Option, none, some, Text, codes, if◌then◌else◌, filter_map, map, min,
}
use multi_proxy.Prelude.Int.{ℤ, pos}
use multi_proxy.Contract.Isp.{trim}
use multi_proxy.Contract.Model.{DnsZone}
use multi_proxy.Dns.Zone.{
  fqdn, normalized_name, zone_ttl, split_whitespace, parse_u32, parse_i32, is_empty, apex_of,
}

pub record Soa (Name : Type 0) : Type 0 where
  pub mname : Name
  pub rname : Name
  pub serial : ℕ
  pub refresh : ℤ
  pub retry : ℤ
  pub expire : ℤ
  pub minimum : ℕ

pub data RData (Name : Type 0) : Type 0 where
  a : ℕ → RData Name
  txt : Text → RData Name
  ns : Name → RData Name
  soa : Soa Name → RData Name

pub record Record (Name : Type 0) : Type 0 where
  pub owner : Name
  pub ttl : ℕ
  pub rdata : RData Name

-- `Option::or` and the `?` operator on an option.
abbrev pub or_name : {N : Type 0} → Option N → Option N → Option N
or_name none later = later
or_name (some n) later = some n

abbrev pub bind : {A B : Type 0} → Option A → (A → Option B) → Option B
bind none f = none
bind (some x) f = f x

abbrev pub head : {A : Type 0} → List A → Option A
head [] = none
head (x ∷ xs) = some x

module _ (Name : Type 0) (from_ascii : Text → Option Name) where
  unfoldable pub zone_name : DnsZone → Option Name
  zone_name zone = from_ascii (fqdn (normalized_name zone.apex_domain))

  unfoldable pub configured_name : Text → Option Name
  configured_name value = if is_empty (trim value) then none else from_ascii (fqdn value)

  unfoldable pub ns_record : DnsZone → Name → Name → Record Name
  ns_record zone owner host = record { owner = owner; ttl = zone_ttl zone; rdata = RData.ns host }

  abbrev pub ns_records_at : DnsZone → Option Name → List (Record Name)
  ns_records_at zone none = []
  ns_records_at zone (some owner) = map (ns_record zone owner) (filter_map configured_name zone.ns)

  unfoldable pub zone_ns_records : DnsZone → List (Record Name)
  unfolding configured_name ns_record zone_name
  zone_ns_records zone = ns_records_at zone (zone_name zone)

  unfoldable pub fallback_soa : DnsZone → Option (Soa Name)
  unfolding configured_name zone_name
  fallback_soa zone =
      bind (or_name (head (filter_map configured_name zone.ns)) (zone_name zone)) λ mname.
        bind (configured_name (codes "hostmaster." ++ apex_of zone)) λ rname. some (record {
          mname = mname;
          rname = rname;
          serial = 1;
          refresh = pos 7200;
          retry = pos 900;
          expire = pos 1209600;
          minimum = zone_ttl zone;
        })

  -- The record of seven fields, if there are seven and each is well formed.
  unfoldable pub stored_soa : List Text → Option (Soa Name)
  unfolding configured_name
  stored_soa (f0 ∷ f1 ∷ f2 ∷ f3 ∷ f4 ∷ f5 ∷ f6 ∷ []) = bind (configured_name f0) λ mname.
      bind (configured_name f1) λ rname. bind (parse_u32 f2) λ serial.
        bind (parse_i32 f3) λ refresh. bind (parse_i32 f4) λ retry. bind (parse_i32 f5) λ expire.
          bind (parse_u32 f6) λ minimum. some (record {
            mname = mname;
            rname = rname;
            serial = serial;
            refresh = refresh;
            retry = retry;
            expire = expire;
            minimum = minimum;
          })
  stored_soa _ = none

  -- The fallback is computed first, and its failure is the whole one's.
  unfoldable pub zone_soa_data : DnsZone → Option (Soa Name)
  unfolding fallback_soa stored_soa
  zone_soa_data zone =
      bind (fallback_soa zone)
        λ fallback. or_name (stored_soa (split_whitespace zone.soa)) (some fallback)

  unfoldable pub zone_soa_record : DnsZone → ℕ → Option (Record Name)
  unfolding zone_soa_data zone_name
  zone_soa_record zone ttl = bind (zone_name zone) λ owner.
      bind (zone_soa_data zone)
        λ fields. some (record { owner = owner; ttl = ttl; rdata = RData.soa fields })

  unfoldable pub zone_negative_soa_record : DnsZone → Option (Record Name)
  unfolding zone_soa_data zone_name
  zone_negative_soa_record zone = bind (zone_soa_data zone) λ fields. bind (zone_name zone) λ owner.
      some (record {
        owner = owner;
        ttl = min (zone_ttl zone) fields.minimum;
        rdata = RData.soa fields;
      })
