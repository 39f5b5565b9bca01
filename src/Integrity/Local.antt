-- ===== src/Integrity/Local.antt =====
-- crates/panel/src/dns_integrity.rs: the check, and the repair, of the local zones.
-- The database and the shared state are the record `Store`; an id is what the uuid library gives.
use multi_proxy.Prelude.{
  ℕ, Bool, true, false, List, [], ◌∷◌, ◌++◌, Option, none, some, Text, codes, ◌==◌, nat_eq, list_eq,
  if◌then◌else◌, map,
}
use multi_proxy.Prelude.Results.{ok, Action, pure, ◌>>=◌, ◌>>◌}
use multi_proxy.Contract.Model.{DnsZone}
use multi_proxy.Cloudflare.Records.{normalize_dns_name}
use multi_proxy.Integrity.Report.{fine, repaired, attention, CheckItem, push}
use multi_proxy.Integrity.Desired.{DesiredState}

pub record Store (World E : Type 0) : Type 0 where
  pub list_zones : Action World E (List DnsZone)
  pub upsert_zone : DnsZone → Action World E Unit
  pub new_id : World → Text
  pub loaded_zones : World → List DnsZone
  -- The swap of the shared zones, with the notice of the change.
  pub publish_zones : List DnsZone → World → World

abbrev pub default_zone_ttl : ℕ
default_zone_ttl = 60

-- The zones before the first whose apex is the name, that zone, and those after it.
pub record Split : Type 0 where
  pub before : List DnsZone
  pub zone : DnsZone
  pub after : List DnsZone

abbrev pub behind : DnsZone → Option Split → Option Split
behind z none = none
behind z (some s) = some (record s { before = z ∷ s.before })

unfoldable pub split_zones : Text → List DnsZone → Option Split
unfolding normalize_dns_name
split_zones child [] = none
split_zones child (z ∷ zones) =
    let rest = behind z (split_zones child zones) in
    if normalize_dns_name z.apex_domain == child
    then some (record { before = []; zone = z; after = zones })
    else rest

-- `{:?}` of the name servers, which stands in a message only, is a parameter.
module _ (World E : Type 0) (store : Store World E) (debug : List Text → Text) where
  abbrev pub Checked : Type 0
  Checked = List DnsZone × List CheckItem

  abbrev pub rebuilt : Text → Text → Text → DnsZone
  rebuilt id child expected_ns = record {
    id = id;
    apex_domain = child;
    soa = [];
    ns = expected_ns ∷ [];
    default_ttl = default_zone_ttl;
  }

  abbrev new_id_of : Action World E Text
  new_id_of w = (ok (store.new_id w), w)

  -- A child without a local zone; only the configured one is rebuilt.
  abbrev pub check_absent : Bool → Bool → Text → Text → Checked → Action World E Checked
  check_absent false repair child expected_ns c = pure c
  check_absent true false child expected_ns (zones, out) = pure (
    zones,
    push out (codes "local_child_zone") child attention
        (codes "本地缺少配置子域名 " ++ (child ++ codes "，未重建")),
  )
  check_absent true true child expected_ns (zones, out) = do
    id ← new_id_of
    store.upsert_zone (rebuilt id child expected_ns)
    pure (
      zones ++ (rebuilt id child expected_ns ∷ []),
      push out (codes "local_child_zone") child repaired (codes "已重建本地配置子域名 " ++ child),
    )

  abbrev pub filled : DnsZone → Text → DnsZone
  filled z expected_ns = record z { ns = expected_ns ∷ [] }

  -- A zone by its name servers: none, exactly the expected one, or others.
  abbrev pub check_ns :
      Bool → Text → Text → Split → List CheckItem → List Text → Action World E Checked
  check_ns true child expected_ns s out [] = do
    store.upsert_zone (filled s.zone expected_ns)
    pure (
      s.before ++ (filled s.zone expected_ns ∷ s.after),
      push out (codes "local_zone_ns") child repaired
          (codes "已补齐本地 NS: " ++ (child ++ (codes " -> " ++ expected_ns))),
    )
  check_ns false child expected_ns s out [] = pure (
    s.before ++ (s.zone ∷ s.after),
    push out (codes "local_zone_ns") child attention
        (codes "本地 NS 为空: " ++ (child ++ codes "，未修改")),
  )
  check_ns repair child expected_ns s out (n ∷ []) = pure (
    s.before ++ (s.zone ∷ s.after),
    (if n == expected_ns
        then push out (codes "local_zone_ns") child fine
            (codes "本地 NS 正常: " ++ (child ++ (codes " -> " ++ expected_ns)))
        else push out (codes "local_zone_ns") child attention
            (codes "本地 NS 自定义或重复，未修改: " ++ (child ++ (codes " -> " ++ debug s.zone.ns)))),
  )
  check_ns repair child expected_ns s out (n ∷ m ∷ ns) = pure (
    s.before ++ (s.zone ∷ s.after),
    push out (codes "local_zone_ns") child attention
        (codes "本地 NS 自定义或重复，未修改: " ++ (child ++ (codes " -> " ++ debug s.zone.ns))),
  )

  abbrev pub check_found :
      DesiredState → Bool → Text → Checked → Option Split → Action World E Checked
  check_found d repair child c none =
      check_absent (child == d.configured_child) repair child d.ns_host c
  check_found d repair child c (some s) =
      check_ns repair child d.ns_host s c.1 (map normalize_dns_name s.zone.ns)

  -- The loop over the managed children.
  unfoldable pub check_children : DesiredState → Bool → List Text → Checked → Action World E Checked
  unfolding split_zones normalize_dns_name push
  check_children d repair [] c = pure c
  check_children d repair (child ∷ children) c = do
    c' ← check_found d repair child c (split_zones child c.0)
    check_children d repair children c'

  abbrev pub publish : Checked → Action World E Checked
  publish c w = (ok c, store.publish_zones c.0 w)

  unfoldable pub inspect_local_zones :
      Option DesiredState → Bool → List CheckItem → Action World E Checked
  unfolding check_children
  inspect_local_zones none repair out w = (ok (store.loaded_zones w, out), w)
  inspect_local_zones (some d) repair out w =
      (do
        zones ← store.list_zones
        c ← check_children d repair d.managed_children (zones, out)
        publish c)
        w
