-- ===== src/Cloudflare/Ensure.antt =====
-- crates/panel/src/cloudflare.rs: the operations on one record, and the set-up of the panel's records.
use multi_proxy.Prelude.{
  ℕ, List, [], ◌∷◌, ◌++◌, Option, none, some, Text, codes, ◌==◌, nat_eq, list_eq, if◌then◌else◌,
  find,
}
use multi_proxy.Prelude.Results.{Result, ok, err, Action, pure, fail, ◌>>=◌, ◌>>◌}
use multi_proxy.Cloudflare.Records.{
  DnsRecord, Wanted, wanted_at, RecordState, missing, ok_record, conflict, normalize_dns_name,
  same_record, classify_records, parse_panel_ipv4,
}
use multi_proxy.Cloudflare.Client.{
  CfApiError, api, no_result, Provider, CfClient, list_records, list_records_exact, zone_name,
  create_record, update_record,
}

pub data EnsureRecord : Type 0 where
  already_ok : DnsRecord → EnsureRecord
  created : DnsRecord → EnsureRecord

abbrev pub record_of : EnsureRecord → DnsRecord
record_of (already_ok r) = r
record_of (created r) = r

module _ (World : Type 0) (p : Provider World) (cf : CfClient) where
  abbrev pub found : Option DnsRecord → Action World CfApiError DnsRecord
  found none = fail no_result
  found (some r) = pure r

  -- The matching record of a set.
  abbrev pub matching : List DnsRecord → Wanted → Action World CfApiError DnsRecord
  matching rs want = found (find (λ r. same_record r want) rs)

  abbrev pub verified : RecordState → List DnsRecord → Wanted → Action World CfApiError EnsureRecord
  verified ok_record after want = do r ← matching after want; pure (created r)
  verified missing after want = fail (
      api (
        codes "created "
        ++ (want.record_type
            ++ (codes " "
                ++ (normalize_dns_name want.name
                    ++ codes " but verification found a conflict or missing record")))))
  verified conflict after want = fail (
      api (
        codes "created "
        ++ (want.record_type
            ++ (codes " "
                ++ (normalize_dns_name want.name
                    ++ codes " but verification found a conflict or missing record")))))

  abbrev pub create_and_verify : Wanted → ℕ → Action World CfApiError EnsureRecord
  create_and_verify want ttl = do
    create_record World p cf want ttl
    after ← list_records_exact World p cf want.name
    verified (classify_records after want) after want

  abbrev pub ensure_from :
      RecordState → List DnsRecord → Wanted → ℕ → Action World CfApiError EnsureRecord
  ensure_from ok_record before want ttl = do r ← matching before want; pure (already_ok r)
  ensure_from conflict before want ttl = fail (
      api (
        codes "conflict at "
        ++ (normalize_dns_name want.name
            ++ (codes " " ++ (want.record_type ++ codes " record; no mutation performed")))))
  ensure_from missing before want ttl = create_and_verify want ttl

  unfoldable pub ensure_missing_record : Wanted → ℕ → Action World CfApiError EnsureRecord
  unfolding list_records_exact create_record classify_records same_record normalize_dns_name find
  ensure_missing_record want ttl = do
    before ← list_records_exact World p cf want.name
    ensure_from (classify_records before want) before want ttl

  unfoldable pub classify_record : Wanted → Action World CfApiError RecordState
  unfolding list_records_exact classify_records
  classify_record want = do
    records ← list_records_exact World p cf want.name
    pure (classify_records records want)

  abbrev pub upsert_over : List DnsRecord → Wanted → ℕ → Action World CfApiError DnsRecord
  upsert_over [] want ttl = create_record World p cf want ttl
  upsert_over (r ∷ rs) want ttl = update_record World p cf r.id want ttl

  unfoldable pub upsert_record : Wanted → ℕ → Action World CfApiError DnsRecord
  unfolding list_records create_record update_record
  upsert_record want ttl = do
    existing ← list_records World p cf want.record_type want.name
    upsert_over existing want ttl

  abbrev check_zone : Text → Text → Action World CfApiError Text
  check_zone actual expected =
      if actual == expected
      then pure actual
      else fail (
          api (
            codes "Cloudflare Zone ID resolves to `"
            ++ (actual ++ (codes "`, expected `" ++ (expected ++ codes "`")))))

  unfoldable pub validate_zone_name : Text → Action World CfApiError Text
  unfolding zone_name normalize_dns_name
  validate_zone_name expected_domain = do
    name ← zone_name World p cf
    check_zone (normalize_dns_name name) (normalize_dns_name expected_domain)

  abbrev parsed : Result Text Text → Action World CfApiError Text
  parsed (ok ip) = pure ip
  parsed (err e) = fail (api e)

  abbrev dot : Text → Text → Text
  dot label domain = label ++ (codes "." ++ domain)

  unfoldable pub auto_setup_dns :
      Text → Text → Text → Text → Action World CfApiError (List DnsRecord)
  unfolding validate_zone_name parse_panel_ipv4 ensure_missing_record upsert_record
      normalize_dns_name
  auto_setup_dns given_domain subdomain panel_ip ns_name = do
    validate_zone_name given_domain
    ip ← parsed (parse_panel_ipv4 panel_ip)
    let domain = normalize_dns_name given_domain
    let ns_fqdn = dot (normalize_dns_name ns_name) domain
    a ← ensure_missing_record (wanted_at (codes "A") ns_fqdn ip) 300
    b ←
        ensure_missing_record
          (wanted_at (codes "NS") (dot (normalize_dns_name subdomain) domain) ns_fqdn) 300
    c ← upsert_record (wanted_at (codes "A") (dot (codes "panel") domain) ip) 300
    pure (record_of a ∷ record_of b ∷ c ∷ [])
