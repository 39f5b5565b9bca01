-- ===== src/Integrity/Tests.antt =====
-- crates/panel/src/dns_integrity.rs: reports and checks of small states.
use multi_proxy.Prelude.{
  ℕ, ◌+◌, ◌≡◌, refl, Bool, true, false, List, [], ◌∷◌, none, some, Text, codes, All, list_beq,
}
use multi_proxy.Prelude.Results.{ok, err}
use multi_proxy.Contract.Model.{DnsZone}
use multi_proxy.Cloudflare.Client.{Request, Provider, CfClient, new_client}
use multi_proxy.Cloudflare.Conservative.{logging}
use multi_proxy.Integrity.Report.{
  CheckStatus, fine, repaired, attention, skipped, CheckItem, finish, needs_attention,
}
use multi_proxy.Integrity.Desired.{CfConfig, DesiredState, derive_desired_state}
use multi_proxy.Integrity.Records.{repair_cloudflare_records}
use multi_proxy.Integrity.Groups.{ProbeResult, route_self_test_status}
use multi_proxy.Integrity.Local.{Store, inspect_local_zones}
use multi_proxy.Integrity.Keeping.{Keeps, Publishes, inspect_local_zones-Keeps}
use multi_proxy.Integrity.Careful.{Allowed, repair_cloudflare_records-Allowed}

abbrev item : CheckStatus → CheckItem
item s = record { id = []; scope = []; status = s; message = [] }

abbrev some_items : List CheckItem
some_items = item fine ∷ item repaired ∷ item skipped ∷ item fine ∷ []

finish_test : (finish 9 some_items).status ≡ needs_attention
unfolding finish
finish_test = refl

abbrev zone_at : Text → DnsZone
zone_at apex = record { id = []; apex_domain = apex; soa = []; ns = []; default_ttl = 60 }

abbrev settings : CfConfig
settings = record {
  token = codes "t";
  zone_id = codes "z";
  domain = codes "Example.com.";
  subdomain = codes "emby";
  panel_ip = codes "10.0.0.1";
  ns_name = codes "ns1";
  acme_staging = false;
  cert_dir = codes "/certs";
}

abbrev desired : DesiredState
desired = record {
  parent = codes "example.com";
  configured_child = codes "emby.example.com";
  ns_host = codes "ns1.example.com";
  panel_ip = codes "10.0.0.1";
  managed_children = codes "cdn.example.com" ∷ codes "emby.example.com" ∷ [];
}

-- A zone of another domain is not managed, and neither is the parent itself.
derive_test :
    derive_desired_state settings (
      zone_at (codes "cdn.example.com")
      ∷ zone_at (codes "example.com")
      ∷ zone_at (codes "notexample.com")
      ∷ [])
    ≡ ok desired
unfolding derive_desired_state list_beq
derive_test = refl

abbrev answered : ProbeResult
answered = record { response_code = some 2; answers = []; error = none }

-- A SERVFAIL is expected where nothing is a catch-all, and wants attention otherwise.
self_test :
    route_self_test_status answered answered (record { catch_all = false; available_ipv4 = true })
    ≡ fine
unfolding route_self_test_status
self_test = refl

self_test_catch_all :
    route_self_test_status answered answered (record { catch_all = true; available_ipv4 = true })
    ≡ attention
unfolding route_self_test_status
self_test_catch_all = refl

-- No record at any name, and every creation succeeds.
abbrev empty_provider : Provider ℕ
empty_provider = record {
  send = λ token q w. (ok (record { is_success = true; status = []; body = [] }), w);
  parse_records = λ body. ok (record { success = true; errors = []; result = some [] });
  parse_record = λ body. err (codes "malformed");
  parse_zone = λ body. err (codes "malformed");
  parse_value = λ body. err (codes "malformed");
}

abbrev client : CfClient
client = new_client (codes "t") (codes "z")

abbrev unhurried : ℕ × List Request → Bool × Bool
unhurried s = (true, false)

repair_cloudflare_records-Allowed_example :
    All
      (Allowed ℕ empty_provider client unhurried desired true)
      (repair_cloudflare_records
        (ℕ × List Request)
        (logging empty_provider)
        client
        unhurried
        desired
        true
        []
        (0, [])).1.1
repair_cloudflare_records-Allowed_example =
    repair_cloudflare_records-Allowed ℕ empty_provider client unhurried desired true [] 0

-- A zone without name servers and one with its own, and a child that is not there yet.
abbrev local_zones : List DnsZone
local_zones =
    zone_at (codes "cdn.example.com")
    ∷ record (zone_at (codes "own.example.com")) { ns = codes "ns.other" ∷ [] }
    ∷ []

-- The number of writes, and the zones that are served.
abbrev Panel : Type 0
Panel = ℕ × List DnsZone

abbrev small_store : Store Panel Text
small_store = record {
  list_zones = λ w. (ok local_zones, w);
  upsert_zone = λ z w. (ok tt, (w.0 + 1, w.1));
  new_id = λ w. codes "id";
  loaded_zones = λ w. w.1;
  publish_zones = λ zs w. (w.0, zs);
}

abbrev debug : List Text → Text
debug ns = []

-- Two writes: the missing name server, and the missing child.
inspect_local_zones_test :
    (inspect_local_zones Panel Text small_store debug (some desired) true [] (0, [])).1.0 ≡ 2
unfolding inspect_local_zones list_beq
inspect_local_zones_test = refl

inspect_local_zones-Keeps_example :
    Publishes Panel Text small_store debug
      (Keeps true local_zones)
      (inspect_local_zones Panel Text small_store debug (some desired) true [] (0, []))
inspect_local_zones-Keeps_example =
    inspect_local_zones-Keeps Panel Text small_store debug desired true [] (0, []) local_zones
      (λ zs w. refl) refl
