-- ===== src/Cloudflare/Tests.antt =====
-- crates/panel/src/cloudflare.rs: the careful creation over a small provider.
use multi_proxy.Prelude.{◌≡◌, refl, true, false, List, [], ◌∷◌, some, Text, codes, list_beq, nat_eq}
use multi_proxy.Prelude.Results.{Result, ok, err}
use multi_proxy.Cloudflare.Records.{
  DnsRecord, Wanted, wanted_at, ok_record, conflict, classify_records, parse_panel_ipv4,
}
use multi_proxy.Cloudflare.Client.{
  CfResponse, Request, get_at, post_at, put_at, delete_at, Response, Provider, CfClient, new_client,
}

abbrev ns_record : DnsRecord
ns_record = record {
  id = codes "r";
  record_type = codes "NS";
  name = codes "Emby.Example.com.";
  content = codes "ns1.example.com";
  proxied = false;
  ttl = 300;
}

abbrev ns_wanted : Wanted
ns_wanted = wanted_at (codes "ns") (codes "emby.example.com") (codes "NS1.example.com")

-- The same record in other letters is the wanted one, a harmless type hides nothing, and an address conflicts.
classify_test :
    classify_records (record ns_record { record_type = codes "TXT" } ∷ ns_record ∷ []) ns_wanted
    ≡ ok_record
unfolding classify_records list_beq
classify_test = refl

classify_conflict :
    classify_records (record ns_record { record_type = codes "aaaa" } ∷ []) ns_wanted ≡ conflict
unfolding classify_records list_beq
classify_conflict = refl

parse_test : parse_panel_ipv4 (codes " 10.0.0.255 ") ≡ ok (codes "10.0.0.255")
unfolding parse_panel_ipv4
parse_test = refl

parse_leading_zero :
    parse_panel_ipv4 (codes "10.0.0.01")
    ≡ err (codes "panel IP must be a non-empty IPv4 address: `10.0.0.01`")
unfolding parse_panel_ipv4
parse_leading_zero = refl

-- The world is the records; an answer's body has one letter for each.
abbrev letters : List DnsRecord → Text
letters [] = []
letters (r ∷ rs) = b'r' ∷ letters rs

abbrev from_letters : Text → List DnsRecord
from_letters [] = []
from_letters (c ∷ t) = ns_record ∷ from_letters t

abbrev answer_with : List DnsRecord → Response
answer_with rs = record { is_success = true; status = codes "200 OK"; body = letters rs }

abbrev small_send : Request → List DnsRecord → Result Text Response × List DnsRecord
small_send (get_at url query) rs = (ok (answer_with rs), rs)
small_send (post_at url body) rs = (ok (answer_with []), ns_record ∷ rs)
small_send (put_at url body) rs = (ok (answer_with []), rs)
small_send (delete_at url) rs = (ok (answer_with []), [])

abbrev good : {A : Type 0} → A → Result Text (CfResponse A)
good a = ok (record { success = true; errors = []; result = some a })

abbrev small_provider : Provider (List DnsRecord)
small_provider = record {
  send = λ token q rs. small_send q rs;
  parse_records = λ body. good (from_letters body);
  parse_record = λ body. good ns_record;
  parse_zone = λ body. good (codes "example.com");
  parse_value = λ body. good tt;
}

abbrev client : CfClient
client = new_client (codes "token") (codes "zone")
