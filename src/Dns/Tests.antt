-- ===== src/Dns/Tests.antt =====
-- crates/panel/src/dns: the resolver on small inputs, and the theorems at such inputs.
use multi_proxy.Prelude.{
  Text, ◌≡◌, refl, List, [], ◌∷◌, none, some, codes, filter, find, ends_with, list_beq, filter_map,
  get, collect, insert, Option,
}
use multi_proxy.Prelude.Int.{pos, negsuc}
use multi_proxy.Contract.Isp.{Isp, telecom}
use multi_proxy.Contract.Model.{IpAddr, v4, Region, LineGroup, DnsZone}
use multi_proxy.Contract.Snapshot.{AvailabilitySnapshot, available_for, select_available}
use multi_proxy.Scheduler.Build.{build_snapshot, classify_members, classify_member}
use multi_proxy.Scheduler.Health.{classify_node}
use multi_proxy.Prelude.Sort.{sort_by}
use multi_proxy.Scheduler.Tests.{the_group, inputs, parse_fixed}
use multi_proxy.Dns.ZoneMatching.{Longest, served_zone-Longest}
use multi_proxy.Dns.Zone.{served_zone, normalized_name}
use multi_proxy.Dns.Handler.{GeoDnsHandler, Request, RecordType, handle_request}
use multi_proxy.Dns.Replies.{ReplyIs, handle_request-serves}
use multi_proxy.Dns.Answer.{
  answer, match_line_group, local_minute_of_day, resolve, zone_id_of, matched_zone, ipv4_only,
}
use multi_proxy.Dns.Matching.{Best, match_line_group-Best}
use multi_proxy.Dns.Resolving.{FirstEnding, Outcome, resolve-Outcome}
use multi_proxy.Dns.Serving.{ServesSome}

abbrev guangdong : Region
guangdong = record { division_code = 440100; province_code = 44 }

-- For the province, in the evening only.
abbrev evening_group : LineGroup
evening_group = record the_group {
  id = codes "e";
  zone_id = some (codes "z");
  match_region = some 44;
  fallback_group = none;
  active_window = some (record { start_min = 1140; end_min = 60 });
}

abbrev groups : List LineGroup
groups = the_group ∷ evening_group ∷ []

abbrev zones : List DnsZone
zones =
    record {
      id = codes "z";
      apex_domain = codes "emby.example";
      soa = [];
      ns = [];
      default_ttl = 60;
    }
    ∷ []

abbrev lookup_fixed : IpAddr → Region × Isp
lookup_fixed ip = (guangdong, telecom)

abbrev built : AvailabilitySnapshot
built = build_snapshot parse_fixed inputs groups 3

best_is_evening : match_line_group groups guangdong telecom ≡ some evening_group
unfolding match_line_group sort_by filter
best_is_evening = refl

match_line_group-Best_example :
    Best groups guangdong telecom (match_line_group groups guangdong telecom)
match_line_group-Best_example = match_line_group-Best groups guangdong telecom

resolved_at_nine :
    resolve lookup_fixed groups zones built (v4 7) (codes "a.emby.example") 1260 ≡ answer (5 ∷ [])
unfolding resolve sort_by filter find ends_with list_beq ipv4_only filter_map available_for get
    build_snapshot collect insert select_available classify_members classify_member classify_node
resolved_at_nine = refl

resolve-Outcome_example :
    (zone_id : Option Text) × FirstEnding zones (codes "a.emby.example") zone_id
    × Outcome built groups zone_id 1260 guangdong telecom
        (resolve lookup_fixed groups zones built (v4 7) (codes "a.emby.example") 1260)
resolve-Outcome_example =
    resolve-Outcome lookup_fixed groups zones built (v4 7) (codes "a.emby.example") 1260

-- 20:00 at UTC is 04:00 the next day in China, and 15:00 five hours to the west.
local_minute_test :
    (local_minute_of_day 72000000 (pos 480) ≡ 240)
    × (local_minute_of_day 72000000 (negsuc 299) ≡ 900)
unfolding local_minute_of_day
local_minute_test = (refl, refl)

served_zone-Longest_example :
    Longest zones (codes "a.emby.example") (served_zone zones (codes "a.emby.example"))
served_zone-Longest_example = served_zone-Longest zones (codes "a.emby.example")

-- A name that only ends in the letters of a zone is not served by that zone, while the match of the
-- resolver takes it for a name of the zone.
no_boundary :
    (served_zone zones (codes "notemby.example") ≡ none)
    × (zone_id_of (matched_zone zones (codes "notemby.example")) ≡ some (codes "z"))
unfolding served_zone matched_zone normalized_name ends_with list_beq find filter
no_boundary = (refl, refl)

abbrev server : GeoDnsHandler
server = record {
  snapshot = built;
  groups = groups;
  zones = zones;
  ttl = 60;
  tz_offset_min = pos 480;
  ecs_hits = 0;
  ecs_misses = 0;
  challenges = [];
}

abbrev request_at : RecordType → Request Text
request_at qtype = record {
  query = some (record { name = codes "emby.example."; query_type = qtype });
  edns = none;
  max_payload = 1232;
  src = v4 7;
}

handle_request-serves_example :
    ReplyIs
      (λ ip. ServesSome parse_fixed inputs groups (v4 ip))
      (handle_request Text some (λ n. n) lookup_fixed server (request_at RecordType.a) 46800000).0
handle_request-serves_example =
    handle_request-serves Text some (λ n. n) lookup_fixed parse_fixed inputs server
      (request_at RecordType.a) 46800000 3 refl
