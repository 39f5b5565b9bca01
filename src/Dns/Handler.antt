-- ===== src/Dns/Handler.antt =====
-- crates/panel/src/dns/handler.rs: what the server replies to a request, and its counters.
-- The swapped inputs are read as the values they hold when the request comes; the clock and the
-- geographic lookup are arguments, and `Name` with its printer is that of the DNS library.
use multi_proxy.Prelude.{
  ℕ, ◌+◌, ◌%◌, ◌^◌, List, [], ◌∷◌, Option, none, some, Text, ◌==◌, nat_eq, list_eq, leb, u32_max,
  if◌then◌else◌, map, get,
}
use multi_proxy.Prelude.Int.{ℤ}
use multi_proxy.Contract.Isp.{Isp}
use multi_proxy.Contract.Model.{IpAddr, Region, LineGroup, DnsZone}
use multi_proxy.Contract.Snapshot.{AvailabilitySnapshot}
use multi_proxy.Dns.Answer.{Resolution, answer, serv_fail, resolve, local_minute_of_day}
use multi_proxy.Dns.Ecs.{ClientSubnet, Edns, ecs_from_edns, client_network, echo_scope}
use multi_proxy.Dns.Zone.{served_zone, normalized_name, zone_ttl, apex_of}
use multi_proxy.Dns.ZoneRecords.{
  Record, RData, zone_ns_records, zone_soa_record, zone_negative_soa_record, bind,
}

-- The record types that the handler tells apart.
pub data RecordType : Type 0 where
  a ns soa txt other : RecordType

pub record Query (Name : Type 0) : Type 0 where
  pub name : Name
  pub query_type : RecordType

pub record Request (Name : Type 0) : Type 0 where
  pub query : Option (Query Name)
  pub edns : Option Edns
  pub max_payload : ℕ
  pub src : IpAddr

pub data Reply (Name : Type 0) : Type 0 where
  servfail : Option Edns → Reply Name
  records : Option Edns → List (Record Name) → List (Record Name) → Reply Name

pub record GeoDnsHandler : Type 0 where
  pub snapshot : AvailabilitySnapshot
  pub groups : List LineGroup
  pub zones : List DnsZone
  pub ttl : ℕ
  pub tz_offset_min : ℤ
  pub ecs_hits : ℕ
  pub ecs_misses : ℕ
  pub challenges : List (Text × Text)

abbrev pub subnet_of : Option ClientSubnet → Option ClientSubnet
subnet_of none = none
subnet_of (some cs) = some (echo_scope cs)

unfoldable pub response_edns : Option Edns → ℕ → Option ClientSubnet → Option Edns
unfolding echo_scope
response_edns none max_payload query_ecs = none
response_edns (some edns) max_payload query_ecs = some (record {
  max_payload = max_payload;
  version = 0;
  dnssec_ok = edns.dnssec_ok;
  subnet = subnet_of query_ecs;
})

-- The counters wrap, as atomic additions do.
unfoldable pub count_ecs : GeoDnsHandler → Option ClientSubnet → GeoDnsHandler
count_ecs h (some cs) = record h { ecs_hits = (h.ecs_hits + 1) % 2 ^ 64 }
count_ecs h none = record h { ecs_misses = (h.ecs_misses + 1) % 2 ^ 64 }

abbrev pub one_or_none : {A : Type 0} → Option A → List A
one_or_none none = []
one_or_none (some x) = x ∷ []

module _ (Name : Type 0) (from_ascii : Text → Option Name) (to_ascii : Name → Text)
    (lookup : IpAddr → Region × Isp) where
  abbrev pub query_name : Name → Text
  query_name name = normalized_name (to_ascii name)

  -- Without records, the zone's SOA for negative caching.
  abbrev pub authorities_for : List (Record Name) → Option DnsZone → List (Record Name)
  authorities_for [] matched = one_or_none (bind matched (zone_negative_soa_record Name from_ascii))
  authorities_for (r ∷ rs) matched = []

  -- `send_records`, with the authority section of the three first answers.
  abbrev pub send_with_authorities : Option Edns → List (Record Name) → Option DnsZone → Reply Name
  send_with_authorities edns answers matched =
      records edns answers (authorities_for answers matched)

  -- The zone's own records, at its apex only.
  abbrev pub apex_records : RecordType → DnsZone → List (Record Name)
  apex_records RecordType.ns zone = zone_ns_records Name from_ascii zone
  apex_records RecordType.soa zone =
      one_or_none (zone_soa_record Name from_ascii zone (zone_ttl zone))
  apex_records _ zone = []

  unfoldable pub zone_answers : RecordType → Option DnsZone → Text → List (Record Name)
  unfolding zone_ttl
  zone_answers qtype none name = []
  zone_answers qtype (some zone) name = if apex_of zone == name then apex_records qtype zone else []

  abbrev pub txt_record : Name → Option Text → List (Record Name)
  txt_record name none = []
  txt_record name (some value) = record { owner = name; ttl = 60; rdata = RData.txt value } ∷ []

  unfoldable pub challenge_answers : GeoDnsHandler → Name → List (Record Name)
  challenge_answers h name = txt_record name (get (query_name name) h.challenges)

  -- `u32::try_from(ttl).unwrap_or(60)`.
  abbrev pub ttl_u32 : ℕ → ℕ
  ttl_u32 ttl = if leb ttl u32_max then ttl else 60

  abbrev pub address_record : Name → ℕ → ℕ → Record Name
  address_record name ttl ip = record { owner = name; ttl = ttl_u32 ttl; rdata = RData.a ip }

  unfoldable pub address_reply : Option Edns → Name → ℕ → Resolution → Reply Name
  address_reply edns name ttl (answer ips) = records edns (map (address_record name ttl) ips) []
  address_reply edns name ttl serv_fail = servfail edns

  -- The reply to a query; `client` is the address to locate, `matched` the zone of the name.
  unfoldable pub reply_for :
      GeoDnsHandler → Option Edns → IpAddr → ℕ → Name → Option DnsZone → RecordType → Reply Name
  unfolding zone_answers challenge_answers address_reply
  reply_for h edns client now_ms name matched RecordType.ns =
      send_with_authorities edns (zone_answers RecordType.ns matched (query_name name)) matched
  reply_for h edns client now_ms name matched RecordType.soa =
      send_with_authorities edns (zone_answers RecordType.soa matched (query_name name)) matched
  reply_for h edns client now_ms name matched RecordType.txt =
      send_with_authorities edns (challenge_answers h name) matched
  reply_for h edns client now_ms name matched RecordType.other =
      send_with_authorities edns [] matched
  reply_for h edns client now_ms name matched RecordType.a = address_reply edns name h.ttl (
      resolve lookup h.groups h.zones h.snapshot client (query_name name)
        (local_minute_of_day now_ms h.tz_offset_min))

  unfoldable pub reply_to : GeoDnsHandler → Option Edns → IpAddr → ℕ → Query Name → Reply Name
  unfolding reply_for
  reply_to h edns client now_ms q =
      reply_for h edns client now_ms q.name (served_zone h.zones (query_name q.name)) q.query_type

  abbrev pub handle_query :
      GeoDnsHandler → Request Name → ℕ → Option (Query Name) → Reply Name × GeoDnsHandler
  handle_query h request now_ms none =
      (servfail (response_edns request.edns request.max_payload none), h)
  handle_query h request now_ms (some q) =
      let ecs = ecs_from_edns request.edns in
      let edns = response_edns request.edns request.max_payload ecs in
      (reply_to h edns (client_network ecs request.src).addr now_ms q, count_ecs h ecs)

  unfoldable pub handle_request : GeoDnsHandler → Request Name → ℕ → Reply Name × GeoDnsHandler
  unfolding ecs_from_edns client_network response_edns count_ecs reply_to
  handle_request h request now_ms = handle_query h request now_ms request.query
