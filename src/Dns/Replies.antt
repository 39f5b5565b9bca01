-- ===== src/Dns/Replies.antt =====
-- crates/panel/src/dns/handler.rs: what every reply of the handler satisfies.
use multi_proxy.Prelude.{
  ℕ, ◌≡◌, refl, subst, ◌⊎◌, inl, inr, List, [], ◌∷◌, Option, none, some, Text, All, map, Bool-cases,
  ◌==◌, nat_eq, list_eq, get,
}
use multi_proxy.Contract.Isp.{Isp}
use multi_proxy.Contract.Model.{IpAddr, v4, Region, DnsZone}
use multi_proxy.Scheduler.Build.{Inputs, build_snapshot}
use multi_proxy.Dns.Answer.{Resolution, answer, serv_fail, resolve, local_minute_of_day}
use multi_proxy.Dns.Serving.{ServesSome, resolve-serves}
use multi_proxy.Dns.Ecs.{Edns, ecs_from_edns, client_network}
use multi_proxy.Dns.Zone.{served_zone, zone_ttl, apex_of}
use multi_proxy.Dns.ZoneRecords.{
  Record, RData, bind, zone_name, zone_soa_data, ns_record, ns_records_at, zone_ns_records,
  zone_soa_record, zone_negative_soa_record,
}
use multi_proxy.Dns.Handler.{
  RecordType, Query, Request, Reply, servfail, records, GeoDnsHandler, handle_request, handle_query,
  reply_to, reply_for, address_reply, address_record, zone_answers, apex_records, challenge_answers,
  txt_record, one_or_none, authorities_for, query_name, response_edns,
}

module _ {Name : Type 0} where
  -- An address in a record satisfies the predicate.
  abbrev pub AddressIs : (ℕ → Type 0) → RData Name → Type 0
  AddressIs P (RData.a ip) = P ip
  AddressIs P _ = Unit

  abbrev pub RecordIs : (ℕ → Type 0) → Record Name → Type 0
  RecordIs P r = AddressIs P r.rdata

  -- A reply fails, or it has no records or no authorities, and each address in them satisfies the
  -- predicate.
  abbrev pub ReplyIs : (ℕ → Type 0) → Reply Name → Type 0
  ReplyIs P (servfail edns) = Unit
  ReplyIs P (records edns answers authorities) =
      ((answers ≡ []) ⊎ (authorities ≡ []))
      × All (RecordIs P) answers
      × All (RecordIs P) authorities

module _ (P : ℕ → Type 0) (Name : Type 0) (from_ascii : Text → Option Name) where
  bind-All :
      {A B : Type 0} (o : Option A) (f : A → Option B) (Q : B → Type 0)
      → ((x : A) → All Q (one_or_none (f x)))
      → All Q (one_or_none (bind o f))
  bind-All none f Q h = tt
  bind-All (some x) f Q h = h x

  ns_records-All :
      (zone : DnsZone) (owner : Name) (hosts : List Name)
      → All (RecordIs P) (map (ns_record Name from_ascii zone owner) hosts)
  unfolding ns_record
  ns_records-All zone owner [] = tt
  ns_records-All zone owner (host ∷ hosts) = (tt, ns_records-All zone owner hosts)

  ns_records_at-All :
      (zone : DnsZone) (o : Option Name) → All (RecordIs P) (ns_records_at Name from_ascii zone o)
  ns_records_at-All zone none = tt
  ns_records_at-All zone (some owner) = ns_records-All zone owner _

  zone_soa_record-All :
      (zone : DnsZone) (ttl : ℕ)
      → All (RecordIs P) (one_or_none (zone_soa_record Name from_ascii zone ttl))
  unfolding zone_soa_record
  zone_soa_record-All zone ttl =
      bind-All (zone_name Name from_ascii zone) _ (RecordIs P)
        λ owner. bind-All (zone_soa_data Name from_ascii zone) _ (RecordIs P) λ fields. (tt, tt)

  negative_soa-All :
      (zone : DnsZone)
      → All (RecordIs P) (one_or_none (zone_negative_soa_record Name from_ascii zone))
  unfolding zone_negative_soa_record
  negative_soa-All zone =
      bind-All (zone_soa_data Name from_ascii zone) _ (RecordIs P)
        λ fields. bind-All (zone_name Name from_ascii zone) _ (RecordIs P) λ owner. (tt, tt)

module _ (P : ℕ → Type 0) (Name : Type 0) (from_ascii : Text → Option Name) (to_ascii : Name → Text)
    (lookup : IpAddr → Region × Isp) where
  with_authorities-ReplyIs :
      (edns : Option Edns) (answers : List (Record Name)) (matched : Option DnsZone)
      → All (RecordIs P) answers
      → ReplyIs P
          (records edns answers (authorities_for Name from_ascii to_ascii lookup answers matched))
  with_authorities-ReplyIs edns [] matched a = (
    inl refl,
    tt,
    bind-All P Name from_ascii matched (zone_negative_soa_record Name from_ascii) (RecordIs P)
        (negative_soa-All P Name from_ascii),
  )
  with_authorities-ReplyIs edns (r ∷ rs) matched a = (inr refl, a, tt)

  apex_records-All :
      (qtype : RecordType) (zone : DnsZone)
      → All (RecordIs P) (apex_records Name from_ascii to_ascii lookup qtype zone)
  unfolding zone_ns_records
  apex_records-All RecordType.ns zone =
      ns_records_at-All P Name from_ascii zone (zone_name Name from_ascii zone)
  apex_records-All RecordType.soa zone = zone_soa_record-All P Name from_ascii zone (zone_ttl zone)
  apex_records-All RecordType.a zone = tt
  apex_records-All RecordType.txt zone = tt
  apex_records-All RecordType.other zone = tt

  zone_answers-All :
      (qtype : RecordType) (matched : Option DnsZone) (name : Text)
      → All (RecordIs P) (zone_answers Name from_ascii to_ascii lookup qtype matched name)
  unfolding zone_answers
  zone_answers-All qtype none name = tt
  zone_answers-All qtype (some zone) name = elim (Bool-cases (apex_of zone == name)) [
    | inl e ↦ rw e (apex_records-All qtype zone)
    | inr e ↦ rw e tt
  ]

  txt_record-All :
      (name : Name) (o : Option Text)
      → All (RecordIs P) (txt_record Name from_ascii to_ascii lookup name o)
  txt_record-All name none = tt
  txt_record-All name (some value) = (tt, tt)

  addresses-All :
      (name : Name) (ttl : ℕ) (ips : List ℕ)
      → All P ips
      → All (RecordIs P) (map (address_record Name from_ascii to_ascii lookup name ttl) ips)
  addresses-All name ttl [] a = tt
  addresses-All name ttl (ip ∷ ips) a = (a.0, addresses-All name ttl ips a.1)

  address_reply-ReplyIs :
      (edns : Option Edns) (name : Name) (ttl : ℕ) (r : Resolution)
      → ((ips : List ℕ) → r ≡ answer ips → All P ips)
      → ReplyIs P (address_reply Name from_ascii to_ascii lookup edns name ttl r)
  unfolding address_reply
  address_reply-ReplyIs edns name ttl (answer ips) h =
      (inr refl, addresses-All name ttl ips (h ips refl), tt)
  address_reply-ReplyIs edns name ttl serv_fail h = tt

  -- Whatever the resolver answers with satisfies the predicate.
  abbrev pub ResolvesTo : GeoDnsHandler → Type 0
  ResolvesTo h =
      (client : IpAddr) (name : Text) (now_min : ℕ) (ips : List ℕ)
      → resolve lookup h.groups h.zones h.snapshot client name now_min ≡ answer ips
      → All P ips

  reply_for-ReplyIs :
      (h : GeoDnsHandler) (edns : Option Edns) (client : IpAddr) (now_ms : ℕ) (name : Name)
      (matched : Option DnsZone) (qtype : RecordType)
      → ResolvesTo h
      → ReplyIs P
          (reply_for Name from_ascii to_ascii lookup h edns client now_ms name matched qtype)
  unfolding reply_for challenge_answers
  reply_for-ReplyIs h edns client now_ms name matched RecordType.ns ok =
      let q = query_name Name from_ascii to_ascii lookup name in
      with_authorities-ReplyIs edns
        (zone_answers Name from_ascii to_ascii lookup RecordType.ns matched q) matched
        (zone_answers-All RecordType.ns matched q)
  reply_for-ReplyIs h edns client now_ms name matched RecordType.soa ok =
      let q = query_name Name from_ascii to_ascii lookup name in
      with_authorities-ReplyIs edns
        (zone_answers Name from_ascii to_ascii lookup RecordType.soa matched q) matched
        (zone_answers-All RecordType.soa matched q)
  reply_for-ReplyIs h edns client now_ms name matched RecordType.txt ok =
      let value = get (query_name Name from_ascii to_ascii lookup name) h.challenges in
      with_authorities-ReplyIs edns (txt_record Name from_ascii to_ascii lookup name value) matched
        (txt_record-All name value)
  reply_for-ReplyIs h edns client now_ms name matched RecordType.other ok =
      with_authorities-ReplyIs edns [] matched tt
  reply_for-ReplyIs h edns client now_ms name matched RecordType.a ok =
      let q = query_name Name from_ascii to_ascii lookup name in
      let now_min = local_minute_of_day now_ms h.tz_offset_min in
      address_reply-ReplyIs edns name h.ttl
        (resolve lookup h.groups h.zones h.snapshot client q now_min) (ok client q now_min)

  handle_query-ReplyIs :
      (h : GeoDnsHandler) (request : Request Name) (now_ms : ℕ) (o : Option (Query Name))
      → ResolvesTo h
      → ReplyIs P (handle_query Name from_ascii to_ascii lookup h request now_ms o).0
  unfolding reply_to
  handle_query-ReplyIs h request now_ms none ok = tt
  handle_query-ReplyIs h request now_ms (some q) ok =
      let ecs = ecs_from_edns request.edns in
      reply_for-ReplyIs h (response_edns request.edns request.max_payload ecs)
        (client_network ecs request.src).addr now_ms q.name
        (served_zone h.zones (query_name Name from_ascii to_ascii lookup q.name)) q.query_type ok

module _ (Name : Type 0) (from_ascii : Text → Option Name) (to_ascii : Name → Text)
    (lookup : IpAddr → Region × Isp) (parse_ip : Text → Option IpAddr) (x : Inputs) where
  -- If the handler's snapshot was built from its line groups, every reply, to whatever request, is a
  -- failure, or it never has both records and authorities, and may have neither; and every address in a
  -- record of it is that of a known member node of one of the groups that is neither unhealthy nor over its hard quota.
  pub handle_request-serves :
      (h : GeoDnsHandler) (request : Request Name) (now_ms generation : ℕ)
      → h.snapshot ≡ build_snapshot parse_ip x h.groups generation
      → ReplyIs
          (λ ip. ServesSome parse_ip x h.groups (v4 ip))
          (handle_request Name from_ascii to_ascii lookup h request now_ms).0
  unfolding handle_request
  handle_request-serves h request now_ms generation built =
      handle_query-ReplyIs (λ ip. ServesSome parse_ip x h.groups (v4 ip)) Name from_ascii to_ascii
        lookup h request now_ms request.query
        λ client name now_min ips e.
          resolve-serves parse_ip x lookup h.groups h.zones generation client name now_min ips (
            subst (λ s. resolve lookup h.groups h.zones s client name now_min ≡ answer ips) built e)
