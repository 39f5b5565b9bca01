-- ===== src/Dns/Answer.antt =====
-- crates/panel/src/dns/answer.rs: from a client's address and a name to the addresses to serve.
-- The geographic lookup is the argument `lookup`; the trace for the panel's page is left out, since no
-- decision reads it. An IPv4 address is the number it is.
use multi_proxy.Prelude.{
  ℕ, ◌+◌, ◌/◌, Bool, true, false, ◌&&◌, ◌||◌, List, [], ◌∷◌, Option, none, some, Text, ends_with,
  text_leb, ◌==◌, nat_eq, list_eq, ltb, nat_beq, if◌then◌else◌, filter, find, filter_map,
}
use multi_proxy.Prelude.Int.{ℤ, pos, ◌+ℤ◌, scale, leb_ℤ, rem_euclid}
use multi_proxy.Prelude.Sort.{sort_by}
use multi_proxy.Contract.Isp.{Isp, isp_eq}
use multi_proxy.Contract.Model.{
  IpAddr, v4, v6, Region, TimeWindow, LineGroup, DnsZone, window_contains,
}
use multi_proxy.Contract.Snapshot.{AvailabilitySnapshot, available_for, fallback_for}

pub data Resolution : Type 0 where
  answer : List ℕ → Resolution
  serv_fail : Resolution

abbrev pub region_ok : Option ℕ → Region → Bool
region_ok none region = true
region_ok (some p) region = p == region.province_code

abbrev pub isp_ok : Option Isp → Isp → Bool
isp_ok none isp = true
isp_ok (some i) isp = i == isp

unfoldable pub matches : Region → Isp → LineGroup → Bool
matches region isp g = region_ok g.match_region region && isp_ok g.match_isp isp

abbrev pub one_if_some : {A : Type 0} → Option A → ℕ
one_if_some none = 0
one_if_some (some x) = 1

abbrev pub specificity : LineGroup → ℕ
specificity g = one_if_some g.match_region + one_if_some g.match_isp

abbrev pub beq_ℤ : ℤ → ℤ → Bool
beq_ℤ a b = leb_ℤ a b && leb_ℤ b a

-- The comparison of the sort, as the test that it is not `Greater`.
unfoldable pub not_after : LineGroup → LineGroup → Bool
not_after a b =
    if ltb (specificity b) (specificity a)
    then true
    else (if nat_beq (specificity b) (specificity a)
        then (if leb_ℤ a.priority b.priority
            then (if leb_ℤ b.priority a.priority then text_leb a.id b.id else true)
            else false)
        else false)

abbrev pub first : {A : Type 0} → List A → Option A
first [] = none
first (x ∷ xs) = some x

unfoldable pub match_line_group : List LineGroup → Region → Isp → Option LineGroup
unfolding matches not_after
match_line_group groups region isp = first (sort_by not_after (filter (matches region isp) groups))

-- `now_ms` is below 2^64, so the cast of the seconds to i64 keeps them.
unfoldable pub local_minute_of_day : ℕ → ℤ → ℕ
unfolding scale ◌+ℤ◌ rem_euclid
local_minute_of_day now_ms tz_offset_min =
    rem_euclid (pos (now_ms / 1000) +ℤ scale tz_offset_min 60) 86400 / 60

unfoldable pub ipv4 : IpAddr → Option ℕ
ipv4 (v4 a) = some a
ipv4 (v6 a) = none

unfoldable pub ipv4_only : List IpAddr → List ℕ
unfolding ipv4
ipv4_only ips = filter_map ipv4 ips

abbrev pub zone_id_of : Option DnsZone → Option Text
zone_id_of none = none
zone_id_of (some z) = some z.id

-- The zone that a query falls in.
unfoldable pub matched_zone : List DnsZone → Text → Option DnsZone
matched_zone zones query_name =
    find (λ (z : DnsZone). ends_with query_name z.apex_domain || query_name == z.apex_domain) zones

abbrev pub in_zone : Option Text → Option Text → Bool
in_zone (some gz) (some qz) = gz == qz
in_zone none zone_id = true
in_zone (some gz) none = false

abbrev pub in_window : Option TimeWindow → ℕ → Bool
in_window none now_min = true
in_window (some w) now_min = window_contains w now_min

-- The groups of the zone that are active now.
unfoldable pub time_active : List LineGroup → Option Text → ℕ → List LineGroup
unfolding window_contains
time_active groups zone_id now_min =
    filter (λ (g : LineGroup). in_window g.active_window now_min)
      (filter (λ (g : LineGroup). in_zone g.zone_id zone_id) groups)

-- `Option::or`.
abbrev pub or_else : Option Text → Option Text → Option Text
or_else none later = later
or_else (some s) later = some s

abbrev pub fallback_group_of : AvailabilitySnapshot → LineGroup → Option Text
fallback_group_of snapshot g = or_else (fallback_for snapshot g.id) g.fallback_group

-- An answer, unless there is nothing to serve.
abbrev pub answer_or : Resolution → List ℕ → Resolution
answer_or later [] = later
answer_or later (ip ∷ ips) = answer (ip ∷ ips)

-- The second attempt, with the fallback group.
unfoldable pub resolve_fallback : AvailabilitySnapshot → Option Text → Resolution
resolve_fallback snapshot none = serv_fail
resolve_fallback snapshot (some fb) = answer_or serv_fail (ipv4_only (available_for snapshot fb))

unfoldable pub resolve_group : AvailabilitySnapshot → Option LineGroup → Resolution
unfolding resolve_fallback
resolve_group snapshot none = serv_fail
resolve_group snapshot (some g) =
    answer_or (resolve_fallback snapshot (fallback_group_of snapshot g))
      (ipv4_only (available_for snapshot g.id))

module _ (lookup : IpAddr → Region × Isp) where
  -- The groups that a query may be served from, before the match.
  abbrev pub candidates : List LineGroup → List DnsZone → Text → ℕ → List LineGroup
  candidates groups zones query_name now_min =
      time_active groups (zone_id_of (matched_zone zones query_name)) now_min

  unfoldable pub resolve_traced :
      List LineGroup → List DnsZone → AvailabilitySnapshot → IpAddr → Text → ℕ → Resolution
  unfolding time_active matched_zone match_line_group resolve_group
  resolve_traced groups zones snapshot client_addr query_name now_min =
      let (region, isp) = lookup client_addr in
      resolve_group snapshot
        (match_line_group (candidates groups zones query_name now_min) region isp)

  -- `resolve`, which records the trace as well.
  unfoldable pub resolve :
      List LineGroup → List DnsZone → AvailabilitySnapshot → IpAddr → Text → ℕ → Resolution
  unfolding resolve_traced
  resolve groups zones snapshot client_addr query_name now_min =
      resolve_traced groups zones snapshot client_addr query_name now_min
