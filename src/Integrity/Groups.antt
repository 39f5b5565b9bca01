-- ===== src/Integrity/Groups.antt =====
-- crates/panel/src/dns_integrity.rs: the check of the line groups, and the policy and verdict of the self-test.
use multi_proxy.Prelude.{
  ℕ, Bool, true, false, not, ◌&&◌, ◌||◌, List, [], ◌∷◌, ◌++◌, Option, none, some, Text, codes, ◌==◌,
  nat_eq, list_eq, if◌then◌else◌, any, filter, find, is_some, decimal, length,
}
use multi_proxy.Contract.Model.{DnsZone, LineGroup, IpAddr, v4, v6}
use multi_proxy.Contract.Snapshot.{AvailabilitySnapshot, available_for, fallback_for}
use multi_proxy.Cloudflare.Records.{normalize_dns_name}
use multi_proxy.Integrity.Report.{CheckStatus, fine, attention, failed, CheckItem, push}
use multi_proxy.Dns.Answer.{in_window}

-- `response_code` is the number of the code; `answers` are addresses as numbers.
pub record ProbeResult : Type 0 where
  pub response_code : Option ℕ
  pub answers : List ℕ
  pub error : Option Text

pub record RoutePolicy : Type 0 where
  pub catch_all : Bool
  pub available_ipv4 : Bool

abbrev is_v4 : IpAddr → Bool
is_v4 (v4 n) = true
is_v4 (v6 n) = false

abbrev fallback_serves : AvailabilitySnapshot → Option Text → Bool
fallback_serves snapshot none = false
fallback_serves snapshot (some id) = any is_v4 (available_for snapshot id)

-- Whether a group, or its fallback, has an IPv4 address now.
unfoldable pub serves_ipv4 : AvailabilitySnapshot → LineGroup → Bool
unfolding any available_for fallback_for
serves_ipv4 snapshot g =
    any is_v4 (available_for snapshot g.id) || fallback_serves snapshot (fallback_for snapshot g.id)

abbrev pub is_catch_all : LineGroup → Bool
is_catch_all g = not (is_some g.match_region) && not (is_some g.match_isp)

abbrev pub for_zone : Text → Option Text → Bool
for_zone zone_id none = true
for_zone zone_id (some id) = id == zone_id

abbrev is_empty : List LineGroup → Bool
is_empty [] = true
is_empty (g ∷ gs) = false

abbrev found_groups : ℕ → Text
found_groups n = codes "找到 " ++ (decimal n ++ codes " 个适用线路组")

abbrev active_groups : ℕ → Text
active_groups n = codes "当前有 " ++ (decimal n ++ codes " 个线路组生效")

-- The items of a zone that has groups, by the groups that are active.
abbrev check_active :
    AvailabilitySnapshot → Text → ℕ → List LineGroup → List CheckItem → List CheckItem
check_active snapshot scope n active out =
    let found = push out (codes "line_group") scope fine (found_groups n) in
    let windowed =
      if is_empty active
      then push found (codes "line_group_active") scope attention (codes "适用线路组当前均不在生效时段")
      else push found (codes "line_group_active") scope fine (active_groups (length active)) in
    let served =
      if any (serves_ipv4 snapshot) active
      then push windowed (codes "line_group_ipv4") scope fine (codes "当前快照存在可用 IPv4 节点")
      else push windowed (codes "line_group_ipv4") scope attention (codes "当前生效线路组没有可用 IPv4 节点") in
    push served (codes "line_group_catch_all") scope fine (
      if any is_catch_all active
      then codes "存在始终适用的 catch-all 线路组"
      else codes "未配置 catch-all，未匹配客户端按策略 SERVFAIL")

unfoldable pub inspect_groups :
    ℕ → List DnsZone → List LineGroup → AvailabilitySnapshot → List CheckItem → List CheckItem
unfolding normalize_dns_name filter any push serves_ipv4 decimal
inspect_groups now [] groups snapshot out = out
inspect_groups now (z ∷ zones) groups snapshot out =
    let scope = normalize_dns_name z.apex_domain in
    let applicable = filter (λ (g : LineGroup). for_zone z.id g.zone_id) groups in
    let active = filter (λ (g : LineGroup). in_window g.active_window now) applicable in
    inspect_groups now zones groups snapshot (
      if is_empty applicable
      then push out (codes "line_group") scope attention (codes "没有适用于该域名的线路组")
      else check_active snapshot scope (length applicable) active out)

abbrev matches_zone : Option Text → Option Text → Bool
matches_zone (some group_zone) (some query_zone) = group_zone == query_zone
matches_zone none query_zone = true
matches_zone (some group_zone) none = false

abbrev id_of : Option DnsZone → Option Text
id_of none = none
id_of (some z) = some z.id

unfoldable pub route_policy_for_probe :
    ℕ → Text → List DnsZone → List LineGroup → AvailabilitySnapshot → RoutePolicy
unfolding normalize_dns_name filter find any serves_ipv4
route_policy_for_probe now child zones groups snapshot =
    let zone_id = id_of (find (λ (z : DnsZone). normalize_dns_name z.apex_domain == child) zones) in
    let active =
      filter (λ (g : LineGroup). in_window g.active_window now)
        (filter (λ (g : LineGroup). matches_zone g.zone_id zone_id) groups) in
    record {
      catch_all = any is_catch_all active;
      available_ipv4 = any (serves_ipv4 snapshot) active;
    }

abbrev pub no_error : ℕ
no_error = 0

abbrev pub servfail_code : ℕ
servfail_code = 2

abbrev pub has_code : ℕ → ProbeResult → Bool
has_code code probe = elim probe.response_code [ none ↦ false | some c ↦ c == code ]

abbrev has_answers : List ℕ → Bool
has_answers [] = false
has_answers (a ∷ answers) = true

unfoldable pub route_self_test_status : ProbeResult → ProbeResult → RoutePolicy → CheckStatus
route_self_test_status udp tcp policy =
    let route_ok =
      (has_code no_error udp && has_answers udp.answers)
      && (has_code no_error tcp && has_answers tcp.answers) in
    let expected_servfail =
      not policy.catch_all
      && policy.available_ipv4
      && has_code servfail_code udp
      && has_code servfail_code tcp in
    if route_ok || expected_servfail
    then fine
    else if is_some udp.response_code && is_some tcp.response_code
    then attention
    else failed

abbrev not_live : Bool → Text
not_live true = []
not_live false = codes "，runtime 未标记 live"

abbrev probe_message : (ℕ → Text) → Text → Bool → Option Text → Option ℕ → Text
probe_message debug id live (some e) code =
    codes "DNS " ++ (id ++ (codes " 探测失败" ++ (not_live live ++ (codes ": " ++ e))))
probe_message debug id live none (some code) =
    codes "DNS " ++ (id ++ (codes " 已响应: " ++ debug code))
probe_message debug id live none none = codes "DNS " ++ (id ++ codes " 未返回有效响应")

-- `{:?}` of a code is a parameter.
unfoldable pub push_probe_item :
    (ℕ → Text) → List CheckItem → Text → Text → ProbeResult → Bool → List CheckItem
unfolding push
push_probe_item debug out id scope probe live =
    push out id scope (if is_some probe.response_code then fine else failed)
      (probe_message debug id live probe.error probe.response_code)
