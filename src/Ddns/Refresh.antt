-- ===== src/Ddns/Refresh.antt =====
-- crates/panel/src/ddns.rs: `refresh_all`, and the rebuild of the snapshot that it ends with
-- (rebuild_and_store_snapshot of crates/panel/src/ws_server.rs).
-- `lookup` tells what the lookup for the node of an id gets for a name. A list of nodes is none
-- where the database fails. No other task changes the runtimes while a refresh runs.
use multi_proxy.Prelude.{
  ℕ, ◌+◌, ◌%◌, ◌^◌, ◌≡◌, ◌↔◌, Bool, true, false, ◌||◌, List, [], ◌∷◌, Option, none, some, Text, map,
  get, insert, collect, ◌==◌, PartialEq, nat_eq, list_eq, option_eq, pair_eq, nat_beq,
  if◌then◌else◌, arith, max, trim, parse_unsigned, u64_max,
}
use multi_proxy.Contract.Model.{FrontNode, LineGroup, IpAddr, v4, v6}
use multi_proxy.Contract.Snapshot.{AvailabilitySnapshot}
use multi_proxy.Scheduler.Health.{NodeRuntime}
use multi_proxy.Scheduler.Build.{runtime_or_default, build_snapshot}
use multi_proxy.Ddns.Address.{is_ip_literal, resolve_hostname_v4}

abbrev pub ip_beq : IpAddr → IpAddr → Bool
ip_beq (v4 a) (v4 b) = nat_beq a b
ip_beq (v4 a) (v6 b) = false
ip_beq (v6 a) (v4 b) = false
ip_beq (v6 a) (v6 b) = nat_beq a b

pub ip_beq_iff : (a b : IpAddr) → (ip_beq a b ≡ true) ↔ (a ≡ b)
ip_beq_iff (v4 a) (v4 b) = ground arith
ip_beq_iff (v4 a) (v6 b) = ((λ h. cc), λ h. cc)
ip_beq_iff (v6 a) (v4 b) = ((λ h. cc), λ h. cc)
ip_beq_iff (v6 a) (v6 b) = ground arith

instance abbrev pub ip_eq : PartialEq IpAddr
ip_eq = record { eq_iff = ip_beq_iff; eq = ip_beq }

-- The part of the shared state that a refresh reads and writes.
pub record Panel : Type 0 where
  pub runtimes : List (Text × NodeRuntime)
  pub groups : List LineGroup
  pub snapshot : AvailabilitySnapshot
  pub snapshot_gen : ℕ
  pub heartbeat_interval : ℕ

abbrev pub default_ddns_refresh_secs : ℕ
default_ddns_refresh_secs = 60

abbrev at_least_ten : Option ℕ → ℕ
at_least_ten none = default_ddns_refresh_secs
at_least_ten (some s) = max s 10

abbrev parsed_secs : Option Text → Option ℕ
parsed_secs none = none
parsed_secs (some v) = parse_unsigned u64_max (trim v)

-- From the value of the environment's variable, if it is set.
unfoldable pub refresh_interval_secs : Option Text → ℕ
unfolding parse_unsigned trim
refresh_interval_secs value = at_least_ten (parsed_secs value)

module _ (parse_ip : Text → Option IpAddr) where
  unfoldable pub rebuild_and_store_snapshot : Option (List FrontNode) → ℕ → Panel → Panel
  rebuild_and_store_snapshot none now s = s
  rebuild_and_store_snapshot (some nodes) now s =
      let gen = (s.snapshot_gen + 1) % 2 ^ 64 in
      record s {
        snapshot_gen = gen;
        snapshot =
            build_snapshot parse_ip
              record {
                nodes = collect (map (λ (n : FrontNode). (n.id, n)) nodes);
                runtimes = s.runtimes;
                now_ms = now;
                heartbeat_interval = s.heartbeat_interval;
              }
              s.groups gen;
      }

  module _ (lookup : Text → Text → Option (List IpAddr)) where
    abbrev pub write_resolved :
        Text
        → NodeRuntime
        → Text × IpAddr
        → List (Text × NodeRuntime)
        → Bool × List (Text × NodeRuntime)
    write_resolved id rt new rts =
        if rt.resolved == some new
        then (false, insert id rt rts)
        else (true, insert id (record rt { resolved = some new }) rts)

    abbrev pub cache_resolved :
        FrontNode → Option IpAddr → List (Text × NodeRuntime) → Bool × List (Text × NodeRuntime)
    cache_resolved node none rts = (false, rts)
    cache_resolved node (some ip) rts =
        write_resolved node.id (runtime_or_default (get node.id rts)) (node.public_ip, ip) rts

    -- One round of the loop, with whether it changed a resolved address.
    unfoldable pub refresh_node :
        FrontNode → List (Text × NodeRuntime) → Bool × List (Text × NodeRuntime)
    unfolding is_ip_literal resolve_hostname_v4 get insert
    refresh_node node rts =
        if is_ip_literal parse_ip node.public_ip
        then (false, rts)
        else cache_resolved node (resolve_hostname_v4 (lookup node.id) node.public_ip) rts

    unfoldable pub refresh_nodes :
        List FrontNode → List (Text × NodeRuntime) → Bool × List (Text × NodeRuntime)
    unfolding refresh_node
    refresh_nodes [] rts = (false, rts)
    refresh_nodes (node ∷ nodes) rts =
        let first = refresh_node node rts in
        let rest = refresh_nodes nodes first.1 in (first.0 || rest.0, rest.1)

    -- The nodes are listed once for the loop, and again, `reread`, for the rebuild.
    unfoldable pub refresh_all :
        Option (List FrontNode) → Option (List FrontNode) → ℕ → Panel → Panel
    unfolding refresh_nodes rebuild_and_store_snapshot
    refresh_all none reread now s = s
    refresh_all (some nodes) reread now s =
        let r = refresh_nodes nodes s.runtimes in
        let s' : Panel = record s { runtimes = r.1 } in
        if r.0 then rebuild_and_store_snapshot reread now s' else s'
