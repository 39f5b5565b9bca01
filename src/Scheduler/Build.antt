-- ===== src/Scheduler/Build.antt =====
-- crates/panel/src/scheduler.rs: the build of the availability snapshot.
-- `parse_ip` is the address parser of the standard library, `str::parse::<IpAddr>`.
use multi_proxy.Prelude.{
  ℕ, List, Option, none, some, Text, ◌==◌, nat_eq, list_eq, get, collect, map, filter_map,
  if◌then◌else◌,
}
use multi_proxy.Contract.Model.{FrontNode, LineGroup, IpAddr}
use multi_proxy.Contract.Snapshot.{
  ExclusionClass, LineAvailability, AvailabilitySnapshot, select_available,
}
use multi_proxy.Scheduler.Health.{NodeRuntime, default_runtime, classify_node}

-- `unwrap_or_default` on a runtime.
abbrev pub runtime_or_default : Option NodeRuntime → NodeRuntime
runtime_or_default none = default_runtime
runtime_or_default (some rt) = rt

-- The cached address, if it was resolved from this host name.
abbrev pub resolved_for : Text → Option (Text × IpAddr) → Option IpAddr
resolved_for host none = none
resolved_for host (some (name, ip)) = if name == host then some ip else none

abbrev pub first_of_two : Option IpAddr → Option IpAddr → Option IpAddr
first_of_two none later = later
first_of_two (some ip) later = some ip

-- The nodes, their runtimes and the time that a build looks at.
pub record Inputs : Type 0 where
  pub nodes : List (Text × FrontNode)
  pub runtimes : List (Text × NodeRuntime)
  pub now_ms : ℕ
  pub heartbeat_interval : ℕ

module _ (parse_ip : Text → Option IpAddr) where
  unfoldable pub address : FrontNode → NodeRuntime → Option IpAddr
  address node rt = first_of_two (parse_ip node.public_ip) (resolved_for node.public_ip rt.resolved)

  abbrev pub classified_at : ExclusionClass → Option IpAddr → Option (IpAddr × ExclusionClass)
  classified_at class none = none
  classified_at class (some ip) = some (ip, class)

  abbrev pub classify_known :
      Option FrontNode → NodeRuntime → Inputs → Option (IpAddr × ExclusionClass)
  classify_known none rt x = none
  classify_known (some node) rt x =
      classified_at (classify_node node rt x.now_ms x.heartbeat_interval) (address node rt)

  -- One round of the loop over the members; `none` is its `continue`.
  unfoldable pub classify_member : Inputs → Text → Option (IpAddr × ExclusionClass)
  unfolding address
  classify_member x node_id =
      classify_known (get node_id x.nodes) (runtime_or_default (get node_id x.runtimes)) x

  unfoldable pub classify_members : Inputs → LineGroup → List (IpAddr × ExclusionClass)
  classify_members x g = filter_map (classify_member x) g.member_node_ids

  unfoldable pub build_line : Inputs → LineGroup → LineAvailability
  build_line x g = record {
    available = select_available (classify_members x g);
    fallback_group = g.fallback_group;
    classified = map (λ p. record { ip = p.0; class = p.1 }) (classify_members x g);
  }

  unfoldable pub build_snapshot : Inputs → List LineGroup → ℕ → AvailabilitySnapshot
  unfolding build_line
  build_snapshot x groups generation = record {
    generation = generation;
    built_at = x.now_ms;
    lines = collect (map (λ g. (g.id, build_line x g)) groups);
  }
