-- ===== src/Scheduler/Tiers.antt =====
-- crates/panel/src/scheduler.rs: which nodes are included, softly excluded and hard excluded.
use multi_proxy.Prelude.{
  ℕ, ◌≡◌, ◌↔◌, Bool, true, false, not, ◌&&◌, ◌||◌, Option, none, some, arith, leb, ltb,
}
use multi_proxy.Contract.Model.{FrontNode, available, hard_excluded}
use multi_proxy.Contract.Snapshot.{is_included, is_soft, is_hard}
use multi_proxy.Scheduler.Health.{
  NodeRuntime, is_fresh, is_saturated, threshold, classify_node, availability_state_for,
}

-- In contact, forwarding, and with a backend in reach.
abbrev pub healthy : NodeRuntime → ℕ → ℕ → Bool
healthy rt now_ms heartbeat =
    is_fresh rt now_ms heartbeat && (rt.forwarding_up && rt.backend_reachable)

-- A quota is set and `pct` percent of it is used.
abbrev over_quota : Option ℕ → ℕ → ℕ → Bool
over_quota none pct usage = false
over_quota (some quota) pct usage = ltb 0 quota && leb (threshold quota pct) usage

abbrev pub over : FrontNode → NodeRuntime → ℕ → Bool
over node rt pct = over_quota node.traffic_quota_bytes pct rt.capacity.accumulated_usage_bytes

-- A node is included exactly if it is healthy, below both quota marks and not saturated; it is hard
-- excluded exactly if it is not healthy or at its hard mark; and the availability state that is stored
-- for it says the same.
pub classify_node_tiers :
    (node : FrontNode) (rt : NodeRuntime) (now_ms heartbeat : ℕ)
    → (is_included (classify_node node rt now_ms heartbeat) ≡ (
        healthy rt now_ms heartbeat
        && (not (over node rt node.hard_quota_pct)
            && (not (over node rt node.soft_quota_pct) && not (is_saturated rt.saturation)))))
      × (is_hard (classify_node node rt now_ms heartbeat)
          ≡ (not (healthy rt now_ms heartbeat) || over node rt node.hard_quota_pct))
      × ((availability_state_for (classify_node node rt now_ms heartbeat) ≡ available)
          ↔ (is_included (classify_node node rt now_ms heartbeat) ≡ true))
      × ((availability_state_for (classify_node node rt now_ms heartbeat) ≡ hard_excluded)
          ↔ (is_hard (classify_node node rt now_ms heartbeat) ≡ true))
unfolding classify_node availability_state_for is_included is_hard is_soft
classify_node_tiers node rt now_ms heartbeat = ground arith
