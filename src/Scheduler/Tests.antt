-- ===== src/Scheduler/Tests.antt =====
-- crates/panel/src/scheduler.rs: the theorems at small inputs.
use multi_proxy.Prelude.{
  ℕ, ◌+◌, ◌≤◌, ◌≡◌, refl, ◌↔◌, inl, inr, true, false, not, ◌&&◌, ◌||◌, List, [], ◌∷◌, Option, none,
  some, Text, codes, Any, Member, arith, get,
}
use multi_proxy.Prelude.Equality.{list_beq}
use multi_proxy.Prelude.Int.{pos}
use multi_proxy.Contract.Isp.{telecom}
use multi_proxy.Contract.Model.{
  FrontNode, LineGroup, IpAddr, v4, tx_only, both, SaturationState, NodeStatus, available,
  hard_excluded,
}
use multi_proxy.Contract.Protocol.{nic_delta}
use multi_proxy.Contract.Snapshot.{
  hard_quota, soft_quota, available_for, is_included, is_soft, is_hard, select_available,
}
use multi_proxy.Contract.Snapshot.Selection.{Classified, select_available_tiers}
use multi_proxy.Scheduler.Capacity.{CapacityState}
use multi_proxy.Scheduler.Saturation.{
  debounced, saturation, high, low, counts, Short, debounced-refines,
}
use multi_proxy.Scheduler.Usage.{
  Accounting, Event, relayed, restarted, reported, happen, happens, used, traffic, used-le-traffic,
  used_exact,
}
use multi_proxy.Scheduler.Health.{
  NodeRuntime, default_runtime, classify_node, availability_state_for,
}
use multi_proxy.Scheduler.Tiers.{healthy, over, classify_node_tiers}
use multi_proxy.Scheduler.Build.{Inputs, build_snapshot, address}
use multi_proxy.Scheduler.Serving.{AtKind, SomeAtKind, build_snapshot_serves}

abbrev busy_history : List ℕ
busy_history = 12000000 ∷ 12000000 ∷ 12000000 ∷ []

debounced-refines_example :
    (debounced 100 busy_history
      ≡ counts (saturation 100 busy_history) (high 100 busy_history) (low 100 busy_history))
    × Short (saturation 100 busy_history) (high 100 busy_history) (low 100 busy_history)
debounced-refines_example = debounced-refines 100 busy_history (omega arith)

abbrev cold_panel : CapacityState
cold_panel = record {
  accumulated_usage_bytes = 10;
  counter_epoch = 0;
  last_tx_bytes_total = 0;
  last_rx_bytes_total = 0;
  has_counter_baseline = false;
}

abbrev cold : Accounting
cold = record { epoch = 7; tx = 50; rx = 60; real_tx = 0; real_rx = 0; panel = cold_panel }

abbrev day : List Event
day =
    reported nic_delta 0
    ∷ relayed 5 5
    ∷ reported nic_delta 1
    ∷ restarted 7
    ∷ relayed 100 1
    ∷ reported nic_delta 2
    ∷ []

used-le-traffic_example :
    used (happen both cold day)
    ≤ 10 + traffic both (happen both cold day).real_tx (happen both cold day).real_rx
used-le-traffic_example =
    used-le-traffic both cold day (record { no_baseline = refl; no_tx = refl; no_rx = refl })

abbrev warm : Accounting
warm = record cold {
  panel = record cold_panel {
    counter_epoch = 7;
    last_tx_bytes_total = 50;
    last_rx_bytes_total = 60;
    has_counter_baseline = true;
  };
}

abbrev steady_day : List Event
steady_day = relayed 5 5 ∷ reported nic_delta 1 ∷ relayed 100 1 ∷ []

used_exact_example :
    used (happens tx_only (happen tx_only warm steady_day) (reported nic_delta 2)) ≡ 115
used_exact_example =
    used_exact tx_only 10 warm steady_day nic_delta 2
      (record {
        baseline = refl;
        same_epoch = refl;
        tx_behind = omega arith;
        rx_behind = omega arith;
        exact = refl;
      })
      tt (omega arith)

abbrev pub node_a : FrontNode
node_a = record {
  id = codes "a";
  name = codes "a";
  public_ip = codes "1.2.3.4";
  region = record { division_code = 0; province_code = 0 };
  isp = telecom;
  status = NodeStatus.online;
  last_seen = 0;
  desired_config_gen = 1;
  applied_config_gen = 1;
  bandwidth_cap_mbps = none;
  traffic_quota_bytes = some 1000;
  quota_direction = both;
  quota_reset_day = none;
  soft_quota_pct = 90;
  hard_quota_pct = 100;
  accumulated_usage_bytes = 0;
  current_throughput_bps = 0;
  saturation_state = SaturationState.normal;
  availability_state = available;
}

abbrev pub live : NodeRuntime
live = record default_runtime {
  last_contact_ms = 1000;
  forwarding_up = true;
  backend_reachable = true;
  connected = true;
}

classify_node_tiers_example :
    (is_included (classify_node node_a live 2000 10) ≡ (
      healthy live 2000 10 && (not (over node_a live 100) && (not (over node_a live 90) && true))))
    × (is_hard (classify_node node_a live 2000 10)
        ≡ (not (healthy live 2000 10) || over node_a live 100))
    × ((availability_state_for (classify_node node_a live 2000 10) ≡ available)
        ↔ (is_included (classify_node node_a live 2000 10) ≡ true))
    × ((availability_state_for (classify_node node_a live 2000 10) ≡ hard_excluded)
        ↔ (is_hard (classify_node node_a live 2000 10) ≡ true))
classify_node_tiers_example = classify_node_tiers node_a live 2000 10

abbrev mixed : Classified
mixed = (v4 1, hard_quota) ∷ (v4 2, soft_quota) ∷ []

select_available_tiers_example : Member (v4 2) (select_available mixed)
unfolding is_included is_soft
select_available_tiers_example =
    ((select_available_tiers mixed).1
        (elim [ inl e ↦ cc | inr m ↦ elim m [ inl e ↦ cc | inr z ↦ z ] ]) (v4 2)).1
      (inr (inl (refl, refl)))

abbrev pub the_group : LineGroup
the_group = record {
  id = codes "g";
  name = codes "g";
  zone_id = none;
  match_region = none;
  match_isp = none;
  member_node_ids = codes "gone" ∷ codes "a" ∷ [];
  priority = pos 1;
  fallback_group = some (codes "f");
  active_window = none;
}

abbrev pub inputs : Inputs
inputs = record {
  nodes = (codes "a", node_a) ∷ [];
  runtimes = (codes "a", live) ∷ [];
  now_ms = 2000;
  heartbeat_interval = 10;
}

abbrev pub parse_fixed : Text → Option IpAddr
parse_fixed t = some (v4 5)

a_included : SomeAtKind parse_fixed inputs is_included (codes "a")
unfolding get list_beq address classify_node is_included
a_included = (v4 5, (node_a, refl, refl, refl))

build_snapshot_serves_example :
    let s = build_snapshot parse_fixed inputs (the_group ∷ []) 3 in
    Member (v4 5) (available_for s (codes "g"))
    ↔ Any (AtKind parse_fixed inputs is_included (v4 5)) the_group.member_node_ids
build_snapshot_serves_example =
    (build_snapshot_serves parse_fixed inputs (the_group ∷ []) the_group 3 (tt, tt) (inl refl)).0
      (inr (inl a_included)) (v4 5)
