-- ===== src/Scheduler/Health.antt =====
-- crates/panel/src/scheduler.rs: the runtime of a node, its health reason and its classification.
use multi_proxy.Prelude.{
  ℕ, ◌+◌, ◌-◌, ◌*◌, ◌/◌, Bool, true, false, not, ◌&&◌, List, [], Option, none, some, Text,
  if◌then◌else◌, leb, ltb, nat_beq, u64_max, saturating_mul,
}
use multi_proxy.Contract.Model.{
  FrontNode, SaturationState, AvailabilityState, available, soft_excluded, hard_excluded,
  NodeStatus, IpAddr,
}
use multi_proxy.Contract.Protocol.{BackendHealth, ActiveBackend, StatusReport}
use multi_proxy.Contract.Snapshot.{
  ExclusionClass, included, soft_quota, hard_quota, unhealthy, is_included, is_soft,
}
use multi_proxy.Scheduler.Capacity.{CapacityState}

abbrev pub freshness_slack_secs : ℕ
freshness_slack_secs = 5

pub record NodeRuntime : Type 0 where
  pub last_contact_ms : ℕ
  pub forwarding_up : Bool
  pub backend_reachable : Bool
  pub connected : Bool
  pub capacity : CapacityState
  pub throughput_bps : ℕ
  pub saturation : SaturationState
  pub sat_enter_windows : ℕ
  pub sat_exit_windows : ℕ
  pub backend_health : List BackendHealth
  pub active_backends : List ActiveBackend
  pub resolved : Option (Text × IpAddr)

-- `NodeRuntime::default`.
abbrev pub default_runtime : NodeRuntime
default_runtime = record {
  last_contact_ms = 0;
  forwarding_up = false;
  backend_reachable = false;
  connected = false;
  capacity = record {
    accumulated_usage_bytes = 0;
    counter_epoch = 0;
    last_tx_bytes_total = 0;
    last_rx_bytes_total = 0;
    has_counter_baseline = false;
  };
  throughput_bps = 0;
  saturation = SaturationState.normal;
  sat_enter_windows = 0;
  sat_exit_windows = 0;
  backend_health = [];
  active_backends = [];
  resolved = none;
}

unfoldable pub freshness_window_secs : ℕ → ℕ
freshness_window_secs heartbeat = 2 * heartbeat + freshness_slack_secs

pub data HealthReason : Type 0 where
  ok offline forwarding_down backend_unreachable quota_hard quota_soft saturated : HealthReason

unfoldable pub exclusion_class : HealthReason → ExclusionClass
exclusion_class ok = included
exclusion_class offline = unhealthy
exclusion_class forwarding_down = unhealthy
exclusion_class backend_unreachable = unhealthy
exclusion_class quota_hard = hard_quota
exclusion_class quota_soft = soft_quota
exclusion_class saturated = ExclusionClass.saturated

unfoldable pub is_fresh : NodeRuntime → ℕ → ℕ → Bool
unfolding freshness_window_secs
is_fresh rt now_ms heartbeat =
    rt.connected && leb (now_ms - rt.last_contact_ms) (freshness_window_secs heartbeat * 1000)

abbrev pub is_saturated : SaturationState → Bool
is_saturated SaturationState.normal = false
is_saturated SaturationState.saturated = true

unfoldable pub threshold : ℕ → ℕ → ℕ
threshold quota pct = saturating_mul u64_max quota pct / 100

-- The reasons past the quota tests.
abbrev saturation_reason : SaturationState → HealthReason
saturation_reason SaturationState.normal = ok
saturation_reason SaturationState.saturated = saturated

unfoldable pub quota_reason : Option ℕ → ℕ → ℕ → ℕ → HealthReason → HealthReason
unfolding threshold
quota_reason none hard soft usage otherwise = otherwise
quota_reason (some quota) hard soft usage otherwise =
    if ltb 0 quota
    then (if leb (threshold quota hard) usage
        then quota_hard
        else if leb (threshold quota soft) usage
        then quota_soft
        else otherwise)
    else otherwise

unfoldable pub health_reason : FrontNode → NodeRuntime → ℕ → ℕ → HealthReason
unfolding is_fresh quota_reason
health_reason node rt now_ms heartbeat =
    if not (is_fresh rt now_ms heartbeat)
    then offline
    else if not rt.forwarding_up
    then forwarding_down
    else if not rt.backend_reachable
    then backend_unreachable
    else quota_reason node.traffic_quota_bytes node.hard_quota_pct node.soft_quota_pct
        rt.capacity.accumulated_usage_bytes (saturation_reason rt.saturation)

unfoldable pub classify_node : FrontNode → NodeRuntime → ℕ → ℕ → ExclusionClass
unfolding health_reason exclusion_class
classify_node node rt now_ms heartbeat = exclusion_class (health_reason node rt now_ms heartbeat)

unfoldable pub availability_state_for : ExclusionClass → AvailabilityState
unfolding is_included is_soft
availability_state_for class =
    if is_included class then available else if is_soft class then soft_excluded else hard_excluded

unfoldable pub is_quota_reset_day : Option ℕ → ℕ → Bool
is_quota_reset_day none day = false
is_quota_reset_day (some d) day = nat_beq d day

abbrev pub or_empty {ℓ} : {A : Type ℓ} → Option (List A) → List A
or_empty none = []
or_empty (some xs) = xs

unfoldable pub apply_status_report : {F : Type 0} → NodeRuntime → StatusReport F → ℕ → NodeRuntime
apply_status_report rt report now_ms = record rt {
  last_contact_ms = now_ms;
  connected = true;
  forwarding_up = report.forwarding_up;
  backend_reachable = report.backend_reachable;
  backend_health = or_empty report.backend_health;
  active_backends = or_empty report.active_backends;
}

unfoldable pub node_status_from_runtime : NodeRuntime → ℕ → ℕ → NodeStatus
unfolding freshness_window_secs
node_status_from_runtime rt now_ms heartbeat =
    if rt.connected && leb (now_ms - rt.last_contact_ms) (freshness_window_secs heartbeat * 1000)
    then NodeStatus.online
    else NodeStatus.offline
