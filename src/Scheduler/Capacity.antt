-- ===== src/Scheduler/Capacity.antt =====
-- crates/panel/src/scheduler.rs and db.rs: the accounting of one capacity report, and the debounce of
-- the saturation state. Counters that the code updates through references are returned in a record.
use multi_proxy.Prelude.{
  ℕ, ◌-◌, ◌*◌, ◌/◌, Bool, true, false, not, ◌||◌, Option, none, some, if◌then◌else◌, ltb, leb,
  nat_beq, u8_max, u64_max, saturating_add, saturating_mul, min,
}
use multi_proxy.Contract.Model.{
  QuotaDirection, both, tx_only, rx_only, SaturationState, normal, saturated,
}
use multi_proxy.Contract.Protocol.{Capacity}

pub record CapacityState : Type 0 where
  pub accumulated_usage_bytes : ℕ
  pub counter_epoch : ℕ
  pub last_tx_bytes_total : ℕ
  pub last_rx_bytes_total : ℕ
  pub has_counter_baseline : Bool

abbrev pub sat_enter_pct : ℕ
sat_enter_pct = 85

abbrev pub sat_exit_pct : ℕ
sat_exit_pct = 70

abbrev pub sat_windows : ℕ
sat_windows = 3

-- The saturation state with its two window counters.
pub record Debounce : Type 0 where
  pub state : SaturationState
  pub enter_windows : ℕ
  pub exit_windows : ℕ

-- Mbps to bytes a second; the product of a u32 fits u64.
abbrev pub cap_bps : ℕ → ℕ
cap_bps mbps = mbps * 1000000 / 8

unfoldable pub percent : ℕ → ℕ → ℕ
percent throughput bps = min (saturating_mul u64_max throughput 100 / bps) 255

unfoldable pub debounce_pct : SaturationState → ℕ → ℕ → ℕ → Debounce
debounce_pct normal pct enter exit =
    let windows = if leb sat_enter_pct pct then saturating_add u8_max enter 1 else 0 in
    if leb sat_windows windows
    then record { state = saturated; enter_windows = 0; exit_windows = 0 }
    else record { state = normal; enter_windows = windows; exit_windows = 0 }
debounce_pct saturated pct enter exit =
    let windows = if ltb pct sat_exit_pct then saturating_add u8_max exit 1 else 0 in
    if leb sat_windows windows
    then record { state = normal; enter_windows = 0; exit_windows = 0 }
    else record { state = saturated; enter_windows = 0; exit_windows = windows }

unfoldable pub debounce_saturation : Debounce → ℕ → Option ℕ → Debounce
unfolding debounce_pct percent
debounce_saturation d throughput none = record {
  state = normal;
  enter_windows = 0;
  exit_windows = 0;
}
debounce_saturation d throughput (some mbps) =
    if nat_beq (cap_bps mbps) 0
    then record d { state = normal }
    else debounce_pct d.state (percent throughput (cap_bps mbps)) d.enter_windows d.exit_windows

pub record CapacityOutcome : Type 0 where
  pub state : CapacityState
  pub throughput_bps : ℕ
  pub saturation : Debounce
  pub reset_detected : Bool

-- `checked_sub`.
abbrev pub checked_sub : ℕ → ℕ → Option ℕ
checked_sub a b = if leb b a then some (a - b) else none

unfoldable pub billed : QuotaDirection → ℕ → ℕ → ℕ
billed both tx rx = saturating_add u64_max tx rx
billed tx_only tx rx = tx
billed rx_only tx rx = rx

-- New totals as the baseline of the next report.
abbrev pub rebase : CapacityState → Capacity → CapacityState
rebase s cap = record s {
  last_tx_bytes_total = cap.tx_bytes_total;
  last_rx_bytes_total = cap.rx_bytes_total;
}

-- The `match (tx_delta, rx_delta)`: the new state and whether a reset was seen.
unfoldable pub accumulate :
    CapacityState → Capacity → QuotaDirection → Option ℕ → Option ℕ → CapacityState × Bool
unfolding billed
accumulate prior cap direction none rx = (rebase prior cap, true)
accumulate prior cap direction (some tx) none = (rebase prior cap, true)
accumulate prior cap direction (some tx) (some rx) = (
  record (rebase prior cap) {
    accumulated_usage_bytes =
        saturating_add u64_max prior.accumulated_usage_bytes (billed direction tx rx);
  },
  false,
)

unfoldable pub account : CapacityState → Capacity → QuotaDirection → CapacityState × Bool
unfolding accumulate
account prior cap direction =
    if not prior.has_counter_baseline || not (nat_beq cap.counter_epoch prior.counter_epoch)
    then (
      record (rebase prior cap) { counter_epoch = cap.counter_epoch; has_counter_baseline = true },
      prior.has_counter_baseline,
    )
    else accumulate prior cap direction (checked_sub cap.tx_bytes_total prior.last_tx_bytes_total)
        (checked_sub cap.rx_bytes_total prior.last_rx_bytes_total)

unfoldable pub apply_capacity :
    CapacityState → Debounce → Option ℕ → Capacity → QuotaDirection → CapacityOutcome
unfolding account debounce_saturation
apply_capacity prior saturation_in bandwidth_cap_mbps cap direction =
    let (state, reset) = account prior cap direction in
    record {
      state = state;
      throughput_bps = cap.throughput_bps;
      saturation = debounce_saturation saturation_in cap.throughput_bps bandwidth_cap_mbps;
      reset_detected = reset;
    }
