-- ===== src/Sampler.antt =====
-- crates/agent/src/capacity.rs: the sampling of byte counters, with its window of points.
-- An `Instant` is a number of nanoseconds. The rate of some bytes in a span is computed in floating point by
-- the source; it is the argument `rate`.
pub mod Window
pub mod Billing
pub mod NetDev
mod Tests
use multi_proxy.Prelude.{
  ℕ, ◌+◌, ◌-◌, ◌%◌, ◌^◌, Bool, true, false, List, [], ◌∷◌, ◌++◌, Option, none, some, ltb, nat_beq,
  if◌then◌else◌, saturating_add, u64_max,
}
use multi_proxy.Contract.Protocol.{Capacity, CapacitySource}

pub record CounterSample : Type 0 where
  pub tx_bytes_total : ℕ
  pub rx_bytes_total : ℕ

pub record WindowPoint : Type 0 where
  pub at : ℕ
  pub total_bytes : ℕ

pub record CapacityCollector : Type 0 where
  pub source : CapacitySource
  pub epoch : ℕ
  pub last : Option CounterSample
  pub window : List WindowPoint
  pub window_span : ℕ

unfoldable pub new_collector : CapacitySource → ℕ → ℕ → CapacityCollector
new_collector source boot_epoch window_span = record {
  source = source;
  epoch = boot_epoch;
  last = none;
  window = [];
  window_span = window_span;
}

abbrev pub total : CounterSample → ℕ
total s = saturating_add u64_max s.tx_bytes_total s.rx_bytes_total

-- Whether a sum went down since the last sample.
abbrev pub has_reset : Option CounterSample → CounterSample → Bool
has_reset none sample = false
has_reset (some prev) sample = ltb (total sample) (total prev)

-- `duration_since` is zero for a later instant.
abbrev pub is_stale : ℕ → ℕ → WindowPoint → Bool
is_stale now span p = ltb span (now - p.at)

-- The loop that drops the front while more than two points are left and the second is stale.
unfoldable pub evict : ℕ → ℕ → List WindowPoint → List WindowPoint
evict now span [] = []
evict now span (p ∷ []) = p ∷ []
evict now span (p ∷ q ∷ []) = p ∷ q ∷ []
evict now span (p ∷ q ∷ r ∷ ps) =
    if is_stale now span q then evict now span (q ∷ r ∷ ps) else p ∷ q ∷ r ∷ ps

unfoldable pub last_point : WindowPoint → List WindowPoint → WindowPoint
last_point p [] = p
last_point p (q ∷ ps) = last_point q ps

module _ (rate : ℕ → ℕ → ℕ) where
  -- The bytes between two points, by the time between them.
  abbrev pub rate_between : WindowPoint → WindowPoint → ℕ
  rate_between front back =
      if nat_beq (back.at - front.at) 0
      then 0
      else rate (back.total_bytes - front.total_bytes) (back.at - front.at)

  unfoldable pub window_throughput : List WindowPoint → ℕ
  unfolding last_point
  window_throughput [] = 0
  window_throughput (p ∷ ps) = rate_between p (last_point p ps)

  -- The collector with the point pushed and stale ones evicted.
  unfoldable pub observe_sample : CapacityCollector → ℕ → CounterSample → CapacityCollector
  unfolding evict
  observe_sample c now sample =
      let reset = has_reset c.last sample in
      let kept : List WindowPoint = if reset then [] else c.window in
      record c {
        epoch = if reset then (c.epoch + 1) % 2 ^ 64 else c.epoch;
        last = some sample;
        window =
            evict now c.window_span
              (kept ++ (record { at = now; total_bytes = total sample } ∷ []));
      }

  abbrev pub capacity_of : CapacityCollector → CounterSample → Capacity
  capacity_of c sample = record {
    counter_epoch = c.epoch;
    source = c.source;
    tx_bytes_total = sample.tx_bytes_total;
    rx_bytes_total = sample.rx_bytes_total;
    throughput_bps = window_throughput c.window;
  }

  -- With what the source reads at the time.
  unfoldable pub sample_at :
      CapacityCollector → ℕ → Option CounterSample → Option Capacity × CapacityCollector
  unfolding observe_sample window_throughput
  sample_at c now none = (none, c)
  sample_at c now (some sample) =
      let c' = observe_sample c now sample in (some (capacity_of c' sample), c')
