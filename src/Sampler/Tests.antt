-- ===== src/Sampler/Tests.antt =====
-- crates/agent/src/capacity.rs: runs on small inputs, and the theorems at such inputs.
use multi_proxy.Prelude.{
  ℕ, ◌/◌, ◌*◌, ◌-◌, ◌≡◌, ◌≤◌, refl, List, [], ◌∷◌, ◌++◌, some, All, Member, saturating_add, u64_max,
  codes, false, list_beq, arith,
}
use multi_proxy.Contract.Model.{both}
use multi_proxy.Contract.Protocol.{nic_delta}
use multi_proxy.Scheduler.Capacity.{CapacityState, billed}
use multi_proxy.Sampler.{
  CounterSample, WindowPoint, CapacityCollector, new_collector, total, observe_sample, sample_at,
}
use multi_proxy.Sampler.Window.{IsValid, Recent, kept, observe_sample-IsValid}
use multi_proxy.Sampler.Billing.{report_samples, growths, report_samples_usage}
use multi_proxy.Sampler.NetDev.{parse_proc_net_dev}

abbrev sample_of : ℕ → ℕ → CounterSample
sample_of tx rx = record { tx_bytes_total = tx; rx_bytes_total = rx }

abbrev per_second : ℕ → ℕ → ℕ
per_second bytes nanos = bytes * 1000000000 / nanos

-- Loopback, a line without columns, and a header count nothing.
parse_proc_net_dev_test :
    parse_proc_net_dev (
      codes
        "Inter-| face\n lo: 7 0 0 0 0 0 0 0 7 0\n eth0: 100 1 0 0 0 0 0 0 40 1\neth1: 5 0 0 0 0 0 0 0 x\n")
    ≡ sample_of 40 105
unfolding parse_proc_net_dev list_beq
parse_proc_net_dev_test = refl

abbrev running : CapacityCollector
running = record {
  source = nic_delta;
  epoch = 7;
  last = some (sample_of 60 40);
  window = record { at = 1000000000; total_bytes = 100 } ∷ [];
  window_span = 40000000000;
}

-- Fifty bytes in two seconds.
sample_at_test :
    (sample_at per_second running 3000000000 (some (sample_of 100 50))).0
    ≡ some (record {
      counter_epoch = 7;
      source = nic_delta;
      tx_bytes_total = 100;
      rx_bytes_total = 50;
      throughput_bps = 25;
    })
unfolding sample_at
sample_at_test = refl

-- A reset: another epoch, and no rate.
sample_at_reset :
    (sample_at per_second running 3000000000 (some (sample_of 1 2))).0
    ≡ some (record {
      counter_epoch = 8;
      source = nic_delta;
      tx_bytes_total = 1;
      rx_bytes_total = 2;
      throughput_bps = 0;
    })
unfolding sample_at
sample_at_reset = refl

running-IsValid : IsValid running 1000000000
running-IsValid = record {
  chronological = (tt, tt);
  past = (omega arith, tt);
  last_is = (omega arith, tt);
}

observe_sample-IsValid_example :
    let c' = observe_sample per_second running 3000000000 (sample_of 100 50) in
    let new : WindowPoint = record { at = 3000000000; total_bytes = total (sample_of 100 50) } in
    IsValid c' 3000000000
    × Recent 3000000000 40000000000 c'.window
    × All
        (λ (p : WindowPoint). 3000000000 - p.at ≤ 40000000000 → Member p c'.window)
        (kept running (sample_of 100 50) ++ (new ∷ []))
observe_sample-IsValid_example =
    observe_sample-IsValid per_second running 1000000000 3000000000 (sample_of 100 50)
      running-IsValid (omega arith)

abbrev no_account : CapacityState
no_account = record {
  accumulated_usage_bytes = 10;
  counter_epoch = 0;
  last_tx_bytes_total = 0;
  last_rx_bytes_total = 0;
  has_counter_baseline = false;
}

abbrev later_samples : List (ℕ × CounterSample)
later_samples = (2, sample_of 60 40) ∷ (3, sample_of 5 6) ∷ (4, sample_of 7 9) ∷ []

growths_test : growths both (sample_of 50 30) later_samples ≡ 25
unfolding growths billed
growths_test = refl

report_samples_usage_example :
    (report_samples per_second both
      (new_collector nic_delta 7 40, no_account)
      ((1, sample_of 50 30) ∷ later_samples)).1.accumulated_usage_bytes
    ≡ saturating_add u64_max 10 (growths both (sample_of 50 30) later_samples)
report_samples_usage_example =
    report_samples_usage per_second both nic_delta 7 40 1 no_account (sample_of 50 30) later_samples
      (omega arith) (omega arith) refl
