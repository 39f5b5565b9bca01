-- ===== src/Sampler/Billing.antt =====
-- crates/agent/src/capacity.rs with crates/panel/src/scheduler.rs: what the panel bills of the samples.
use multi_proxy.Prelude.{
  ℕ, ◌+◌, ◌-◌, ◌%◌, ◌^◌, ◌≤◌, ◌<◌, ◌≡◌, ◌≢◌, refl, sym, ap, ◌∙◌, subst, inl, inr, true, false, ◌&&◌,
  List, [], ◌∷◌, some, Bool-cases, arith, leb, if◌then◌else◌, saturating_add, u64_max,
}
use multi_proxy.Contract.Model.{QuotaDirection}
use multi_proxy.Contract.Protocol.{Capacity, CapacitySource}
use multi_proxy.Scheduler.Capacity.{CapacityState, account, accumulate, billed}
use multi_proxy.Sampler.{
  CounterSample, CapacityCollector, new_collector, has_reset, observe_sample, capacity_of,
}

module _ (d : QuotaDirection) where
  -- What is to be billed between two samples: the growth, if neither counter went down.
  unfoldable pub growth : CounterSample → CounterSample → ℕ
  growth a b =
      if leb a.tx_bytes_total b.tx_bytes_total && leb a.rx_bytes_total b.rx_bytes_total
      then billed d (b.tx_bytes_total - a.tx_bytes_total) (b.rx_bytes_total - a.rx_bytes_total)
      else 0

  unfoldable pub growths : CounterSample → List (ℕ × CounterSample) → ℕ
  unfolding growth
  growths a [] = 0
  growths a ((now, b) ∷ samples) = growth a b + growths b samples

module _ (rate : ℕ → ℕ → ℕ) (d : QuotaDirection) where
  -- A sample at a time, with its report accounted by the panel.
  unfoldable pub report_sample :
      CapacityCollector × CapacityState → ℕ → CounterSample → CapacityCollector × CapacityState
  unfolding account
  report_sample (c, panel) now sample =
      let c' = observe_sample rate c now sample in
      (c', (account panel (capacity_of rate c' sample) d).0)

  unfoldable pub report_samples :
      CapacityCollector × CapacityState
      → List (ℕ × CounterSample)
      → CapacityCollector × CapacityState
  unfolding report_sample
  report_samples s [] = s
  report_samples s ((now, sample) ∷ samples) = report_samples (report_sample s now sample) samples

  -- The panel's baseline is the agent's last sample.
  record InStep (c : CapacityCollector) (panel : CapacityState) (prev : CounterSample)
      : Type 0 where
    pub epoch_fits : c.epoch < 2 ^ 64
    pub same_epoch : panel.counter_epoch ≡ c.epoch
    pub baseline : panel.has_counter_baseline ≡ true
    pub same_last : c.last ≡ some prev
    pub same_tx : panel.last_tx_bytes_total ≡ prev.tx_bytes_total
    pub same_rx : panel.last_rx_bytes_total ≡ prev.rx_bytes_total
    pub usage_fits : panel.accumulated_usage_bytes ≤ u64_max

  abbrev Billed : CapacityState → Capacity → CounterSample → CounterSample → CapacityState → Type 0
  Billed p cap a b p' =
      (p'.counter_epoch ≡ cap.counter_epoch)
      × (p'.has_counter_baseline ≡ true)
      × (p'.last_tx_bytes_total ≡ cap.tx_bytes_total)
      × (p'.last_rx_bytes_total ≡ cap.rx_bytes_total)
      × (p'.accumulated_usage_bytes
          ≡ saturating_add u64_max p.accumulated_usage_bytes (growth d a b))

  -- A new epoch bills nothing, and so does a counter that went down.
  account_rebases :
      (p : CapacityState) (cap : Capacity) (a b : CounterSample)
      → p.accumulated_usage_bytes ≤ u64_max
      → (cap.counter_epoch ≢ p.counter_epoch)
      → (leb a.tx_bytes_total b.tx_bytes_total && leb a.rx_bytes_total b.rx_bytes_total ≡ false)
      → p.has_counter_baseline ≡ true
      → Billed p cap a b (account p cap d).0
  unfolding account accumulate growth
  account_rebases p cap a b u n g h = ground arith

  account_same :
      (p : CapacityState) (cap : Capacity) (a b : CounterSample)
      → p.accumulated_usage_bytes ≤ u64_max
      → (cap.counter_epoch ≡ p.counter_epoch)
      → p.has_counter_baseline ≡ true
      → p.last_tx_bytes_total ≡ a.tx_bytes_total
      → p.last_rx_bytes_total ≡ a.rx_bytes_total
      → cap.tx_bytes_total ≡ b.tx_bytes_total
      → cap.rx_bytes_total ≡ b.rx_bytes_total
      → Billed p cap a b (account p cap d).0
  unfolding account accumulate growth
  account_same p cap a b u n h tx rx tx' rx' = ground arith

  -- A total that went down has a counter that went down.
  reset-shrinks :
      (a b : CounterSample)
      → has_reset (some a) b ≡ true
      → (leb a.tx_bytes_total b.tx_bytes_total && leb a.rx_bytes_total b.rx_bytes_total) ≡ false
  reset-shrinks a b h = ground arith

  after_reset :
      (c : CapacityCollector) (now : ℕ) (a b : CounterSample)
      → c.last ≡ some a
      → has_reset (some a) b ≡ true
      → (observe_sample rate c now b).epoch ≡ (c.epoch + 1) % 2 ^ 64
  unfolding observe_sample
  after_reset c now a b l h = rw l (rw h refl)

  no_reset :
      (c : CapacityCollector) (now : ℕ) (a b : CounterSample)
      → c.last ≡ some a
      → has_reset (some a) b ≡ false
      → (observe_sample rate c now b).epoch ≡ c.epoch
  unfolding observe_sample
  no_reset c now a b l h = rw l (rw h refl)

  next_epoch : (n : ℕ) → n < 2 ^ 64 → ((n + 1) % 2 ^ 64 ≢ n) × ((n + 1) % 2 ^ 64 < 2 ^ 64)
  next_epoch n h = ground arith

  abbrev Reported :
      CapacityState → CounterSample → CounterSample → CapacityCollector × CapacityState → Type 0
  Reported p a b (c', p') =
      InStep c' p' b
      × (p'.accumulated_usage_bytes
          ≡ saturating_add u64_max p.accumulated_usage_bytes (growth d a b))

  account-Reported :
      (c : CapacityCollector) (p : CapacityState) (a b : CounterSample) (now : ℕ)
      → let c' = observe_sample rate c now b in
        c'.epoch < 2 ^ 64
        → Billed p (capacity_of rate c' b) a b (account p (capacity_of rate c' b) d).0
        → Reported p a b (report_sample (c, p) now b)
  unfolding report_sample observe_sample
  account-Reported c p a b now f (e, h, tx, rx, u) = (
    record {
      epoch_fits = f;
      same_epoch = e;
      baseline = h;
      same_last = refl;
      same_tx = tx;
      same_rx = rx;
      usage_fits = ground (arith, u);
    },
    u,
  )

  report_sample-Reported :
      (c : CapacityCollector) (p : CapacityState) (a b : CounterSample) (now : ℕ)
      → InStep c p a
      → Reported p a b (report_sample (c, p) now b)
  report_sample-Reported c p a b now v =
      let c' = observe_sample rate c now b in
      let cap = capacity_of rate c' b in
      elim (Bool-cases (has_reset (some a) b)) [
        | inl e ↦
            let n = after_reset c now a b v.same_last e in
            account-Reported c p a b now
              (subst (λ k. k < 2 ^ 64) (sym n) (next_epoch c.epoch v.epoch_fits).1)
              (account_rebases p cap a b v.usage_fits
                (λ q. (next_epoch c.epoch v.epoch_fits).0 (sym n ∙ q ∙ v.same_epoch))
                (reset-shrinks a b e) v.baseline)
        | inr e ↦
            let n = no_reset c now a b v.same_last e in
            account-Reported c p a b now (subst (λ k. k < 2 ^ 64) (sym n) v.epoch_fits) (
              account_same p cap a b v.usage_fits (n ∙ sym v.same_epoch) v.baseline v.same_tx
                v.same_rx refl refl)
      ]

  reported-usage :
      (c : CapacityCollector) (p : CapacityState) (a : CounterSample)
      (samples : List (ℕ × CounterSample))
      → InStep c p a
      → (report_samples (c, p) samples).1.accumulated_usage_bytes
        ≡ saturating_add u64_max p.accumulated_usage_bytes (growths d a samples)
  unfolding report_samples growths
  reported-usage c p a [] v = ground (arith, v.usage_fits)
  reported-usage c p a ((now, b) ∷ samples) v =
      let (v', u) = report_sample-Reported c p a b now v in
      let (c', p') = report_sample (c, p) now b in
      let rest = reported-usage c' p' b samples v' in ground (arith, rest, u)

  first-InStep :
      (source : CapacitySource) (boot span now : ℕ) (p : CapacityState) (a : CounterSample)
      → boot < 2 ^ 64
      → p.accumulated_usage_bytes ≤ u64_max
      → p.has_counter_baseline ≡ false
      → let (c', p') = report_sample (new_collector source boot span, p) now a in
        InStep c' p' a × (p'.accumulated_usage_bytes ≡ p.accumulated_usage_bytes)
  unfolding report_sample observe_sample account new_collector
  first-InStep source boot span now p a f u b = rw b (
    record {
      epoch_fits = f;
      same_epoch = refl;
      baseline = refl;
      same_last = refl;
      same_tx = refl;
      same_rx = refl;
      usage_fits = u;
    },
    refl,
  )

  -- If every sample is reported, from a collector that has just booted and an account without a
  -- baseline whose usage fits u64, then the usage grows by exactly the growth of the billed counters between
  -- consecutive samples, nothing being billed where a counter went down, and it saturates at the greatest u64.
  -- So the epochs bill what the samples themselves say.
  pub report_samples_usage :
      (source : CapacitySource) (boot span now : ℕ) (p : CapacityState) (first : CounterSample)
      (samples : List (ℕ × CounterSample))
      → boot < 2 ^ 64
      → p.accumulated_usage_bytes ≤ u64_max
      → p.has_counter_baseline ≡ false
      → (report_samples
          (new_collector source boot span, p)
          ((now, first) ∷ samples)).1.accumulated_usage_bytes
        ≡ saturating_add u64_max p.accumulated_usage_bytes (growths d first samples)
  unfolding report_samples
  report_samples_usage source boot span now p first samples f u b =
      let (v, same) = first-InStep source boot span now p first f u b in
      let (c', p') = report_sample (new_collector source boot span, p) now first in
      reported-usage c' p' first samples v
      ∙ ap (λ n. saturating_add u64_max n (growths d first samples)) same
