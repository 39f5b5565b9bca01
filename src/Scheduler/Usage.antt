-- ===== src/Scheduler/Usage.antt =====
-- crates/panel/src/scheduler.rs: accumulated usage against the traffic that a node really relays.
-- A node's counters grow with its traffic and may start again from 0 under any epoch; the panel sees
-- them only in reports.
use multi_proxy.Prelude.{ℕ, ◌+◌, ◌-◌, ◌≤◌, ◌≡◌, subst, true, false, List, [], ◌∷◌, arith, u64_max}
use multi_proxy.Contract.Model.{QuotaDirection, both, tx_only, rx_only}
use multi_proxy.Contract.Protocol.{Capacity, CapacitySource}
use multi_proxy.Scheduler.Capacity.{CapacityState, account}

pub data Event : Type 0 where
  relayed : ℕ → ℕ → Event
  restarted : ℕ → Event
  reported : CapacitySource → ℕ → Event

-- The node's counters, the traffic relayed so far, and the panel's account.
pub record Accounting : Type 0 where
  pub epoch : ℕ
  pub tx : ℕ
  pub rx : ℕ
  pub real_tx : ℕ
  pub real_rx : ℕ
  pub panel : CapacityState

abbrev report : Accounting → CapacitySource → ℕ → Capacity
report s source throughput = record {
  counter_epoch = s.epoch;
  source = source;
  tx_bytes_total = s.tx;
  rx_bytes_total = s.rx;
  throughput_bps = throughput;
}

unfoldable pub happens : QuotaDirection → Accounting → Event → Accounting
happens d s (relayed a b) = record s {
  tx = s.tx + a;
  rx = s.rx + b;
  real_tx = s.real_tx + a;
  real_rx = s.real_rx + b;
}
happens d s (restarted epoch) = record s { epoch = epoch; tx = 0; rx = 0 }
happens d s (reported source throughput) = record s {
  panel = (account s.panel (report s source throughput) d).0;
}

unfoldable pub happen : QuotaDirection → Accounting → List Event → Accounting
happen d s [] = s
happen d s (e ∷ es) = happen d (happens d s e) es

-- The traffic of the billed direction.
abbrev pub traffic : QuotaDirection → ℕ → ℕ → ℕ
traffic both tx rx = tx + rx
traffic tx_only tx rx = tx
traffic rx_only tx rx = rx

abbrev pub used : Accounting → ℕ
used s = s.panel.accumulated_usage_bytes

-- What the next report would add, at most.
abbrev pub pending : QuotaDirection → Accounting → ℕ
pending d s = traffic d (s.tx - s.panel.last_tx_bytes_total) (s.rx - s.panel.last_rx_bytes_total)

record Bounded (d : QuotaDirection) (before : ℕ) (s : Accounting) : Type 0 where
  counted : used s ≤ before + traffic d s.real_tx s.real_rx
  ahead :
      s.panel.has_counter_baseline ≡ true
      → used s + pending d s ≤ before + traffic d s.real_tx s.real_rx

happens-Bounded :
    (d : QuotaDirection) (before : ℕ) (s : Accounting) (e : Event)
    → Bounded d before s
    → Bounded d before (happens d s e)
unfolding happens account
happens-Bounded both before s e b = ground arith
happens-Bounded tx_only before s e b = ground arith
happens-Bounded rx_only before s e b = ground arith

happen-Bounded :
    (d : QuotaDirection) (before : ℕ) (s : Accounting) (es : List Event)
    → Bounded d before s
    → Bounded d before (happen d s es)
unfolding happen
happen-Bounded d before s [] b = b
happen-Bounded d before s (e ∷ es) b =
    happen-Bounded d before (happens d s e) es (happens-Bounded d before s e b)

-- An account with no baseline, and the traffic counted from here.
pub record Cold (s : Accounting) : Type 0 where
  pub no_baseline : s.panel.has_counter_baseline ≡ false
  pub no_tx : s.real_tx ≡ 0
  pub no_rx : s.real_rx ≡ 0

Cold-Bounded : (d : QuotaDirection) (s : Accounting) → Cold s → Bounded d (used s) s
Cold-Bounded both s c = ground arith
Cold-Bounded tx_only s c = ground arith
Cold-Bounded rx_only s c = ground arith

-- Usage is never over-counted: from an account with no baseline yet, whatever traffic, counter
-- restarts, epochs and reports follow, the panel adds at most the traffic of the billed direction.
pub used-le-traffic :
    (d : QuotaDirection) (s : Accounting) (es : List Event)
    → Cold s
    → used (happen d s es) ≤ used s + traffic d (happen d s es).real_tx (happen d s es).real_rx
used-le-traffic d s es c = (happen-Bounded d (used s) s es (Cold-Bounded d s c)).counted

-- The traffic of the billed direction among the events, and that no counter restarts.
abbrev pub total : QuotaDirection → List Event → ℕ
total d [] = 0
total d (relayed a b ∷ es) = traffic d a b + total d es
total d (restarted epoch ∷ es) = total d es
total d (reported source throughput ∷ es) = total d es

abbrev pub Steady : List Event → Type 0
Steady [] = Unit {0}
Steady (relayed a b ∷ es) = Steady es
Steady (restarted epoch ∷ es) = ⊥
Steady (reported source throughput ∷ es) = Steady es

-- The account follows the counters: one epoch, a baseline that is not ahead, and the sum of what is
-- used and pending.
pub record Follows (d : QuotaDirection) (sum : ℕ) (s : Accounting) : Type 0 where
  pub baseline : s.panel.has_counter_baseline ≡ true
  pub same_epoch : s.panel.counter_epoch ≡ s.epoch
  pub tx_behind : s.panel.last_tx_bytes_total ≤ s.tx
  pub rx_behind : s.panel.last_rx_bytes_total ≤ s.rx
  pub exact : used s + pending d s ≡ sum

relayed-Follows :
    (d : QuotaDirection) (sum a b : ℕ) (s : Accounting)
    → Follows d sum s
    → Follows d (sum + traffic d a b) (happens d s (relayed a b))
unfolding happens
relayed-Follows both sum a b s f = ground arith
relayed-Follows tx_only sum a b s f = ground arith
relayed-Follows rx_only sum a b s f = ground arith

reported-Follows :
    (d : QuotaDirection) (sum : ℕ) (source : CapacitySource) (throughput : ℕ) (s : Accounting)
    → Follows d sum s
    → sum ≤ u64_max
    → Follows d sum (happens d s (reported source throughput))
      × (used (happens d s (reported source throughput)) ≡ sum)
unfolding happens account
reported-Follows both sum source throughput s f h = ground arith
reported-Follows tx_only sum source throughput s f h = ground arith
reported-Follows rx_only sum source throughput s f h = ground arith

happen-Follows :
    (d : QuotaDirection) (sum : ℕ) (s : Accounting) (es : List Event)
    → Follows d sum s
    → Steady es
    → sum + total d es ≤ u64_max
    → Follows d (sum + total d es) (happen d s es)
unfolding happen
happen-Follows d sum s [] f t h = subst (λ n. Follows d n s) (omega arith) f
happen-Follows d sum s (relayed a b ∷ es) f t h =
    subst (λ n. Follows d n (happen d (happens d s (relayed a b)) es)) (omega arith)
      (happen-Follows d (sum + traffic d a b) (happens d s (relayed a b)) es
        (relayed-Follows d sum a b s f) t (omega arith))
happen-Follows d sum s (restarted epoch ∷ es) f t h = elim t [ ]
happen-Follows d sum s (reported source throughput ∷ es) f t h =
    happen-Follows d sum (happens d s (reported source throughput)) es
      (reported-Follows d sum source throughput s f (omega arith)).0 t h

-- Nor is it under-counted while the counters run on: from an account that follows the counters, after
-- any traffic and reports without a restart, and within u64, one more report brings the usage to
-- exactly what it was with everything pending, plus all traffic of the billed direction since.
pub used_exact :
    (d : QuotaDirection) (sum : ℕ) (s : Accounting) (es : List Event) (source : CapacitySource)
    (throughput : ℕ)
    → Follows d sum s
    → Steady es
    → sum + total d es ≤ u64_max
    → used (happens d (happen d s es) (reported source throughput)) ≡ sum + total d es
used_exact d sum s es source throughput f t h =
    (reported-Follows d (sum + total d es) source throughput (happen d s es)
      (happen-Follows d sum s es f t h) h).1
