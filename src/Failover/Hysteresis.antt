-- ===== src/Failover/Hysteresis.antt =====
-- crates/agent/src/failover.rs: the endpoint's counters against the history of its probe results.
use native.Mathlib.Nat.{mul-le-mul_right, div-mul-le_self, lt-div-mul-add, div-eq_of_lt}
use native.Mathlib.Decide.{dec_lt}
use multi_proxy.Prelude.{
  nat_beq, sym, ◌/◌, ℕ, zero, suc, ◌+◌, ◌-◌, ◌*◌, ◌≤◌, ◌<◌, ◌≡◌, refl, Bool, true, false, not, List,
  [], ◌∷◌, arith, min, max, leb, if◌then◌else◌, u32_max,
}
use multi_proxy.Failover.Endpoint.{
  EndpointState, FailoverTunables, new_endpoint, observe, dwell_ticks, as_secs,
}

-- The state after a history of results, the newest first.
unfoldable pub observed : ℕ → ℕ → List Bool → EndpointState
observed m r [] = new_endpoint
observed m r (x ∷ h) = observe (observed m r h) x m r

-- How many of the newest results are failures, and how many are successes.
abbrev pub failing : List Bool → ℕ
failing [] = 0
failing (true ∷ h) = 0
failing (false ∷ h) = suc (failing h)

abbrev pub succeeding : List Bool → ℕ
succeeding [] = 0
succeeding (true ∷ h) = suc (succeeding h)
succeeding (false ∷ h) = 0

-- The specification: an endpoint that is up goes down with the `m`-th failure in a row, and one that
-- is down comes up with the `r`-th success in a row.
unfoldable pub is_up : ℕ → ℕ → List Bool → Bool
is_up m r [] = true
is_up m r (x ∷ h) =
    if is_up m r h then not (leb m (failing (x ∷ h))) else leb r (succeeding (x ∷ h))

-- The tunables that a handshake gives: from 1 to the greatest u32.
pub record InRange (n : ℕ) : Type 0 where
  pub positive : 0 < n
  pub fits : n ≤ u32_max

-- For thresholds from one to the greatest u32, an endpoint holds, for every history, what the specification says of the history:
-- whether it is up, and the numbers of newest failures and successes, cut off at the greatest u32.
pub observed-refines :
    (m r : ℕ) (h : List Bool)
    → InRange m
    → InRange r
    → observed m r h ≡ record {
      up = is_up m r h;
      consecutive_fails = min (failing h) u32_max;
      consecutive_successes = min (succeeding h) u32_max;
    }
unfolding observed is_up new_endpoint observe
observed-refines m r [] hm hr = ground arith
observed-refines m r (true ∷ h) hm hr = rw (observed-refines m r h hm hr) (ground arith)
observed-refines m r (false ∷ h) hm hr = rw (observed-refines m r h hm hr) (ground arith)

down_of_failing :
    (m r : ℕ) (h : List Bool) → InRange m → InRange r → m ≤ failing h → is_up m r h ≡ false
unfolding is_up
down_of_failing m r [] hm hr p = absurd (omega arith)
down_of_failing m r (true ∷ h) hm hr p = absurd (omega arith)
down_of_failing m r (false ∷ h) hm hr p = ground arith

up_of_succeeding :
    (m r : ℕ) (h : List Bool) → InRange m → InRange r → r ≤ succeeding h → is_up m r h ≡ true
unfolding is_up
up_of_succeeding m r [] hm hr p = refl
up_of_succeeding m r (true ∷ h) hm hr p = ground arith
up_of_succeeding m r (false ∷ h) hm hr p = absurd (omega arith)

-- Fast-fail and slow recovery, for thresholds from one to the greatest u32: after `max_fails` failures in a row an endpoint is down, after
-- `recovery_checks` successes in a row it is up, and any other result leaves it as it was.
pub observed_hysteresis :
    (m r : ℕ) (x : Bool) (h : List Bool)
    → InRange m
    → InRange r
    → (m ≤ failing (x ∷ h) → (observed m r (x ∷ h)).up ≡ false)
      × (r ≤ succeeding (x ∷ h) → (observed m r (x ∷ h)).up ≡ true)
      × (failing (x ∷ h) < m
          → succeeding (x ∷ h) < r
          → (observed m r (x ∷ h)).up ≡ (observed m r h).up)
observed_hysteresis m r x h hm hr =
    rw (observed-refines m r (x ∷ h) hm hr, observed-refines m r h hm hr)
      (
        down_of_failing m r (x ∷ h) hm hr,
        up_of_succeeding m r (x ∷ h) hm hr,
        unfold is_up in λ p q. ground arith,
      )

div_ceil_bounds :
    (d i : ℕ) → 0 < i → (d ≤ (d + i - 1) / i * i) × ((k : ℕ) → k < (d + i - 1) / i → k * i < d)
div_ceil_bounds d i h = (
  omega (arith, lt-div-mul-add {a = d + i - 1} {b = i} h),
  λ k p. omega (
    arith,
    mul-le-mul_right {m = k + 1} {n = (d + i - 1) / i} i (omega arith),
    div-mul-le_self (d + i - 1) i,
  ),
)

div_ceil_zero : (i : ℕ) → 0 < i → (0 + i - 1) / i ≡ 0
div_ceil_zero i h = div-eq_of_lt {n = 0 + i - 1} {m = i} (omega arith)

div_ceil_pos : (d i : ℕ) → 0 < i → 0 < d → 0 < (d + i - 1) / i
div_ceil_pos d i h p = elim (dec_lt 0 ((d + i - 1) / i)) [
  | yes q ↦ q
  | no q ↦
      let z : (d + i - 1) / i ≡ 0 = omega arith in
      absurd (omega (arith, rw z at ((div_ceil_bounds d i h).0)))
]

ticks_div_ceil :
    (d i : ℕ) → 0 < i → (if nat_beq d 0 then 0 else max ((d + i - 1) / i) 1) ≡ (d + i - 1) / i
ticks_div_ceil zero i h = sym (div_ceil_zero i h)
ticks_div_ceil (suc d) i h =
    let p : 0 < (suc d + i - 1) / i = div_ceil_pos (suc d) i h (omega arith) in ground arith

-- The dwell window in probe ticks is the least number of probe intervals that covers the dwell: with
-- an interval of at least a second, fewer ticks last less than the dwell, and those ticks cover it.
pub dwell_ticks_covers :
    (t : FailoverTunables)
    → 1000 ≤ t.probe_interval
    → (as_secs t.min_dwell ≤ dwell_ticks t * as_secs t.probe_interval)
      × ((k : ℕ) → k < dwell_ticks t → k * as_secs t.probe_interval < as_secs t.min_dwell)
unfolding dwell_ticks
dwell_ticks_covers t h =
    let i : 0 < as_secs t.probe_interval = omega arith in
    let (above, below) = div_ceil_bounds (as_secs t.min_dwell) (as_secs t.probe_interval) i in
    let e : max (as_secs t.probe_interval) 1 ≡ as_secs t.probe_interval = omega arith in
    rw (e, ticks_div_ceil (as_secs t.min_dwell) (as_secs t.probe_interval) i) (above, below)
