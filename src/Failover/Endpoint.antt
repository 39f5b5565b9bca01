-- ===== src/Failover/Endpoint.antt =====
-- crates/agent/src/failover.rs: the tunables, and the hysteresis of one backend endpoint.
-- A `Duration` is a number of milliseconds.
use multi_proxy.Prelude.{
  ℕ, ◌+◌, ◌-◌, ◌*◌, ◌/◌, Bool, true, false, not, ◌&&◌, max, leb, if◌then◌else◌, u32_max,
  saturating_add, nat_beq,
}
use multi_proxy.Contract.Protocol.{HelloOk}

pub record FailoverTunables : Type 0 where
  pub probe_interval : ℕ
  pub probe_timeout : ℕ
  pub max_fails : ℕ
  pub recovery_checks : ℕ
  pub min_dwell : ℕ

unfoldable pub from_hello_ok : HelloOk → FailoverTunables
from_hello_ok m = record {
  probe_interval = max m.probe_interval_secs 1 * 1000;
  probe_timeout = max m.probe_timeout_ms 1;
  max_fails = max m.failover_max_fails 1;
  recovery_checks = max m.failover_recovery_checks 1;
  min_dwell = m.min_dwell_secs * 1000;
}

-- `Duration::as_secs`.
abbrev pub as_secs : ℕ → ℕ
as_secs d = d / 1000

unfoldable pub dwell_ticks : FailoverTunables → ℕ
dwell_ticks t =
    let dwell = as_secs t.min_dwell in
    let interval = max (as_secs t.probe_interval) 1 in
    if nat_beq dwell 0 then 0 else max ((dwell + interval - 1) / interval) 1

pub record EndpointState : Type 0 where
  pub up : Bool
  pub consecutive_fails : ℕ
  pub consecutive_successes : ℕ

unfoldable pub new_endpoint : EndpointState
new_endpoint = record { up = true; consecutive_fails = 0; consecutive_successes = 0 }

-- One probe result, with `max_fails` and `recovery_checks`.
unfoldable pub observe : EndpointState → Bool → ℕ → ℕ → EndpointState
observe e true max_fails recovery_checks =
    let successes = saturating_add u32_max e.consecutive_successes 1 in
    record {
      up = if not e.up && leb recovery_checks successes then true else e.up;
      consecutive_fails = 0;
      consecutive_successes = successes;
    }
observe e false max_fails recovery_checks =
    let fails = saturating_add u32_max e.consecutive_fails 1 in
    record {
      up = if e.up && leb max_fails fails then false else e.up;
      consecutive_fails = fails;
      consecutive_successes = 0;
    }
