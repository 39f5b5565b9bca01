-- ===== src/Session/Report.antt =====
-- crates/agent/src/report.rs: the status report, from what the session has at hand.
use multi_proxy.Prelude.{
  ℕ, Bool, true, false, ◌||◌, List, [], ◌∷◌, Option, none, some, ltb, if◌then◌else◌,
}
use multi_proxy.Contract.Protocol.{ActiveBackend, BackendHealth, Capacity, StatusReport}

pub record ReportInputs : Type 0 where
  pub forwarding_up : Bool
  pub backend_reachable : Bool
  pub applied_config_gen : ℕ
  pub restart_count : ℕ
  pub pids : List ℕ
  pub capacity : Option Capacity
  pub backend_health : Option (List BackendHealth)
  pub active_backends : Option (List ActiveBackend)

abbrev pub some_pids : List ℕ → Option (List ℕ)
some_pids [] = none
some_pids (p ∷ ps) = some (p ∷ ps)

abbrev pub has_pids : List ℕ → Bool
has_pids [] = false
has_pids (p ∷ ps) = true

unfoldable pub build : (F : Type 0) → ReportInputs → StatusReport F
build F inputs = record {
  forwarding_up = inputs.forwarding_up;
  backend_reachable = inputs.backend_reachable;
  applied_config_gen = inputs.applied_config_gen;
  metrics =
      if has_pids inputs.pids || ltb 0 inputs.restart_count
      then some (record {
        gost_realm_pids = some_pids inputs.pids;
        last_backend_rtt_ms = none;
        restart_count = some inputs.restart_count;
        cpu_pct = none;
        mem_mb = none;
      })
      else none;
  capacity = inputs.capacity;
  backend_health = inputs.backend_health;
  active_backends = inputs.active_backends;
}
