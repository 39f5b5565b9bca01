-- ===== src/Failover/Tests.antt =====
-- crates/agent/src/failover.rs: runs of the engine on small inputs, and the theorems at such inputs.
use multi_proxy.Prelude.{
  ℕ, ◌<◌, ◌≤◌, ◌≡◌, refl, Bool, true, false, List, [], ◌∷◌, Option, none, some, map, Text, codes,
  All, Any, arith, inl, u32_max, min, Distinct,
}
use multi_proxy.Contract.Model.{BackendEndpoint, tcp, passthrough, gost}
use multi_proxy.Contract.Protocol.{RuleSpec, BackendHealth}
use multi_proxy.Relaycfg.{TlsPaths, Json}
use multi_proxy.Failover.Endpoint.{FailoverTunables, EndpointState, dwell_ticks}
use multi_proxy.Failover.Hysteresis.{observed, is_up, InRange, observed-refines}
use multi_proxy.Failover.Rule.{RuleState, reselect, best_up, choose, prefer, commit}
use multi_proxy.Failover.Selection.{IsValid, UpAt}
use multi_proxy.Failover.Switching.{
  Selects, reselect_total, reselect-UpAt, reselect_dwell, reselect_settles,
}
use multi_proxy.Failover.Engine.{
  FailoverEngine, FailoverDecision, set_rules, new_engine, probe_and_decide,
}
use multi_proxy.Failover.Push.{specs_of, spec_id, Carried, set_rules-Carried}
use multi_proxy.Failover.Validity.{EngineIsValid}
use multi_proxy.Failover.Folding.{concat_health, ServesUp}
use multi_proxy.Failover.Cycle.{probe_rule, probe_and_decide_total}

abbrev main_endpoint : BackendEndpoint
main_endpoint = record { host = codes "10.0.0.1"; port = 8096 }

abbrev standby : BackendEndpoint
standby = record { host = codes "10.0.0.2"; port = 8096 }

abbrev two_backends : RuleSpec
two_backends = record {
  rule_id = codes "r1";
  listen_port = 8080;
  protocol = tcp;
  tls_mode = passthrough;
  tool = gost;
  backends = main_endpoint ∷ standby ∷ [];
}

abbrev tunables : FailoverTunables
tunables = record {
  probe_interval = 5000;
  probe_timeout = 100;
  max_fails = 2;
  recovery_checks = 1;
  min_dwell = 30000;
}

abbrev paths : TlsPaths
paths = record { cert = codes "/tmp/fo-test/tls.crt"; key = codes "/tmp/fo-test/tls.key" }

abbrev started : FailoverEngine
started = set_rules (new_engine paths) (two_backends ∷ [])

abbrev up_state : EndpointState
up_state = record { up = true; consecutive_fails = 0; consecutive_successes = 4 }

abbrev down_state : EndpointState
down_state = record { up = false; consecutive_fails = 3; consecutive_successes = 0 }

-- On the standby since 40 ticks, while the main endpoint has come up again.
abbrev on_standby : RuleState
on_standby = record {
  spec = two_backends;
  endpoints = up_state ∷ up_state ∷ [];
  active_idx = some 1;
  ticks_since_switch = 40;
}

abbrev back_on_main : RuleState
back_on_main = record on_standby { active_idx = some 0; ticks_since_switch = 0 }

abbrev all_dead : RuleState
all_dead = record on_standby { endpoints = down_state ∷ down_state ∷ [] }

on_standby-IsValid : IsValid on_standby
on_standby-IsValid = record { matched = refl; in_bounds = omega arith }

all_dead-IsValid : IsValid all_dead
all_dead-IsValid = record { matched = refl; in_bounds = omega arith }

reverts : reselect on_standby tunables ≡ some (back_on_main, true)
unfolding reselect best_up choose prefer commit dwell_ticks
reverts = refl

two_InRange : InRange 2
two_InRange = record { positive = omega arith; fits = omega arith }

observed-refines_example : observed 2 2 (false ∷ false ∷ true ∷ []) ≡ record {
  up = is_up 2 2 (false ∷ false ∷ true ∷ []);
  consecutive_fails = min 2 u32_max;
  consecutive_successes = min 0 u32_max;
}
observed-refines_example = observed-refines 2 2 (false ∷ false ∷ true ∷ []) two_InRange two_InRange

reselect_total_example :
    (rs' : RuleState) × (changed : Bool) × (reselect on_standby tunables ≡ some (rs', changed))
    × Selects on_standby rs' changed
reselect_total_example = reselect_total on_standby tunables on_standby-IsValid

reselect-UpAt_example : (a : ℕ) × (back_on_main.active_idx ≡ some a) × UpAt back_on_main.endpoints a
reselect-UpAt_example =
    reselect-UpAt on_standby tunables 0 back_on_main true on_standby-IsValid (up_state, refl, refl)
      reverts

reselect_settles_example : reselect back_on_main tunables ≡ some (back_on_main, false)
reselect_settles_example =
    reselect_settles on_standby tunables back_on_main true on_standby-IsValid reverts

reselect_dwell_example :
    (b : ℕ) × (back_on_main.active_idx ≡ some b)
    × UpAt on_standby.endpoints b
    × (b < 1)
    × (dwell_ticks tunables ≤ 40)
    × ((i : ℕ) → UpAt on_standby.endpoints i → b ≤ i)
reselect_dwell_example =
    reselect_dwell on_standby tunables 1 back_on_main on_standby-IsValid refl (up_state, refl, refl)
      reverts

one_Distinct : Distinct spec_id (two_backends ∷ [])
one_Distinct = (tt, tt)

abbrev serving : FailoverEngine
serving = record { rules = on_standby ∷ []; by_id = []; tls = paths; tls_available = false }

set_rules-Carried_example :
    Any (Carried on_standby two_backends) (set_rules serving (two_backends ∷ [])).rules
set_rules-Carried_example =
    set_rules-Carried serving (two_backends ∷ []) on_standby two_backends (tt, tt) one_Distinct
      (inl refl) (inl refl) refl

abbrev no_json : Json → Option Text
no_json j = none

-- No backend answers at its port.
abbrev probe_result : BackendEndpoint → BackendHealth
probe_result b = record { host = b.host; port = b.port; reachable = false }

abbrev probe : List BackendEndpoint → ℕ → List BackendHealth
probe bs timeout = map probe_result bs

probe_and_decide_total_example :
    (e' : FailoverEngine) × (d : FailoverDecision) × (health : List BackendHealth)
    × (probe_and_decide no_json probe serving tunables ≡ some (e', d, health))
    × EngineIsValid e'
    × (specs_of e'.rules ≡ specs_of serving.rules)
    × (health ≡ concat_health (map (probe_rule probe tunables) serving.rules))
    × All ServesUp e'.rules
probe_and_decide_total_example =
    probe_and_decide_total no_json probe serving tunables (on_standby-IsValid, tt)

abbrev cycled : FailoverEngine × FailoverDecision × List BackendHealth
cycled = (
  record serving {
    rules =
        record on_standby {
          endpoints =
              record { up = true; consecutive_fails = 1; consecutive_successes = 0 }
              ∷ record { up = true; consecutive_fails = 1; consecutive_successes = 0 }
              ∷ [];
          active_idx = some 0;
          ticks_since_switch = 0;
        }
        ∷ [];
  },
  record { changed = true; gost_config = some []; realm_config = none },
  probe (main_endpoint ∷ standby ∷ []) 100,
)
