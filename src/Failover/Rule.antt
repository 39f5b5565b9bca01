-- ===== src/Failover/Rule.antt =====
-- crates/agent/src/failover.rs: the state of one rule and the choice of its active backend.
-- `none` as the result of a step is the panic of an index out of bounds.
use multi_proxy.Prelude.{
  ℕ, suc, Bool, true, false, not, List, [], ◌∷◌, Option, none, some, map, get_elem?, ltb, leb,
  if◌then◌else◌, u64_max, saturating_add, ◌/◌, nat_beq,
}
use multi_proxy.Contract.Model.{BackendEndpoint}
use multi_proxy.Contract.Protocol.{RuleSpec, BackendHealth}
use multi_proxy.Failover.Endpoint.{
  FailoverTunables, EndpointState, new_endpoint, observe, dwell_ticks,
}

pub record RuleState : Type 0 where
  pub spec : RuleSpec
  pub endpoints : List EndpointState
  pub active_idx : Option ℕ
  pub ticks_since_switch : ℕ

abbrev first_index : List BackendEndpoint → Option ℕ
first_index [] = none
first_index (b ∷ bs) = some 0

unfoldable pub new_rule : RuleSpec → RuleState
unfolding new_endpoint
new_rule spec = record {
  spec = spec;
  endpoints = map (λ _. new_endpoint) spec.backends;
  active_idx = first_index spec.backends;
  ticks_since_switch = u64_max / 2;
}

-- `and_then(|i| self.spec.backends.get(i))`.
abbrev pub backend_at : List BackendEndpoint → Option ℕ → Option BackendEndpoint
backend_at bs none = none
backend_at bs (some i) = get_elem? bs i

unfoldable pub active_endpoint : RuleState → Option BackendEndpoint
active_endpoint rs = backend_at rs.spec.backends rs.active_idx

-- `iter().position(|e| e.up)`.
abbrev pub next_index : Option ℕ → Option ℕ
next_index none = none
next_index (some i) = some (suc i)

unfoldable pub best_up : List EndpointState → Option ℕ
best_up [] = none
best_up (e ∷ es) = if e.up then some 0 else next_index (best_up es)

-- The innermost choice: the active endpoint `cur` is in state `e`, and `b` is the best that is up.
unfoldable pub prefer : EndpointState → ℕ → ℕ → ℕ → ℕ → ℕ
prefer e cur b ticks dwell =
    if not e.up then b else if ltb b cur then (if leb dwell ticks then b else cur) else cur

-- `None` is the panic of `rs.endpoints[cur]`.
abbrev checked : Option EndpointState → ℕ → ℕ → ℕ → ℕ → Option (Option ℕ)
checked none cur b ticks dwell = none
checked (some e) cur b ticks dwell = some (some (prefer e cur b ticks dwell))

unfoldable pub choose : List EndpointState → Option ℕ → Option ℕ → ℕ → ℕ → Option (Option ℕ)
choose es prev none ticks dwell = some prev
choose es none (some b) ticks dwell = some (some b)
choose es (some cur) (some b) ticks dwell = checked (get_elem? es cur) cur b ticks dwell

abbrev pub index_beq : Option ℕ → Option ℕ → Bool
index_beq none none = true
index_beq none (some j) = false
index_beq (some i) none = false
index_beq (some i) (some j) = nat_beq i j

unfoldable pub commit : RuleState → Option ℕ → RuleState × Bool
commit rs new_idx =
    if index_beq new_idx rs.active_idx
    then (rs, false)
    else (record rs { active_idx = new_idx; ticks_since_switch = 0 }, true)

abbrev committed : RuleState → Option (Option ℕ) → Option (RuleState × Bool)
committed rs none = none
committed rs (some new_idx) = some (commit rs new_idx)

unfoldable pub reselect : RuleState → FailoverTunables → Option (RuleState × Bool)
reselect rs tunables = committed rs (
    choose rs.endpoints rs.active_idx (best_up rs.endpoints) rs.ticks_since_switch
      (dwell_ticks tunables))

-- The health results fold into the endpoints by position; a result too many is dropped.
unfoldable pub observe_each :
    List EndpointState → List BackendHealth → FailoverTunables → List EndpointState
observe_each [] hs t = []
observe_each (e ∷ es) [] t = e ∷ es
observe_each (e ∷ es) (h ∷ hs) t =
    observe e h.reachable t.max_fails t.recovery_checks ∷ observe_each es hs t

-- One round of the loop of `probe_and_decide` over the rules.
unfoldable pub fold_rule :
    RuleState → List BackendHealth → FailoverTunables → Option (RuleState × Bool)
fold_rule rs health t =
    reselect
      (record rs {
        endpoints = observe_each rs.endpoints health t;
        ticks_since_switch = saturating_add u64_max rs.ticks_since_switch 1;
      })
      t
