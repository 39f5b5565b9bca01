-- ===== src/Failover/Engine.antt =====
-- crates/agent/src/failover.rs: the engine, its push of rules, its probe cycle and its renderings.
-- The probe (`BackendProbe`) and the JSON printer of `serde_json` are parameters.
use multi_proxy.Prelude.{
  ℕ, suc, Bool, true, false, not, ◌&&◌, ◌||◌, List, [], ◌∷◌, ◌++◌, Option, none, some, map, Text,
  ◌==◌, nat_eq, list_eq, if◌then◌else◌, leb, filter, filter_map, any, all, contains, get, erase,
  collect,
}
use multi_proxy.Prelude.Sort.{sort_by}
use multi_proxy.Contract.Model.{BackendEndpoint, ForwardRule, Tool, gost, realm, tool_eq}
use multi_proxy.Contract.Protocol.{RuleSpec, BackendHealth, ActiveBackend, endpoint_eq}
use multi_proxy.Relaycfg.{TlsPaths, Json, render_gost, render_realm}
use multi_proxy.Failover.Endpoint.{FailoverTunables, EndpointState}
use multi_proxy.Failover.Rule.{RuleState, new_rule, active_endpoint, fold_rule}

pub record FailoverEngine : Type 0 where
  pub rules : List RuleState
  pub by_id : List (Text × ℕ)
  pub tls : TlsPaths
  pub tls_available : Bool

pub record FailoverDecision : Type 0 where
  pub changed : Bool
  pub gost_config : Option Text
  pub realm_config : Option Text

-- From the certificate and key paths of the configuration directory.
unfoldable pub new_engine : TlsPaths → FailoverEngine
new_engine tls = record { rules = []; by_id = []; tls = tls; tls_available = false }

unfoldable pub set_tls_available : FailoverEngine → Bool → FailoverEngine
set_tls_available e available = record e { tls_available = available }

unfoldable pub is_active : FailoverEngine → Bool
is_active e = elim e.rules [ [] ↦ false | _ ↦ true ]

-- The state of a pushed rule, from the state under its id before the push.
unfoldable pub adopt : RuleSpec → Option RuleState → RuleState
adopt spec none = new_rule spec
adopt spec (some old) =
    if old.spec.backends == spec.backends then record old { spec = spec } else new_rule spec

-- The loop of `set_rules`: each state of the old engine is taken at most once.
unfoldable pub adopt_all : List (Text × RuleState) → List RuleSpec → List RuleState
unfolding adopt
adopt_all prev [] = []
adopt_all prev (spec ∷ specs) =
    adopt spec (get spec.rule_id prev) ∷ adopt_all (erase spec.rule_id prev) specs

abbrev pub keyed : List RuleState → List (Text × RuleState)
keyed = map λ rs. (rs.spec.rule_id, rs)

unfoldable pub numbered : ℕ → List RuleState → List (Text × ℕ)
numbered i [] = []
numbered i (rs ∷ rules) = (rs.spec.rule_id, i) ∷ numbered (suc i) rules

unfoldable pub set_rules : FailoverEngine → List RuleSpec → FailoverEngine
unfolding adopt_all numbered collect
set_rules e specs =
    let next = adopt_all (collect (keyed e.rules)) specs in
    record e { rules = next; by_id = collect (numbered 0 next) }

abbrev pub push_new : List BackendEndpoint → List BackendEndpoint → List BackendEndpoint
push_new out [] = out
push_new out (ep ∷ eps) = push_new (if contains out ep then out else out ++ (ep ∷ [])) eps

unfoldable pub flatten_backends : List BackendEndpoint → List RuleState → List BackendEndpoint
unfolding contains
flatten_backends out [] = out
flatten_backends out (rs ∷ rules) = flatten_backends (push_new out rs.spec.backends) rules

unfoldable pub flat_backends : FailoverEngine → List BackendEndpoint
unfolding flatten_backends
flat_backends e = flatten_backends [] e.rules

-- The view of a rule with its active replica as the backend.
unfoldable pub view : RuleState → Option ForwardRule
view rs = elim (active_endpoint rs) [
  | none ↦ none
  | some active ↦ some (record {
    id = rs.spec.rule_id;
    node_id = [];
    listen_port = rs.spec.listen_port;
    protocol = rs.spec.protocol;
    backend_host = active.host;
    backend_port = active.port;
    tool = rs.spec.tool;
    tls_mode = rs.spec.tls_mode;
    extra_backends = [];
  })
]

abbrev pub by_port : ForwardRule → ForwardRule → Bool
by_port a b = leb a.listen_port b.listen_port

-- The rules of one tool, by listen port.
unfoldable pub rules_of : Tool → List ForwardRule → List ForwardRule
unfolding filter sort_by
rules_of tool rules = sort_by by_port (filter (λ r. r.tool == tool) rules)

abbrev pub unless_empty : List ForwardRule → Text → Option Text
unless_empty [] text = none
unless_empty (r ∷ rules) text = some text

unfoldable pub active_backend : RuleState → Option ActiveBackend
active_backend rs = elim (active_endpoint rs) [
  | none ↦ none
  | some ep ↦ some (record { rule_id = rs.spec.rule_id; host = ep.host; port = ep.port })
]

unfoldable pub active_backends : FailoverEngine → List ActiveBackend
unfolding active_backend filter_map
active_backends e = filter_map active_backend e.rules

unfoldable pub all_rules_have_healthy_replica : FailoverEngine → Bool
unfolding any all
all_rules_have_healthy_replica e =
    all (λ rs. any (λ (s : EndpointState). s.up) rs.endpoints) e.rules

-- What phase 2 of the cycle gathers; `none` where a rule's step panics.
pub record Folded : Type 0 where
  pub rules : List RuleState
  pub all_health : List BackendHealth
  pub gost_changed : Bool
  pub realm_changed : Bool

abbrev pub is_gost : Tool → Bool
is_gost gost = true
is_gost realm = false

abbrev pub add_rule : RuleState × Bool → List BackendHealth → Folded → Folded
add_rule (rs, changed) health f = record {
  rules = rs ∷ f.rules;
  all_health = health ++ f.all_health;
  gost_changed = (changed && is_gost rs.spec.tool) || f.gost_changed;
  realm_changed = (changed && not (is_gost rs.spec.tool)) || f.realm_changed;
}

abbrev pub then_rule :
    Option (RuleState × Bool) → List BackendHealth → Option Folded → Option Folded
then_rule none health rest = none
then_rule (some r) health none = none
then_rule (some r) health (some f) = some (add_rule r health f)

-- `iter_mut().zip(health_per_rule)`: rules past the last health list stay as they are.
unfoldable pub fold_rules :
    List RuleState → List (List BackendHealth) → FailoverTunables → Option Folded
fold_rules [] hs t =
    some (record { rules = []; all_health = []; gost_changed = false; realm_changed = false })
fold_rules (rs ∷ rules) [] t =
    some
      (record { rules = rs ∷ rules; all_health = []; gost_changed = false; realm_changed = false })
fold_rules (rs ∷ rules) (h ∷ hs) t = then_rule (fold_rule rs h t) h (fold_rules rules hs t)

module _ (to_string_pretty : Json → Option Text) where
  unfoldable pub render_active : FailoverEngine → Option Text × Option Text
  unfolding rules_of view filter_map
  render_active e =
      let views = filter_map view e.rules in
      let tls = if e.tls_available then some e.tls else none in
      (
        unless_empty (rules_of gost views) (render_gost to_string_pretty (rules_of gost views) tls),
        unless_empty (rules_of realm views) (render_realm (rules_of realm views) tls),
      )

  unfoldable pub decide : FailoverEngine → Bool → Bool → FailoverDecision
  unfolding render_active
  decide e gost_changed realm_changed =
      if gost_changed || realm_changed
      then record {
        changed = true;
        gost_config = if gost_changed then (render_active e).0 else none;
        realm_config = if realm_changed then (render_active e).1 else none;
      }
      else record { changed = false; gost_config = none; realm_config = none }

  abbrev pub Cycle : Type 0
  Cycle = FailoverEngine × FailoverDecision × List BackendHealth

  abbrev cycle_end : FailoverEngine → Option Folded → Option Cycle
  cycle_end e none = none
  cycle_end e (some f) =
      let e' : FailoverEngine = record e { rules = f.rules } in
      some (e', decide e' f.gost_changed f.realm_changed, f.all_health)

  -- `probe` gives the health of each endpoint of a list, within the timeout.
  unfoldable pub probe_and_decide :
      (List BackendEndpoint → ℕ → List BackendHealth)
      → FailoverEngine
      → FailoverTunables
      → Option Cycle
  unfolding decide fold_rules
  probe_and_decide probe e tunables =
      let health_per_rule =
        map (λ (rs : RuleState). probe rs.spec.backends tunables.probe_timeout) e.rules in
      cycle_end e (fold_rules e.rules health_per_rule tunables)
