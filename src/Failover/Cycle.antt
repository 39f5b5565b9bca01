-- ===== src/Failover/Cycle.antt =====
-- crates/agent/src/failover.rs: what one probe cycle (`probe_and_decide`) does to the whole engine.
use multi_proxy.Prelude.{
  ℕ, ◌≡◌, sym, subst, ◌∙◌, ◌≢◌, ◌↔◌, Bool, true, false, List, Option, none, some, map, Text, All,
  arith,
}
use multi_proxy.Contract.Model.{BackendEndpoint, gost, realm}
use multi_proxy.Contract.Protocol.{BackendHealth}
use multi_proxy.Relaycfg.{Json, render_gost, render_realm}
use multi_proxy.Failover.Endpoint.{FailoverTunables}
use multi_proxy.Failover.Rule.{RuleState}
use multi_proxy.Failover.Validity.{EngineIsValid}
use multi_proxy.Failover.Push.{specs_of}
use multi_proxy.Failover.Engine.{
  FailoverEngine, FailoverDecision, Folded, fold_rules, decide, probe_and_decide,
}
use multi_proxy.Failover.Rendered.{to_render, tls_of, render_active-gost, render_active-realm}
use multi_proxy.Failover.Folding.{selection, ServesUp, concat_health, Exact, fold_rules_total}

some_inj {ℓ} : {A : Type ℓ} {a b : A} → some a ≡ some b → a ≡ b
some_inj h = cc

abbrev pub probe_rule :
    (List BackendEndpoint → ℕ → List BackendHealth)
    → FailoverTunables
    → RuleState
    → List BackendHealth
probe_rule probe t rs = probe rs.spec.backends t.probe_timeout

module _ (to_string_pretty : Json → Option Text)
    (probe : List BackendEndpoint → ℕ → List BackendHealth) where
  after_fold : FailoverEngine → Folded → FailoverEngine
  after_fold e f = record e { rules = f.rules }

  cycle_result :
      (e : FailoverEngine) (t : FailoverTunables) (f : Folded)
      → fold_rules e.rules (map (probe_rule probe t) e.rules) t ≡ some f
      → probe_and_decide to_string_pretty probe e t
        ≡ some (
          after_fold e f,
          decide to_string_pretty (after_fold e f) f.gost_changed f.realm_changed,
          f.all_health,
        )
  unfolding probe_and_decide after_fold
  cycle_result e t f q = rw q

  -- A cycle on a valid engine ends without a panic. It keeps the engine valid and its specifications as
  -- they are, reports the health of every endpoint in the order of rules and backends, and leaves every
  -- rule that has an endpoint which is up on an active endpoint that is up.
  pub probe_and_decide_total :
      (e : FailoverEngine) (t : FailoverTunables)
      → EngineIsValid e
      → (e' : FailoverEngine) × (d : FailoverDecision) × (health : List BackendHealth)
        × (probe_and_decide to_string_pretty probe e t ≡ some (e', d, health))
        × EngineIsValid e'
        × (specs_of e'.rules ≡ specs_of e.rules)
        × (health ≡ concat_health (map (probe_rule probe t) e.rules))
        × All ServesUp e'.rules
  unfolding after_fold
  probe_and_decide_total e t v =
      let (f, q, all) = fold_rules_total (probe_rule probe t) e.rules t v in
      (
        after_fold e f,
        decide to_string_pretty (after_fold e f) f.gost_changed f.realm_changed,
        f.all_health,
        cycle_result e t f q,
        all.valid,
        all.same_specs,
        all.health,
        all.serving,
      )

  -- What the decision holds, from flags that tell exactly whether a selection moved.
  abbrev Decides : FailoverEngine → FailoverEngine → FailoverDecision → Type 0
  Decides e e' d =
      (selection gost e'.rules ≡ selection gost e.rules → d.gost_config ≡ none)
      × (selection gost e'.rules ≢ selection gost e.rules
          → d.gost_config ≡ some (render_gost to_string_pretty (to_render gost e') (tls_of e')))
      × (selection realm e'.rules ≡ selection realm e.rules → d.realm_config ≡ none)
      × (selection realm e'.rules ≢ selection realm e.rules
          → d.realm_config ≡ some (render_realm (to_render realm e') (tls_of e')))
      × ((d.changed ≡ false)
          ↔ (selection gost e'.rules ≡ selection gost e.rules)
            × (selection realm e'.rules ≡ selection realm e.rules))

  decide-Decides :
      (e e' : FailoverEngine) (gost_changed realm_changed : Bool)
      → Exact gost_changed (selection gost e'.rules) (selection gost e.rules)
      → Exact realm_changed (selection realm e'.rules) (selection realm e.rules)
      → EngineIsValid e
      → EngineIsValid e'
      → specs_of e'.rules ≡ specs_of e.rules
      → Decides e e' (decide to_string_pretty e' gost_changed realm_changed)
  unfolding decide
  decide-Decides e e' true true g r v v' same =
      let gost_text = render_active-gost to_string_pretty e e' v v' same in
      let realm_text = render_active-realm to_string_pretty e e' v v' same in ground arith
  decide-Decides e e' true false g r v v' same =
      let gost_text = render_active-gost to_string_pretty e e' v v' same in
      let realm_text = render_active-realm to_string_pretty e e' v v' same in ground arith
  decide-Decides e e' false true g r v v' same =
      let gost_text = render_active-gost to_string_pretty e e' v v' same in
      let realm_text = render_active-realm to_string_pretty e e' v v' same in ground arith
  decide-Decides e e' false false g r v v' same =
      let gost_text = render_active-gost to_string_pretty e e' v v' same in
      let realm_text = render_active-realm to_string_pretty e e' v v' same in ground arith

  pub probe_and_decide_decision :
      (e : FailoverEngine) (t : FailoverTunables) (e' : FailoverEngine) (d : FailoverDecision)
      (health : List BackendHealth)
      → EngineIsValid e
      → probe_and_decide to_string_pretty probe e t ≡ some (e', d, health)
      → (selection gost e'.rules ≡ selection gost e.rules → d.gost_config ≡ none)
        × (selection gost e'.rules ≢ selection gost e.rules
            → d.gost_config ≡ some (render_gost to_string_pretty (to_render gost e') (tls_of e')))
        × (selection realm e'.rules ≡ selection realm e.rules → d.realm_config ≡ none)
        × (selection realm e'.rules ≢ selection realm e.rules
            → d.realm_config ≡ some (render_realm (to_render realm e') (tls_of e')))
        × ((d.changed ≡ false)
            ↔ (selection gost e'.rules ≡ selection gost e.rules)
              × (selection realm e'.rules ≡ selection realm e.rules))
  unfolding after_fold
  probe_and_decide_decision e t e' d health v r =
      let (f, q, all) = fold_rules_total (probe_rule probe t) e.rules t v in
      let same = some_inj (sym r ∙ cycle_result e t f q) in
      subst (λ (c : FailoverEngine × FailoverDecision × List BackendHealth). Decides e c.0 c.1)
        (sym same)
        (decide-Decides e (after_fold e f) f.gost_changed f.realm_changed all.gost_exact
          all.realm_exact v all.valid all.same_specs)
