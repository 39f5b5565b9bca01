-- ===== src/Session/Isolated.antt =====
-- crates/agent/src/conn.rs: what a probe cycle leaves alone.
use multi_proxy.Prelude.{
  ℕ, ◌≡◌, refl, sym, subst, inl, inr, Bool, List, ◌++◌, Option, none, some, Text, Bool-cases,
}
use multi_proxy.Prelude.Results.{Result, ok, err}
use multi_proxy.Contract.Model.{Tool, gost, realm}
use multi_proxy.Contract.Protocol.{BackendHealth}
use multi_proxy.Failover.Endpoint.{FailoverTunables}
use multi_proxy.Failover.Engine.{FailoverEngine, FailoverDecision, probe_and_decide, is_active}
use multi_proxy.Failover.Validity.{EngineIsValid}
use multi_proxy.Failover.Folding.{selection}
use multi_proxy.Failover.Cycle.{probe_and_decide_total, probe_and_decide_decision}
use multi_proxy.Supervisor.{Processes, Supervisor, slot, set_slot, start}
use multi_proxy.Session.Config.{Files, ConfigPaths, ApplyResult, apply, tool_start}
use multi_proxy.Session.Pushing.{
  SessionDeps, Session, synthetic, restart_changed, start_all, apply_failover_switch,
}
use multi_proxy.Session.Acks.{result_of, apply_result}
use multi_proxy.Session.Loop.{
  AgentConfig, Machine, Step, continues, ended, panicked, replaced, after_cycle, on_probe_tick,
}
use multi_proxy.Session.Backoff.{cycle_budget}

abbrev pub carried : Tool → Option Text → Option Text → Option Text
carried gost g r = g
carried realm g r = r

-- The configuration that a decision has for a tool.
abbrev pub config_for : Tool → FailoverDecision → Option Text
config_for tool d = carried tool d.gost_config d.realm_config

module _ (World Child E : Type 0) (os : Processes World Child E) (fs : Files World E)
    (show : E → Text) where
  start_others :
      (tool : Tool) (paths : ConfigPaths) (g r : Option Text) (s : Supervisor Child) (w : World)
      → carried tool g r ≡ none
      → slot
          (start_all World Child E os fs show
            (tool_start gost paths.gost g ++ tool_start realm paths.realm r)
            s
            w).1.0
          tool
        ≡ slot s tool
  unfolding start_all start slot set_slot
  start_others gost paths none none s w e = refl
  start_others gost paths none (some r) s w e = refl
  start_others gost paths (some g) r s w e = cc
  start_others realm paths none none s w e = refl
  start_others realm paths (some g) none s w e = refl
  start_others realm paths none (some r) s w e = cc
  start_others realm paths (some g) (some r) s w e = cc

  -- The generation, the probe's targets and the counters stay, and so does a tool without configuration.
  abbrev pub Leaves : FailoverDecision → SessionDeps Child → SessionDeps Child → Type 0
  Leaves d deps deps' =
      (deps'.applied_gen ≡ deps.applied_gen)
      × (deps'.backends ≡ deps.backends)
      × (deps'.capacity ≡ deps.capacity)
      × ((tool : Tool)
          → config_for tool d ≡ none
          → slot deps'.supervisor tool ≡ slot deps.supervisor tool)

  restart_changed-Leaves :
      (d : FailoverDecision) (paths : ConfigPaths) (deps : SessionDeps Child)
      (x : Result E ApplyResult × World)
      → ((r : ApplyResult)
          → x.0 ≡ ok r
          → r
            ≡ result_of World Child E os fs show (synthetic World Child E os fs show d deps) paths)
      → Leaves d deps (restart_changed World Child E os fs show deps x).0
  restart_changed-Leaves d paths deps (err e, w) h = (refl, refl, refl, λ tool e. refl)
  restart_changed-Leaves d paths deps (ok r, w) h = (
    refl,
    refl,
    refl,
    λ tool e.
        subst
          (λ (q : ApplyResult).
            slot (start_all World Child E os fs show q.starts deps.supervisor w).1.0 tool
            ≡ slot deps.supervisor tool)
          (sym (h r refl))
          (start_others tool paths d.gost_config d.realm_config deps.supervisor w e),
  )

  apply_failover_switch-Leaves :
      (d : FailoverDecision) (paths : ConfigPaths) (deps : SessionDeps Child) (w : World)
      → Leaves d deps (apply_failover_switch World Child E os fs show d paths deps w).0
  unfolding apply_failover_switch
  apply_failover_switch-Leaves d paths deps w =
      let push = synthetic World Child E os fs show d deps in
      restart_changed-Leaves d paths deps (apply World E fs push paths w)
        (apply_result World Child E os fs show push paths w)

  module _ (F : Type 0) (machine : Machine World F) (cfg : AgentConfig)
      (tunables : FailoverTunables) (heartbeat_interval : ℕ) where
    -- The session goes on with a valid engine, with its generation, its targets and its counters, and with
    -- every tool left alone for which no active backend moved.
    abbrev pub GoesOn : Session Child → Step World Child → Type 0
    GoesOn s (continues s' w') =
        EngineIsValid s'.failover
        × (s'.deps.applied_gen ≡ s.deps.applied_gen)
        × (s'.deps.backends ≡ s.deps.backends)
        × (s'.deps.capacity ≡ s.deps.capacity)
        × ((tool : Tool)
            → selection tool s'.failover.rules ≡ selection tool s.failover.rules
            → slot s'.deps.supervisor tool ≡ slot s.deps.supervisor tool)
    GoesOn s (ended end deps w') = ⊥
    GoesOn s panicked = ⊥
    GoesOn s replaced = ⊥

    no_config :
        (e : FailoverEngine) (e' : FailoverEngine) (d : FailoverDecision)
        (health : List BackendHealth) (w : World)
        → EngineIsValid e
        → probe_and_decide machine.to_string_pretty (machine.probe w) e tunables
          ≡ some (e', d, health)
        → (tool : Tool) → selection tool e'.rules ≡ selection tool e.rules
        → config_for tool d ≡ none
    no_config e e' d health w v q gost h =
        (probe_and_decide_decision machine.to_string_pretty (machine.probe w) e tunables e' d health
            v q).0
          h
    no_config e e' d health w v q realm h =
        (probe_and_decide_decision machine.to_string_pretty (machine.probe w) e tunables e' d health
            v q).2
          h

    switched :
        (s : Session Child) (w : World) (e' : FailoverEngine) (d : FailoverDecision)
        (health : List BackendHealth)
        → EngineIsValid e'
        → ((tool : Tool)
            → selection tool e'.rules ≡ selection tool s.failover.rules
            → config_for tool d ≡ none)
        → GoesOn s (
            after_cycle World Child E F os fs show machine cfg tunables heartbeat_interval s w
              (some (e', d, health)))
    unfolding apply_failover_switch
    switched s w e' d health v k = elim (Bool-cases d.changed) [
      | inl c ↦
          let (gen, flat, cap, others) = apply_failover_switch-Leaves d cfg.config_paths s.deps w in
          rw c (v, gen, flat, cap, λ tool h. others tool (k tool h))
      | inr c ↦ rw c (v, refl, refl, refl, λ tool h. refl)
    ]

    cycled :
        (s : Session Child) (w : World)
        → EngineIsValid s.failover
        → GoesOn s (
            after_cycle World Child E F os fs show machine cfg tunables heartbeat_interval s w
              (probe_and_decide machine.to_string_pretty (machine.probe w) s.failover tunables))
    cycled s w v =
        let (e', d, health, q, v', _, _, _) =
          probe_and_decide_total machine.to_string_pretty (machine.probe w) s.failover tunables v in
        subst
          (λ o.
            GoesOn s (
              after_cycle World Child E F os fs show machine cfg tunables heartbeat_interval s w o))
          (sym q) (switched s w e' d health v' (no_config s.failover e' d health w v q))

    -- A probe tick on a valid engine never ends the session: whether its cycle ends in time or not, the
    -- engine stays valid; the applied generation, the probe's targets and the traffic counters stay; and a tool
    -- none of whose rules moved to another backend is neither restarted nor stopped.
    pub on_probe_tick-GoesOn :
        (s : Session Child) (in_time : ℕ → Bool) (w : World)
        → EngineIsValid s.failover
        → GoesOn s (
            on_probe_tick World Child E F os fs show machine cfg tunables heartbeat_interval s
              in_time w)
    unfolding on_probe_tick
    on_probe_tick-GoesOn s in_time w v = elim (Bool-cases (is_active s.failover)) [
      | inl a ↦ rw a (elim (Bool-cases (in_time (cycle_budget tunables heartbeat_interval))) [
        | inl b ↦ rw b (cycled s w v)
        | inr b ↦ rw b (v, refl, refl, refl, λ tool h. refl)
      ])
      | inr a ↦ rw a (v, refl, refl, refl, λ tool h. refl)
    ]
