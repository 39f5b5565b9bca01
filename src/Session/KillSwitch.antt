-- ===== src/Session/KillSwitch.antt =====
-- crates/agent/src/conn.rs: a push without rules halts the switching between backends.
use multi_proxy.Prelude.{
  ℕ, ◌≡◌, refl, ap, ◌∙◌, subst, Bool, true, false, List, [], ◌∷◌, none, Text, map,
}
use multi_proxy.Contract.Messages.{ConfigPush}
use multi_proxy.Failover.Endpoint.{FailoverTunables}
use multi_proxy.Failover.Engine.{FailoverEngine, is_active, set_rules, set_tls_available, adopt_all}
use multi_proxy.Supervisor.{Processes}
use multi_proxy.Session.Config.{Files}
use multi_proxy.Session.Pushing.{Session, Acked, select_apply_push, adopted}
use multi_proxy.Session.Loop.{
  AgentConfig, Machine, probe_ticked, Step, continues, ended, panicked, replaced, sent_or,
  acked_step, on_config_push, on_probe_tick, step, run,
}
use multi_proxy.Session.Runs.{selected}

-- The session of a step that goes on has the engine.
abbrev HasEngine : {World Child : Type 0} → FailoverEngine → Step World Child → Type 0
HasEngine e (continues s w) = s.failover ≡ e
HasEngine e (ended end deps w) = Unit
HasEngine e panicked = Unit
HasEngine e replaced = Unit

module _ (World Child E F : Type 0) (os : Processes World Child E) (fs : Files World E)
    (show : E → Text) (machine : Machine World F) (cfg : AgentConfig) (tunables : FailoverTunables)
    (heartbeat_interval : ℕ) where
  sent-HasEngine :
      (s : Session Child) (why : Text) (x : Bool × World)
      → HasEngine s.failover
          (sent_or World Child E F os fs show machine cfg tunables heartbeat_interval s why x)
  sent-HasEngine s why (true, w) = refl
  sent-HasEngine s why (false, w) = tt

  acked-HasEngine :
      (e : FailoverEngine) (x : Acked World Child E os fs show)
      → HasEngine e
          (acked_step World Child E F os fs show machine cfg tunables heartbeat_interval e x)
  acked-HasEngine e (ack, (deps, w)) =
      sent-HasEngine (record { deps = deps; failover = e; last_health = none }) _ _

  without_rules :
      (e : FailoverEngine) (push : ConfigPush)
      → push.rules ≡ []
      → is_active (adopted machine.to_string_pretty e push) ≡ false
  unfolding is_active set_rules set_tls_available adopt_all
  without_rules e push h = rw h refl

  pushed_engine :
      (s s' : Session Child) (push : ConfigPush) (w w' : World)
      → on_config_push World Child E F os fs show machine cfg tunables heartbeat_interval s push w
        ≡ continues s' w'
      → s'.failover ≡ adopted machine.to_string_pretty s.failover push
  unfolding on_config_push
  pushed_engine s s' push w w' q =
      let sel = select_apply_push machine.to_string_pretty s.failover push in
      subst (HasEngine sel.failover) q (acked-HasEngine sel.failover _)
      ∙ (selected World Child E F os fs show machine cfg tunables heartbeat_interval s.failover
          push).0

  idle_tick :
      (s : Session Child) (w : World) (in_time : ℕ → Bool)
      → is_active s.failover ≡ false
      → on_probe_tick World Child E F os fs show machine cfg tunables heartbeat_interval s in_time w
        ≡ continues s w
  unfolding on_probe_tick
  idle_tick s w in_time a = rw a refl

  idle :
      (s : Session Child) (w : World) (ticks : List (ℕ → Bool))
      → is_active s.failover ≡ false
      → run World Child E F os fs show machine cfg tunables heartbeat_interval
          (continues s w)
          (map probe_ticked ticks)
        ≡ continues s w
  unfolding run step
  idle s w [] a = refl
  idle s w (t ∷ ticks) a =
      ap
        (λ st.
          run World Child E F os fs show machine cfg tunables heartbeat_interval st
            (map probe_ticked ticks))
        (idle_tick s w t a)
      ∙ idle s w ticks a

  -- The kill-switch: after a push without rules that the session survives, probe ticks do nothing at all, however many come.
  pub kill_switch :
      (s s' : Session Child) (push : ConfigPush) (w w' : World) (ticks : List (ℕ → Bool))
      → push.rules ≡ []
      → on_config_push World Child E F os fs show machine cfg tunables heartbeat_interval s push w
        ≡ continues s' w'
      → run World Child E F os fs show machine cfg tunables heartbeat_interval
          (continues s' w')
          (map probe_ticked ticks)
        ≡ continues s' w'
  kill_switch s s' push w w' ticks h q =
      idle s' w' ticks
        (ap is_active (pushed_engine s s' push w w' q) ∙ without_rules s.failover push h)
