-- ===== src/Connections/Halting.antt =====
-- crates/panel/src/ws_server.rs with crates/agent/src/conn.rs: the kill-switch, from the panel to the agent.
use multi_proxy.Prelude.{
  ℕ, ◌≡◌, refl, ◌⊎◌, inl, inr, Bool, true, false, List, [], Option, Text, map, Bool-cases,
}
use multi_proxy.Contract.Model.{ForwardRule}
use multi_proxy.Relaycfg.{Json}
use multi_proxy.Failover.Endpoint.{FailoverTunables}
use multi_proxy.Supervisor.{Processes}
use multi_proxy.Session.Config.{Files}
use multi_proxy.Session.Pushing.{Session}
use multi_proxy.Session.Loop.{AgentConfig, Machine, probe_ticked, continues, on_config_push, run}
use multi_proxy.Session.KillSwitch.{kill_switch}
use multi_proxy.Connections.Versions.{agent_is_new}
use multi_proxy.Connections.Pushes.{push_of, rules_field, version_or_default}

halted :
    (killswitch : Bool) (version : Option Text) (rules : List ForwardRule)
    → (killswitch ≡ true) ⊎ (agent_is_new (version_or_default version) ≡ false)
    → rules_field killswitch version rules ≡ []
unfolding rules_field
halted killswitch version rules (inl e) = rw e refl
halted killswitch version rules (inr e) = elim (Bool-cases killswitch) [
  | inl k ↦ rw k refl
  | inr k ↦ rw k (rw e refl)
]

module _ (World Child E F : Type 0) (os : Processes World Child E) (fs : Files World E)
    (show : E → Text) (machine : Machine World F) (cfg : AgentConfig) (tunables : FailoverTunables)
    (heartbeat_interval : ℕ) where
  -- If the panel's kill-switch is on, or the agent's version is old or unknown, then whatever the node's rules, once an
  -- agent's session has taken the panel's push and goes on, probe ticks change nothing in it: no probe and no
  -- switch follows, however many ticks come.
  pub push_of-halts :
      (to_string_pretty : Json → Option Text) (rules : List ForwardRule)
      (chosen : Option (Text × Text)) (killswitch : Bool) (version : Option Text) (desired_gen : ℕ)
      (s s' : Session Child) (w w' : World) (ticks : List (ℕ → Bool))
      → (killswitch ≡ true) ⊎ (agent_is_new (version_or_default version) ≡ false)
      → on_config_push World Child E F os fs show machine cfg tunables heartbeat_interval s
          (push_of to_string_pretty rules chosen killswitch version desired_gen)
          w
        ≡ continues s' w'
      → run World Child E F os fs show machine cfg tunables heartbeat_interval
          (continues s' w')
          (map probe_ticked ticks)
        ≡ continues s' w'
  unfolding push_of
  push_of-halts to_string_pretty rules chosen killswitch version desired_gen s s' w w' ticks h q =
      kill_switch World Child E F os fs show machine cfg tunables heartbeat_interval s s'
        (push_of to_string_pretty rules chosen killswitch version desired_gen) w w' ticks
        (halted killswitch version rules h) q
