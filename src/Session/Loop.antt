-- ===== src/Session/Loop.antt =====
-- crates/agent/src/conn.rs: the handshake and the loop of one session, as what each event does.
-- Sockets, clocks, counters and probes are the record `Machine`; the parser of frames is serde's.
use multi_proxy.Prelude.{
  ℕ, Bool, true, false, List, [], ◌∷◌, Option, none, some, Text, codes, if◌then◌else◌,
}
use multi_proxy.Prelude.Results.{Result, ok, err}
use multi_proxy.Contract.Model.{BackendEndpoint}
use multi_proxy.Contract.Protocol.{BackendHealth, StatusReport, ActiveBackend}
use multi_proxy.Contract.Messages.{
  Message, Envelope, envelope, Hello, heartbeat, status_report, config_ack, config_push, close,
  update_agent, ConfigPush,
}
use multi_proxy.Relaycfg.{Json}
use multi_proxy.Failover.Endpoint.{FailoverTunables}
use multi_proxy.Failover.Engine.{
  FailoverEngine, FailoverDecision, is_active, active_backends, all_rules_have_healthy_replica,
  probe_and_decide,
}
use multi_proxy.Supervisor.{Processes, heal_if_crashed, forwarding_up, pids, restart_count}
use multi_proxy.Sampler.{CounterSample, sample_at}
use multi_proxy.Session.Config.{Files, ConfigPaths}
use multi_proxy.Session.Report.{build}
use multi_proxy.Session.Backoff.{
  SessionEnd, disconnected, server_close, shutdown_signal, cycle_budget,
}
use multi_proxy.Session.Pushing.{
  SessionDeps, Session, Acked, select_apply_push, apply_and_ack, apply_failover_switch,
}

pub record AgentConfig : Type 0 where
  pub panel_url : Text
  pub node_id : Text
  pub token : Text
  pub agent_version : Text
  pub platform : Text
  pub config_paths : ConfigPaths

-- What the WebSocket library yields.
pub data WsMessage : Type 0 where
  ws_text : Text → WsMessage
  ws_close ws_other : WsMessage

pub data DecodeResult (F : Type 0) : Type 0 where
  received : Message F → DecodeResult F
  non_protocol closed : DecodeResult F
  transport_error : Text → DecodeResult F

-- What wakes the loop up: a change of the shutdown flag, the heartbeat's tick, the probe's tick, with whether
-- the cycle would end within the given budget, or an item of the stream.
pub data Event : Type 0 where
  shutdown_changed : Bool → Event
  ticked : Event
  probe_ticked : (ℕ → Bool) → Event
  arrived : Option (Result Text WsMessage) → Event

-- `send` tells whether it succeeded; the update gives no world if it replaces the process.
pub record Machine (World F : Type 0) : Type 0 where
  pub parse : Text → Option (Envelope F)
  pub to_string_pretty : Json → Option Text
  pub rate : ℕ → ℕ → ℕ
  pub send : Envelope F → World → Bool × World
  pub new_msg_id : World → Text
  pub now_millis : World → ℕ
  pub now : World → ℕ
  pub read_counters : World → Option CounterSample × World
  pub reachable : List BackendEndpoint → World → Bool × World
  pub probe : World → List BackendEndpoint → ℕ → List BackendHealth
  pub self_update : Text → World → Option World

unfoldable pub hello_of : AgentConfig → Hello
hello_of cfg = record {
  node_id = cfg.node_id;
  token = cfg.token;
  agent_version = cfg.agent_version;
  platform = cfg.platform;
}

abbrev decode_text : {F : Type 0} → Option (Envelope F) → DecodeResult F
decode_text none = non_protocol
decode_text (some env) = received env.message

unfoldable pub decode_next :
    {F : Type 0} → (Text → Option (Envelope F)) → Option (Result Text WsMessage) → DecodeResult F
decode_next parse none = closed
decode_next parse (some (err e)) = transport_error e
decode_next parse (some (ok (ws_text text))) = decode_text (parse text)
decode_next parse (some (ok ws_close)) = closed
decode_next parse (some (ok ws_other)) = non_protocol

pub data Step (World Child : Type 0) : Type 0 where
  continues : Session Child → World → Step World Child
  ended : SessionEnd → SessionDeps Child → World → Step World Child
  panicked replaced : Step World Child

module _ (World Child E F : Type 0) (os : Processes World Child E) (fs : Files World E)
    (show : E → Text) (machine : Machine World F) (cfg : AgentConfig) (tunables : FailoverTunables)
    (heartbeat_interval : ℕ) where
  abbrev pub post : Message F → World → Bool × World
  post m w = machine.send (envelope (machine.new_msg_id w) m) w

  -- Health for the report: of the rules if there are any, else of the flat list of backends.
  abbrev pub health_of :
      Session Child
      → World
      → (Bool × Option (List BackendHealth) × Option (List ActiveBackend)) × World
  health_of s w =
      if is_active s.failover
      then (
        (
          all_rules_have_healthy_replica s.failover,
          s.last_health,
          some (active_backends s.failover),
        ),
        w,
      )
      else let (up, w') = machine.reachable s.deps.backends w in ((up, none, none), w')

  abbrev pub report_of : Session Child → World → StatusReport F × (Session Child × World)
  report_of s w =
      let (sample, w1) = machine.read_counters w in
      let (capacity, collector) = sample_at machine.rate s.deps.capacity (machine.now w1) sample in
      let (up, w2) = forwarding_up World Child E os s.deps.supervisor w1 in
      let ((reachable, health, active), w3) = health_of s w2 in
      (
        build F (record {
          forwarding_up = up;
          backend_reachable = reachable;
          applied_config_gen = s.deps.applied_gen;
          restart_count = restart_count s.deps.supervisor;
          pids = pids World Child E os s.deps.supervisor;
          capacity = capacity;
          backend_health = health;
          active_backends = active;
        }),
        (record s { deps = record s.deps { capacity = collector } }, w3),
      )

  abbrev pub sent_or : Session Child → Text → Bool × World → Step World Child
  sent_or s why (true, w) = continues s w
  sent_or s why (false, w) = ended (disconnected true why) s.deps w

  abbrev pub report_after : Session Child → Bool × World → Step World Child
  report_after s (false, w) = ended (disconnected true (codes "heartbeat send failed")) s.deps w
  report_after s (true, w) =
      let (report, (s', w')) = report_of s w in
      sent_or s' (codes "status send failed") (post (status_report report) w')

  -- The heartbeat's tick: healing, whatever comes of it, the heartbeat and the report.
  unfoldable pub on_tick : Session Child → World → Step World Child
  unfolding heal_if_crashed forwarding_up pids restart_count build sample_at is_active
      active_backends all_rules_have_healthy_replica envelope
  on_tick s w =
      let (_, (supervisor, w1)) = heal_if_crashed World Child E os s.deps.supervisor w in
      let s1 : Session Child = record s { deps = record s.deps { supervisor = supervisor } } in
      report_after s1 (post (heartbeat (record { ts = machine.now_millis w1 })) w1)

  abbrev switch_if : FailoverDecision → SessionDeps Child → World → SessionDeps Child × World
  switch_if d deps w =
      if d.changed
      then apply_failover_switch World Child E os fs show d cfg.config_paths deps w
      else (deps, w)

  abbrev pub after_cycle :
      Session Child
      → World
      → Option (FailoverEngine × FailoverDecision × List BackendHealth)
      → Step World Child
  after_cycle s w none = panicked
  after_cycle s w (some (e, d, health)) =
      let (deps, w') = switch_if d s.deps w in
      continues (record { deps = deps; failover = e; last_health = some health }) w'

  unfoldable pub on_probe_tick : Session Child → (ℕ → Bool) → World → Step World Child
  unfolding is_active probe_and_decide apply_failover_switch cycle_budget
  on_probe_tick s in_time w =
      if is_active s.failover
      then (if in_time (cycle_budget tunables heartbeat_interval)
          then after_cycle s w
              (probe_and_decide machine.to_string_pretty (machine.probe w) s.failover tunables)
          else continues s w)
      else continues s w

  abbrev pub take_flat : Option (List BackendEndpoint) → SessionDeps Child → SessionDeps Child
  take_flat none deps = deps
  take_flat (some flat) deps = record deps { backends = flat }

  abbrev pub acked_step : FailoverEngine → Acked World Child E os fs show → Step World Child
  acked_step e (ack, (deps, w)) =
      sent_or (record { deps = deps; failover = e; last_health = none }) (codes "ack send failed")
        (post (config_ack ack) w)

  unfoldable pub on_config_push : Session Child → ConfigPush → World → Step World Child
  unfolding select_apply_push apply_and_ack envelope
  on_config_push s push w =
      let sel = select_apply_push machine.to_string_pretty s.failover push in
      acked_step sel.failover (
        apply_and_ack World Child E os fs show sel.apply_push cfg.config_paths
          (take_flat sel.flat s.deps) w)

  abbrev pub on_update : Session Child → Option World → Step World Child
  on_update s none = replaced
  on_update s (some w) = continues s w

  -- Any other kind of message is ignored.
  abbrev on_message : Session Child → Message F → World → Step World Child
  on_message s (config_push push) w = on_config_push s push w
  on_message s (close reason) w = ended (server_close reason) s.deps w
  on_message s update_agent w = on_update s (machine.self_update cfg.panel_url w)
  on_message s _ w = continues s w

  abbrev pub on_decoded : Session Child → DecodeResult F → World → Step World Child
  on_decoded s (received m) w = on_message s m w
  on_decoded s non_protocol w = continues s w
  on_decoded s closed w = ended (disconnected true (codes "peer closed")) s.deps w
  on_decoded s (transport_error e) w = ended (disconnected true e) s.deps w

  -- One turn of the loop.
  unfoldable pub step : Session Child → Event → World → Step World Child
  unfolding on_tick on_probe_tick on_config_push decode_next
  step s (shutdown_changed true) w = ended shutdown_signal s.deps w
  step s (shutdown_changed false) w = continues s w
  step s ticked w = on_tick s w
  step s (probe_ticked in_time) w = on_probe_tick s in_time w
  step s (arrived item) w = on_decoded s (decode_next machine.parse item) w

  -- A session that has ended takes no more events.
  abbrev pub advance : Step World Child → Event → Step World Child
  advance (continues s w) e = step s e w
  advance (ended end deps w) e = ended end deps w
  advance panicked e = panicked
  advance replaced e = replaced

  unfoldable pub run : Step World Child → List Event → Step World Child
  unfolding step
  run at [] = at
  run at (e ∷ events) = run (advance at e) events
