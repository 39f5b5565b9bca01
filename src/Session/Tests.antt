-- ===== src/Session/Tests.antt =====
-- crates/agent/src/conn.rs: a session over a small operating system.
use multi_proxy.Prelude.{
  ℕ, ◌+◌, ◌*◌, ◌≡◌, refl, true, false, List, [], ◌∷◌, ◌++◌, Option, none, some, Text, codes, map,
  list_beq, nat_beq, nat_eq, if◌then◌else◌,
}
use multi_proxy.Contract.Model.{ForwardRule}
use multi_proxy.Relaycfg.{Json}
use multi_proxy.Prelude.{inl}
use multi_proxy.Prelude.Results.{ok}
use multi_proxy.Contract.Model.{BackendEndpoint, realm, tcp, passthrough}
use multi_proxy.Contract.Protocol.{BackendHealth, HelloOk, RuleSpec, nic_delta}
use multi_proxy.Contract.Messages.{
  Envelope, envelope, ConfigPush, hello_ok, config_push, token_rotated,
}
use multi_proxy.Failover.Endpoint.{FailoverTunables}
use multi_proxy.Failover.Engine.{new_engine, set_rules}
use multi_proxy.Failover.Validity.{set_rules-IsValid}
use multi_proxy.Supervisor.{Processes, new_supervisor}
use multi_proxy.Sampler.{new_collector}
use multi_proxy.Session.Config.{Files, under}
use multi_proxy.Session.Backoff.{
  Attempt, slept, woken, disconnected, server_close, run_reconnect_loop, new_backoff, nanos_per_sec,
}
use multi_proxy.Session.Pushing.{SessionDeps, Session}
use multi_proxy.Session.Loop.{
  AgentConfig, Machine, ws_text, Event, ticked, probe_ticked, arrived, Step, continues,
  on_probe_tick, on_config_push, run,
}
use multi_proxy.Session.Handshake.{run_session, new_session, tls_of}
use multi_proxy.Session.Isolated.{GoesOn, on_probe_tick-GoesOn}
use multi_proxy.Session.Runs.{pushed}
use multi_proxy.Session.Safety.{IsSafe, run_session-IsSafe}
use multi_proxy.Connections.Pushes.{push_of}
use multi_proxy.Connections.Halting.{push_of-halts}

-- The world is the next process id.
abbrev small_os : Processes ℕ ℕ Text
small_os = record {
  is_running = λ c w. (ok true, w);
  kill = λ c w. (ok tt, w);
  pid = λ c. some c;
  spawn = λ tool path w. (ok w, w + 1);
}

abbrev small_fs : Files ℕ Text
small_fs = record {
  join = λ base name. base ++ (codes "/" ++ name);
  parent = λ path. some (codes "/etc");
  create_dir_all = λ dir w. (ok tt, w);
  write = λ path text w. (ok tt, w);
}

abbrev endpoint : Text → BackendEndpoint
endpoint host = record { host = host; port = 9 }

abbrev one_rule : RuleSpec
one_rule = record {
  rule_id = codes "r";
  listen_port = 8;
  protocol = tcp;
  tls_mode = passthrough;
  tool = realm;
  backends = endpoint (codes "a") ∷ endpoint (codes "b") ∷ [];
}

abbrev with_rule : ConfigPush
with_rule = record {
  desired_gen = 5;
  gost_config = none;
  realm_config = some (codes "realm");
  tls_cert_pem = none;
  tls_key_pem = none;
  backends = [];
  rules = one_rule ∷ [];
}

abbrev without_rule : ConfigPush
without_rule = record with_rule { desired_gen = 6; gost_config = some (codes "gost"); rules = [] }

abbrev greeting : HelloOk
greeting = record {
  session = codes "s";
  heartbeat_interval_secs = 20;
  probe_interval_secs = 5;
  probe_timeout_ms = 1000;
  failover_max_fails = 1;
  failover_recovery_checks = 6;
  min_dwell_secs = 60;
}

abbrev parse_frame : Text → Option (Envelope Unit)
parse_frame [] = none
parse_frame (c ∷ frame) =
    if nat_beq c 1
    then some (envelope [] (hello_ok greeting))
    else if nat_beq c 2
    then some (envelope [] (config_push with_rule))
    else if nat_beq c 3
    then some (envelope [] (config_push without_rule))
    else none

-- Only the host `b` is reachable.
abbrev probe_one : BackendEndpoint → BackendHealth
probe_one e = record { host = e.host; port = e.port; reachable = list_beq e.host (codes "b") }

abbrev small_machine : Machine ℕ Unit
small_machine = record {
  parse = parse_frame;
  to_string_pretty = λ json. none;
  rate = λ bytes nanos. bytes;
  send = λ env w. (true, w);
  new_msg_id = λ w. codes "m";
  now_millis = λ w. w;
  now = λ w. w;
  read_counters = λ w. (none, w);
  reachable = λ targets w. (true, w);
  probe = λ w targets timeout. map probe_one targets;
  self_update = λ url w. some w;
}

abbrev agent : AgentConfig
agent = record {
  panel_url = codes "wss://panel";
  node_id = codes "n";
  token = codes "t";
  agent_version = codes "0";
  platform = codes "x86_64-linux";
  config_paths = under ℕ Text small_fs (codes "/etc");
}

abbrev show_text : Text → Text
show_text e = e

abbrev fresh : SessionDeps ℕ
fresh = record {
  supervisor = new_supervisor ℕ;
  capacity = new_collector nic_delta 1 40;
  backends = [];
  applied_gen = 0;
}

abbrev frame : ℕ → Event
frame n = arrived (some (ok (ws_text (n ∷ []))))

abbrev some_events : List Event
some_events = frame 1 ∷ frame 2 ∷ ticked ∷ probe_ticked (λ budget. true) ∷ frame 3 ∷ frame 9 ∷ []

-- The generation and the running processes of a step that goes on.
abbrev seen : Option (Step ℕ ℕ) → ℕ × ℕ
seen (some (continues s w)) = (s.deps.applied_gen, w)
seen _ = (0, 0)

-- A push for both tools, before a heartbeat: two processes.
run_session_test :
    seen (
      run_session ℕ ℕ Text Unit small_os small_fs show_text small_machine agent fresh
        (frame 1 ∷ frame 3 ∷ ticked ∷ [])
        10)
    ≡ (6, 12)
unfolding run_session new_supervisor
run_session_test = refl

run_session-IsSafe_example :
    IsSafe (0 ∷ pushed parse_frame some_events) (
      run_session ℕ ℕ Text Unit small_os small_fs show_text small_machine agent fresh some_events
        10)
run_session-IsSafe_example =
    run_session-IsSafe ℕ ℕ Text Unit small_os small_fs show_text small_machine agent fresh
      some_events 10

abbrev quick : FailoverTunables
quick = record {
  probe_interval = 5000;
  probe_timeout = 1000;
  max_fails = 1;
  recovery_checks = 6;
  min_dwell = 60000;
}

abbrev armed : Session ℕ
armed = record (new_session agent.config_paths fresh) {
  failover = set_rules (new_engine (tls_of agent.config_paths)) (one_rule ∷ []);
}

on_probe_tick-GoesOn_example :
    GoesOn ℕ ℕ Text small_os small_fs show_text Unit small_machine agent quick 20000 armed (
      on_probe_tick ℕ ℕ Text Unit small_os small_fs show_text small_machine agent quick 20000 armed
        (λ budget. true)
        10)
unfolding new_engine
on_probe_tick-GoesOn_example =
    on_probe_tick-GoesOn ℕ ℕ Text small_os small_fs show_text Unit small_machine agent quick 20000
      armed (λ budget. true) 10
      (set_rules-IsValid (new_engine (tls_of agent.config_paths)) (one_rule ∷ []) tt)

abbrev attempts : List Attempt
attempts =
    record { shut_before = false; session_end = disconnected false []; jitter = 7; sleep = slept }
    ∷ record { shut_before = false; session_end = disconnected false []; jitter = 0; sleep = woken }
    ∷ record { shut_before = false; session_end = disconnected true []; jitter = 0; sleep = slept }
    ∷ record {
      shut_before = false;
      session_end = server_close token_rotated;
      jitter = 0;
      sleep = slept;
    }
    ∷ []

-- One second, two, and one again.
run_reconnect_loop_test :
    run_reconnect_loop attempts (new_backoff nanos_per_sec (30 * nanos_per_sec))
    ≡ (1000000007, slept) ∷ (2000000000, woken) ∷ (1000000000, slept) ∷ []
unfolding run_reconnect_loop new_backoff
run_reconnect_loop_test = refl

abbrev engine_of : Step ℕ ℕ → Session ℕ
engine_of (continues s w) = s
engine_of _ = armed

abbrev pushed_step : Step ℕ ℕ
pushed_step =
    on_config_push ℕ ℕ Text Unit small_os small_fs show_text small_machine agent quick 20000 armed
      without_rule 10

pushed_continues : pushed_step ≡ continues (engine_of pushed_step) 12
unfolding on_config_push new_session new_supervisor
pushed_continues = refl

abbrev forward : ForwardRule
forward = record {
  id = codes "r";
  node_id = codes "n";
  listen_port = 8;
  protocol = tcp;
  backend_host = codes "a";
  backend_port = 9;
  tool = realm;
  tls_mode = passthrough;
  extra_backends = endpoint (codes "b") ∷ [];
}

abbrev no_json : Json → Option Text
no_json json = none

abbrev halting_step : Step ℕ ℕ
halting_step =
    on_config_push ℕ ℕ Text Unit small_os small_fs show_text small_machine agent quick 20000 armed
      (push_of no_json (forward ∷ []) none true (some (codes "v0.12.0")) 7) 10

halting_continues : halting_step ≡ continues (engine_of halting_step) 11
unfolding on_config_push push_of new_session new_supervisor
halting_continues = refl

push_of-halts_example :
    run ℕ ℕ Text Unit small_os small_fs show_text small_machine agent quick 20000
      (continues (engine_of halting_step) 11)
      (map probe_ticked ((λ budget. true) ∷ []))
    ≡ continues (engine_of halting_step) 11
push_of-halts_example =
    push_of-halts ℕ ℕ Text Unit small_os small_fs show_text small_machine agent quick 20000 no_json
      (forward ∷ []) none true (some (codes "v0.12.0")) 7 armed (engine_of halting_step) 10 11
      ((λ budget. true) ∷ []) (inl refl) halting_continues
