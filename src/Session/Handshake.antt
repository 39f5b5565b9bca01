-- ===== src/Session/Handshake.antt =====
-- crates/agent/src/conn.rs: the handshake, and a session from it to its end.
use multi_proxy.Prelude.{
  ℕ, ◌*◌, Bool, true, false, List, [], ◌∷◌, Option, none, some, Text, codes, ltb, if◌then◌else◌,
}
use multi_proxy.Contract.Protocol.{HelloOk}
use multi_proxy.Contract.Messages.{
  Envelope, envelope, hello, hello_ok, auth_reject, close, default_heartbeat_interval_secs,
}
use multi_proxy.Relaycfg.{TlsPaths}
use multi_proxy.Failover.Endpoint.{from_hello_ok}
use multi_proxy.Failover.Engine.{new_engine}
use multi_proxy.Supervisor.{Processes}
use multi_proxy.Session.Config.{Files, ConfigPaths}
use multi_proxy.Session.Backoff.{
  SessionEnd, disconnected, auth_rejected, server_close, shutdown_signal,
}
use multi_proxy.Session.Pushing.{SessionDeps, Session}
use multi_proxy.Session.Loop.{
  AgentConfig, Machine, DecodeResult, received, non_protocol, closed, transport_error, decode_next,
  Event, shutdown_changed, ticked, probe_ticked, arrived, Step, continues, ended, hello_of, run,
}

-- What the handshake waits for, with the events that are left.
pub data Handshake : Type 0 where
  welcomed : HelloOk → List Event → Handshake
  refused : SessionEnd → Handshake
  waiting : Handshake

abbrev pub on_greeting : {F : Type 0} → DecodeResult F → List Event → Handshake → Handshake
on_greeting (received (hello_ok greeting)) events rest = welcomed greeting events
on_greeting (received (auth_reject reason)) events rest = refused (auth_rejected reason)
on_greeting (received (close reason)) events rest = refused (server_close reason)
on_greeting (received _) events rest = rest
on_greeting closed events rest = refused (disconnected false (codes "closed during handshake"))
on_greeting (transport_error e) events rest = refused (disconnected false e)
on_greeting non_protocol events rest = rest

-- There are no ticks before the handshake's end.
unfoldable pub handshake : {F : Type 0} → (Text → Option (Envelope F)) → List Event → Handshake
unfolding decode_next
handshake parse [] = waiting
handshake parse (shutdown_changed true ∷ events) = refused shutdown_signal
handshake parse (shutdown_changed false ∷ events) = handshake parse events
handshake parse (ticked ∷ events) = handshake parse events
handshake parse (probe_ticked in_time ∷ events) = handshake parse events
handshake parse (arrived item ∷ events) =
    on_greeting (decode_next parse item) events (handshake parse events)

-- In milliseconds; zero seconds keep the default.
unfoldable pub heartbeat_of : HelloOk → ℕ
heartbeat_of greeting =
    (if ltb 0 greeting.heartbeat_interval_secs
      then greeting.heartbeat_interval_secs
      else default_heartbeat_interval_secs)
    * 1000

abbrev pub tls_of : ConfigPaths → TlsPaths
tls_of paths = record { cert = paths.tls_cert; key = paths.tls_key }

-- A session before its first event: an engine without rules.
unfoldable pub new_session : {Child : Type 0} → ConfigPaths → SessionDeps Child → Session Child
unfolding new_engine
new_session paths deps = record {
  deps = deps;
  failover = new_engine (tls_of paths);
  last_health = none;
}

module _ (World Child E F : Type 0) (os : Processes World Child E) (fs : Files World E)
    (show : E → Text) (machine : Machine World F) (cfg : AgentConfig) where
  -- A session that still waits for its greeting is given by `none`.
  abbrev pub after_handshake : SessionDeps Child → World → Handshake → Option (Step World Child)
  after_handshake deps w (welcomed greeting events) = some (
      run World Child E F os fs show machine cfg (from_hello_ok greeting) (heartbeat_of greeting)
        (continues (new_session cfg.config_paths deps) w) events)
  after_handshake deps w (refused end) = some (ended end deps w)
  after_handshake deps w waiting = none

  abbrev pub greeted : SessionDeps Child → List Event → Bool × World → Option (Step World Child)
  greeted deps events (false, w) =
      some (ended (disconnected false (codes "send Hello failed")) deps w)
  greeted deps events (true, w) = after_handshake deps w (handshake machine.parse events)

  unfoldable pub run_session : SessionDeps Child → List Event → World → Option (Step World Child)
  unfolding hello_of envelope handshake from_hello_ok heartbeat_of new_session run
  run_session deps events w =
      greeted deps events (machine.send (envelope (machine.new_msg_id w) (hello (hello_of cfg))) w)
