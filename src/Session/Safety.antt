-- ===== src/Session/Safety.antt =====
-- crates/agent/src/conn.rs: what holds of a whole session, from its handshake to its end.
use multi_proxy.Prelude.{
  ℕ, refl, inl, inr, Bool, true, false, List, [], ◌∷◌, ◌++◌, Option, none, some, Text, Member,
}
use multi_proxy.Contract.Messages.{
  Envelope, hello, heartbeat, status_report, config_ack, hello_ok, auth_reject, config_push, ping,
  close, update_agent,
}
use multi_proxy.Failover.Endpoint.{from_hello_ok}
use multi_proxy.Failover.Engine.{new_engine}
use multi_proxy.Failover.Validity.{EngineIsValid}
use multi_proxy.Supervisor.{Processes}
use multi_proxy.Session.Config.{Files}
use multi_proxy.Session.Pushing.{SessionDeps}
use multi_proxy.Session.Loop.{
  AgentConfig, Machine, DecodeResult, received, non_protocol, closed, transport_error, decode_next,
  Event, shutdown_changed, ticked, probe_ticked, arrived, Step, continues, ended, panicked,
  replaced, run,
}
use multi_proxy.Session.Handshake.{
  Handshake, welcomed, refused, waiting, on_greeting, handshake, heartbeat_of, new_session,
  after_handshake, greeted, run_session,
}
use multi_proxy.Session.Runs.{Keeps, pushed, gens_of, run-Keeps}

-- A session goes on with a valid engine, or has ended, or still waits for its greeting; it has not panicked,
-- and the generation applied is one of the given ones.
abbrev pub IsSafe : {World Child : Type 0} → List ℕ → Option (Step World Child) → Type 0
IsSafe gens none = Unit
IsSafe gens (some (continues s w)) = EngineIsValid s.failover × Member s.deps.applied_gen gens
IsSafe gens (some (ended end deps w)) = Member deps.applied_gen gens
IsSafe gens (some panicked) = ⊥
IsSafe gens (some replaced) = Unit

abbrev Includes : List ℕ → List ℕ → Type 0
Includes xs ys = (n : ℕ) → Member n ys → Member n xs

-- The events left after the handshake push no more than all the events do.
abbrev Within : {F : Type 0} → (Text → Option (Envelope F)) → List ℕ → Handshake → Type 0
Within parse gens (welcomed greeting rest) = Includes gens (pushed parse rest)
Within parse gens (refused end) = Unit
Within parse gens waiting = Unit

module _ {F : Type 0} (parse : Text → Option (Envelope F)) where
  Within-weaken :
      (xs ys : List ℕ) (h : Handshake) → Includes xs ys → Within parse ys h → Within parse xs h
  Within-weaken xs ys (welcomed greeting rest) i u = λ n m. i n (u n m)
  Within-weaken xs ys (refused end) i u = tt
  Within-weaken xs ys waiting i u = tt

  on_greeting-Within :
      (r : DecodeResult F) (events : List Event) (rest : Handshake)
      → Within parse (pushed parse events) rest
      → Within parse (gens_of r ++ pushed parse events) (on_greeting r events rest)
  on_greeting-Within (received (config_push push)) events rest u =
      Within-weaken (push.desired_gen ∷ pushed parse events) (pushed parse events) rest
        (λ n m. inr m) u
  on_greeting-Within (received (close reason)) events rest u = tt
  on_greeting-Within (received update_agent) events rest u = u
  on_greeting-Within (received (hello h)) events rest u = u
  on_greeting-Within (received (heartbeat h)) events rest u = u
  on_greeting-Within (received (status_report r)) events rest u = u
  on_greeting-Within (received (config_ack a)) events rest u = u
  on_greeting-Within (received (hello_ok h)) events rest u = λ n m. m
  on_greeting-Within (received (auth_reject r)) events rest u = tt
  on_greeting-Within (received ping) events rest u = u
  on_greeting-Within non_protocol events rest u = u
  on_greeting-Within closed events rest u = tt
  on_greeting-Within (transport_error e) events rest u = tt

  handshake-Within :
      (events : List Event) → Within parse (pushed parse events) (handshake parse events)
  unfolding handshake pushed
  handshake-Within [] = tt
  handshake-Within (shutdown_changed true ∷ events) = tt
  handshake-Within (shutdown_changed false ∷ events) = handshake-Within events
  handshake-Within (ticked ∷ events) = handshake-Within events
  handshake-Within (probe_ticked in_time ∷ events) = handshake-Within events
  handshake-Within (arrived item ∷ events) =
      on_greeting-Within (decode_next parse item) events (handshake parse events)
        (handshake-Within events)

Keeps-IsSafe :
    {World Child : Type 0} (gens all : List ℕ) (st : Step World Child)
    → Includes all gens
    → Keeps gens st
    → IsSafe all (some st)
Keeps-IsSafe gens all (continues s w) i k = (k.0, i s.deps.applied_gen k.1)
Keeps-IsSafe gens all (ended end deps w) i k = i deps.applied_gen k.1
Keeps-IsSafe gens all panicked i k = k
Keeps-IsSafe gens all replaced i k = tt

module _ (World Child E F : Type 0) (os : Processes World Child E) (fs : Files World E)
    (show : E → Text) (machine : Machine World F) (cfg : AgentConfig) where
  welcomed-IsSafe :
      (deps : SessionDeps Child) (gens : List ℕ) (w : World) (h : Handshake)
      → Within machine.parse gens h
      → IsSafe
          (deps.applied_gen ∷ gens)
          (after_handshake World Child E F os fs show machine cfg deps w h)
  unfolding new_session new_engine
  welcomed-IsSafe deps gens w (welcomed greeting rest) u =
      let st : Step World Child = continues (new_session cfg.config_paths deps) w in
      let t = from_hello_ok greeting in
      let h = heartbeat_of greeting in
      Keeps-IsSafe (deps.applied_gen ∷ pushed machine.parse rest) (deps.applied_gen ∷ gens)
        (run World Child E F os fs show machine cfg t h st rest)
        (λ n m. elim m [ inl e ↦ inl e | inr q ↦ inr (u n q) ])
        (run-Keeps World Child E F os fs show machine cfg t h (deps.applied_gen ∷ []) st rest
          (tt, inl refl))
  welcomed-IsSafe deps gens w (refused end) u = inl refl
  welcomed-IsSafe deps gens w waiting u = tt

  greeted-IsSafe :
      (deps : SessionDeps Child) (events : List Event) (x : Bool × World)
      → IsSafe
          (deps.applied_gen ∷ pushed machine.parse events)
          (greeted World Child E F os fs show machine cfg deps events x)
  greeted-IsSafe deps events (false, w) = inl refl
  greeted-IsSafe deps events (true, w) =
      welcomed-IsSafe deps (pushed machine.parse events) w (handshake machine.parse events)
        (handshake-Within machine.parse events)

  -- Whatever events come, a session never panics and its engine stays valid; and the generation it leaves
  -- applied is the one it started with or that of a push that came. So neither switches to another backend
  -- nor refused pushes make up a generation.
  pub run_session-IsSafe :
      (deps : SessionDeps Child) (events : List Event) (w : World)
      → IsSafe
          (deps.applied_gen ∷ pushed machine.parse events)
          (run_session World Child E F os fs show machine cfg deps events w)
  unfolding run_session
  run_session-IsSafe deps events w = greeted-IsSafe deps events _
