-- ===== src/Session/Runs.antt =====
-- crates/agent/src/conn.rs: what holds after every run of events of a session.
use multi_proxy.Prelude.{
  ℕ, ◌≡◌, refl, sym, subst, ◌⊎◌, inl, inr, Bool, true, false, List, [], ◌∷◌, ◌++◌, Option, none,
  some, Text, codes, Bool-cases, Member, Member-append_left, Member-append_right,
}
use mathlib.Core.List.{append-nil, append_assoc}
use multi_proxy.Contract.Model.{BackendEndpoint}
use multi_proxy.Contract.Messages.{
  Envelope, ConfigPush, hello, heartbeat, status_report, config_ack, hello_ok, auth_reject,
  config_push, ping, close, update_agent,
}
use multi_proxy.Failover.Endpoint.{FailoverTunables}
use multi_proxy.Failover.Engine.{FailoverEngine, set_tls_available, is_active}
use multi_proxy.Failover.Validity.{EngineIsValid, set_rules-IsValid}
use multi_proxy.Supervisor.{Processes}
use multi_proxy.Session.Config.{Files}
use multi_proxy.Session.Backoff.{was_established}
use multi_proxy.Session.Pushing.{
  SessionDeps, Session, Acked, select_apply_push, adopted, apply_and_ack,
}
use multi_proxy.Session.Acks.{SlotsInForce, Refused, apply_and_ack_slots}
use multi_proxy.Session.Isolated.{GoesOn, on_probe_tick-GoesOn}
use multi_proxy.Session.Loop.{
  AgentConfig, Machine, DecodeResult, received, non_protocol, closed, transport_error, decode_next,
  Event, shutdown_changed, ticked, probe_ticked, arrived, Step, continues, ended, panicked,
  replaced, sent_or, report_after, on_tick, on_config_push, on_decoded, on_update, step, advance,
  run, post, acked_step, take_flat,
}

-- The generation of a push.
abbrev pub gens_of : {F : Type 0} → DecodeResult F → List ℕ
gens_of (received (config_push push)) = push.desired_gen ∷ []
gens_of (received _) = []
gens_of non_protocol = []
gens_of closed = []
gens_of (transport_error e) = []

abbrev pub gens_in : {F : Type 0} → (Text → Option (Envelope F)) → Event → List ℕ
gens_in parse (arrived item) = gens_of (decode_next parse item)
gens_in parse (shutdown_changed b) = []
gens_in parse ticked = []
gens_in parse (probe_ticked in_time) = []

-- The generations that the panel has pushed in some events.
unfoldable pub pushed : {F : Type 0} → (Text → Option (Envelope F)) → List Event → List ℕ
unfolding decode_next
pushed parse [] = []
pushed parse (e ∷ events) = gens_in parse e ++ pushed parse events

-- The engine stays valid, and no generation is applied but the given ones. A session that ends was
-- established, and none panics.
abbrev pub Keeps : {World Child : Type 0} → List ℕ → Step World Child → Type 0
Keeps gens (continues s w) = EngineIsValid s.failover × Member s.deps.applied_gen gens
Keeps gens (ended end deps w) = (was_established end ≡ true) × Member deps.applied_gen gens
Keeps gens panicked = ⊥
Keeps gens replaced = Unit

module _ (World Child E F : Type 0) (os : Processes World Child E) (fs : Files World E)
    (show : E → Text) (machine : Machine World F) (cfg : AgentConfig) (tunables : FailoverTunables)
    (heartbeat_interval : ℕ) where
  sent-Keeps :
      (gens : List ℕ) (s : Session Child) (why : Text) (x : Bool × World)
      → EngineIsValid s.failover
      → Member s.deps.applied_gen gens
      → Keeps gens
          (sent_or World Child E F os fs show machine cfg tunables heartbeat_interval s why x)
  unfolding was_established
  sent-Keeps gens s why (true, w) v m = (v, m)
  sent-Keeps gens s why (false, w) v m = (refl, m)

  reported-Keeps :
      (gens : List ℕ) (s : Session Child) (x : Bool × World)
      → EngineIsValid s.failover
      → Member s.deps.applied_gen gens
      → Keeps gens
          (report_after World Child E F os fs show machine cfg tunables heartbeat_interval s x)
  unfolding was_established
  reported-Keeps gens s (false, w) v m = (refl, m)
  reported-Keeps gens s (true, w) v m = sent-Keeps gens _ _ _ v m

  on_tick-Keeps :
      (gens : List ℕ) (s : Session Child) (w : World)
      → EngineIsValid s.failover
      → Member s.deps.applied_gen gens
      → Keeps gens (on_tick World Child E F os fs show machine cfg tunables heartbeat_interval s w)
  unfolding on_tick
  on_tick-Keeps gens s w v m = reported-Keeps gens _ _ v m

  GoesOn-Keeps :
      (gens : List ℕ) (s : Session Child) (st : Step World Child)
      → Member s.deps.applied_gen gens
      → GoesOn World Child E os fs show F machine cfg tunables heartbeat_interval s st
      → Keeps gens st
  GoesOn-Keeps gens s (continues s' w) m g = (g.0, subst (λ n. Member n gens) (sym g.1) m)
  GoesOn-Keeps gens s (ended end deps w) m g = absurd g
  GoesOn-Keeps gens s panicked m g = absurd g
  GoesOn-Keeps gens s replaced m g = absurd g

  -- The selection keeps the push's generation, and its engine has the push's rules.
  pub selected :
      (e : FailoverEngine) (push : ConfigPush)
      → let sel = select_apply_push machine.to_string_pretty e push in
        (sel.failover ≡ adopted machine.to_string_pretty e push)
        × (sel.apply_push.desired_gen ≡ push.desired_gen)
  unfolding select_apply_push
  selected e push = elim (Bool-cases (is_active (adopted machine.to_string_pretty e push))) [
    | inl a ↦ rw a (refl, refl)
    | inr a ↦ rw a (refl, refl)
  ]

  selected-IsValid :
      (e : FailoverEngine) (push : ConfigPush)
      → EngineIsValid e
      → EngineIsValid (select_apply_push machine.to_string_pretty e push).failover
  unfolding set_tls_available
  selected-IsValid e push v =
      subst EngineIsValid (sym (selected e push).0) (set_rules-IsValid e push.rules v)

  -- Whether a push is accepted or refused, the generation is one of the old ones or its own.
  answered-Member :
      (push : ConfigPush) (deps : SessionDeps Child) (gens : List ℕ)
      (x : Acked World Child E os fs show)
      → Member deps.applied_gen gens
      → SlotsInForce World Child E os fs show push cfg.config_paths x
        ⊎ Refused World Child E os fs show deps x
      → Member x.1.0.applied_gen (gens ++ (push.desired_gen ∷ []))
  answered-Member push deps gens x m (inl f) =
      Member-append_right x.1.0.applied_gen gens (push.desired_gen ∷ []) (inl (sym f.1))
  answered-Member push deps gens x m (inr r) =
      Member-append_left x.1.0.applied_gen gens (push.desired_gen ∷ [])
        (subst (λ n. Member n gens) (sym r.3) m)

  take_flat-gen :
      (flat : Option (List BackendEndpoint)) (deps : SessionDeps Child)
      → (take_flat World Child E F os fs show machine cfg tunables heartbeat_interval flat
          deps).applied_gen
        ≡ deps.applied_gen
  take_flat-gen none deps = refl
  take_flat-gen (some flat) deps = refl

  acked-Keeps :
      (gens : List ℕ) (e : FailoverEngine) (x : Acked World Child E os fs show)
      → EngineIsValid e
      → Member x.1.0.applied_gen gens
      → Keeps gens
          (acked_step World Child E F os fs show machine cfg tunables heartbeat_interval e x)
  acked-Keeps gens e (ack, (deps, w)) v m =
      sent-Keeps gens (record { deps = deps; failover = e; last_health = none })
        (codes "ack send failed")
        (post World Child E F os fs show machine cfg tunables heartbeat_interval (config_ack ack) w)
        v m

  on_config_push-Keeps :
      (gens : List ℕ) (s : Session Child) (push : ConfigPush) (w : World)
      → EngineIsValid s.failover
      → Member s.deps.applied_gen gens
      → Keeps (gens ++ (push.desired_gen ∷ [])) (
          on_config_push World Child E F os fs show machine cfg tunables heartbeat_interval s push
            w)
  unfolding on_config_push
  on_config_push-Keeps gens s push w v m =
      let sel = select_apply_push machine.to_string_pretty s.failover push in
      let deps =
        take_flat World Child E F os fs show machine cfg tunables heartbeat_interval sel.flat
          s.deps in
      let m' =
        answered-Member sel.apply_push deps gens
          (apply_and_ack World Child E os fs show sel.apply_push cfg.config_paths deps w)
          (subst (λ n. Member n gens) (sym (take_flat-gen sel.flat s.deps)) m)
          (apply_and_ack_slots World Child E os fs show sel.apply_push cfg.config_paths deps w) in
      acked-Keeps (gens ++ (push.desired_gen ∷ [])) sel.failover
        (apply_and_ack World Child E os fs show sel.apply_push cfg.config_paths deps w)
        (selected-IsValid s.failover push v)
        (subst
          (λ n.
            Member
              (apply_and_ack World Child E os fs show sel.apply_push cfg.config_paths deps
                w).1.0.applied_gen
              (gens ++ (n ∷ [])))
          (selected s.failover push).1 m')

  on_decoded-Keeps :
      (gens : List ℕ) (s : Session Child) (r : DecodeResult F) (w : World)
      → EngineIsValid s.failover
      → Member s.deps.applied_gen gens
      → Keeps
          (gens ++ gens_of r)
          (on_decoded World Child E F os fs show machine cfg tunables heartbeat_interval s r w)
  unfolding was_established
  on_decoded-Keeps gens s (received (config_push push)) w v m =
      on_config_push-Keeps gens s push w v m
  on_decoded-Keeps gens s (received (close reason)) w v m = (refl, Member-append_left _ gens [] m)
  on_decoded-Keeps gens s (received update_agent) w v m =
      updated (machine.self_update cfg.panel_url w)
    where
      updated :
          (o : Option World)
          → Keeps
              (gens ++ [])
              (on_update World Child E F os fs show machine cfg tunables heartbeat_interval s o)
      updated none = tt
      updated (some w') = (v, Member-append_left _ gens [] m)
  on_decoded-Keeps gens s (received (hello h)) w v m = (v, Member-append_left _ gens [] m)
  on_decoded-Keeps gens s (received (heartbeat h)) w v m = (v, Member-append_left _ gens [] m)
  on_decoded-Keeps gens s (received (status_report r)) w v m = (v, Member-append_left _ gens [] m)
  on_decoded-Keeps gens s (received (config_ack a)) w v m = (v, Member-append_left _ gens [] m)
  on_decoded-Keeps gens s (received (hello_ok h)) w v m = (v, Member-append_left _ gens [] m)
  on_decoded-Keeps gens s (received (auth_reject r)) w v m = (v, Member-append_left _ gens [] m)
  on_decoded-Keeps gens s (received ping) w v m = (v, Member-append_left _ gens [] m)
  on_decoded-Keeps gens s non_protocol w v m = (v, Member-append_left _ gens [] m)
  on_decoded-Keeps gens s closed w v m = (refl, Member-append_left _ gens [] m)
  on_decoded-Keeps gens s (transport_error e) w v m = (refl, Member-append_left _ gens [] m)

  step-Keeps :
      (gens : List ℕ) (s : Session Child) (e : Event) (w : World)
      → EngineIsValid s.failover
      → Member s.deps.applied_gen gens
      → Keeps
          (gens ++ gens_in machine.parse e)
          (step World Child E F os fs show machine cfg tunables heartbeat_interval s e w)
  unfolding step was_established
  step-Keeps gens s (shutdown_changed true) w v m = (refl, Member-append_left _ gens [] m)
  step-Keeps gens s (shutdown_changed false) w v m = (v, Member-append_left _ gens [] m)
  step-Keeps gens s ticked w v m = on_tick-Keeps (gens ++ []) s w v (Member-append_left _ gens [] m)
  step-Keeps gens s (probe_ticked in_time) w v m =
      GoesOn-Keeps (gens ++ []) s _ (Member-append_left _ gens [] m) (
        on_probe_tick-GoesOn World Child E os fs show F machine cfg tunables heartbeat_interval s
          in_time w v)
  step-Keeps gens s (arrived item) w v m =
      on_decoded-Keeps gens s (decode_next machine.parse item) w v m

  advance-Keeps :
      (gens : List ℕ) (st : Step World Child) (e : Event)
      → Keeps gens st
      → Keeps
          (gens ++ gens_in machine.parse e)
          (advance World Child E F os fs show machine cfg tunables heartbeat_interval st e)
  advance-Keeps gens (continues s w) e k = step-Keeps gens s e w k.0 k.1
  advance-Keeps gens (ended end deps w) e k = (k.0, Member-append_left _ gens _ k.1)
  advance-Keeps gens panicked e k = k
  advance-Keeps gens replaced e k = k

  -- After every run of events, from a step that keeps to some generations: no panic, a valid engine,
  -- an ended session was established, and the applied generation is one of those or of a push that came.
  pub run-Keeps :
      (gens : List ℕ) (st : Step World Child) (events : List Event)
      → Keeps gens st
      → Keeps
          (gens ++ pushed machine.parse events)
          (run World Child E F os fs show machine cfg tunables heartbeat_interval st events)
  unfolding run pushed
  run-Keeps gens st [] k = subst (λ l. Keeps l st) (sym (append-nil gens)) k
  run-Keeps gens st (e ∷ events) k =
      subst
        (λ l. Keeps l (
          run World Child E F os fs show machine cfg tunables heartbeat_interval
            (advance World Child E F os fs show machine cfg tunables heartbeat_interval st e)
            events))
        (append_assoc gens (gens_in machine.parse e) (pushed machine.parse events))
        (run-Keeps (gens ++ gens_in machine.parse e) _ events (advance-Keeps gens st e k))
