-- ===== src/Session/Pushing.antt =====
-- crates/agent/src/conn.rs: what a push and a failover decision do to the supervised tools.
use multi_proxy.Prelude.{
  ℕ, Bool, true, false, ◌&&◌, List, [], ◌∷◌, ◌++◌, Option, none, some, Text, codes, is_some, any,
  if◌then◌else◌, ◌==◌,
}
use multi_proxy.Prelude.Results.{Result, ok, err}
use multi_proxy.Contract.Model.{BackendEndpoint, Tool, gost, realm, tool_eq}
use multi_proxy.Contract.Protocol.{BackendHealth}
use multi_proxy.Contract.Messages.{ConfigPush, ConfigAck}
use multi_proxy.Relaycfg.{Json}
use multi_proxy.Failover.Engine.{
  FailoverEngine, FailoverDecision, is_active, set_rules, set_tls_available, render_active,
  flat_backends,
}
use multi_proxy.Supervisor.{Processes, Supervisor, start, stop_tool}
use multi_proxy.Sampler.{CapacityCollector}
use multi_proxy.Session.Config.{Files, ConfigPaths, AppliedConfig, ApplyResult, apply}

pub record SessionDeps (Child : Type 0) : Type 0 where
  pub supervisor : Supervisor Child
  pub capacity : CapacityCollector
  pub backends : List BackendEndpoint
  pub applied_gen : ℕ

-- The state of a session's loop.
pub record Session (Child : Type 0) : Type 0 where
  pub deps : SessionDeps Child
  pub failover : FailoverEngine
  pub last_health : Option (List BackendHealth)

pub record Selected : Type 0 where
  pub failover : FailoverEngine
  pub apply_push : ConfigPush
  pub flat : Option (List BackendEndpoint)

abbrev pub is_nil {ℓ} : {A : Type ℓ} → List A → Bool
is_nil [] = true
is_nil (x ∷ xs) = false

-- The new probe target without rules; `none` keeps the one before.
abbrev pub flat_of : ConfigPush → List BackendEndpoint → Option (List BackendEndpoint)
flat_of push (b ∷ bs) = some (b ∷ bs)
flat_of push [] =
    if is_some push.gost_config then none else if is_some push.realm_config then none else some []

module _ (to_string_pretty : Json → Option Text) where
  -- The push as the engine's current selection renders it.
  abbrev pub rendered : FailoverEngine → ConfigPush → ConfigPush
  rendered e push = record {
    desired_gen = push.desired_gen;
    gost_config = (render_active to_string_pretty e).0;
    realm_config = (render_active to_string_pretty e).1;
    tls_cert_pem = push.tls_cert_pem;
    tls_key_pem = push.tls_key_pem;
    backends = [];
    rules = [];
  }

  abbrev pub adopted : FailoverEngine → ConfigPush → FailoverEngine
  adopted e push =
      set_tls_available (set_rules e push.rules)
        (is_some push.tls_cert_pem && is_some push.tls_key_pem)

  unfoldable pub select_apply_push : FailoverEngine → ConfigPush → Selected
  unfolding set_rules set_tls_available is_active render_active flat_backends
  select_apply_push e push =
      let e' = adopted e push in
      if is_active e'
      then record { failover = e'; apply_push = rendered e' push; flat = some (flat_backends e') }
      else record { failover = e'; apply_push = push; flat = flat_of push push.backends }

-- `{:?}` of a tool.
unfoldable pub tool_debug : Tool → Text
tool_debug gost = codes "Gost"
tool_debug realm = codes "Realm"

-- `join("; ")`.
unfoldable pub join_errors : List Text → Text
join_errors [] = []
join_errors (e ∷ []) = e
join_errors (e ∷ f ∷ es) = e ++ (codes "; " ++ join_errors (f ∷ es))

abbrev pub wants : Tool → List AppliedConfig → Bool
wants tool starts = any (λ (s : AppliedConfig). s.tool == tool) starts

module _ (World Child E : Type 0) (os : Processes World Child E) (fs : Files World E)
    (show : E → Text) where
  abbrev pub spawn_error : Tool → Result E Unit → List Text
  spawn_error tool (ok u) = []
  spawn_error tool (err e) = (tool_debug tool ++ (codes ": " ++ show e)) ∷ []

  -- The loop over the tools to start, with the errors that it gathers.
  unfoldable pub start_all :
      List AppliedConfig → Supervisor Child → World → List Text × (Supervisor Child × World)
  unfolding start tool_debug
  start_all [] s w = ([], (s, w))
  start_all (a ∷ starts) s w =
      let (r, (s', w')) = start World Child E os a.tool a.config_path s w in
      let (errs, after) = start_all starts s' w' in (spawn_error a.tool r ++ errs, after)

  abbrev pub stop_unless : Bool → Tool → Supervisor Child × World → Supervisor Child × World
  stop_unless true tool sw = sw
  stop_unless false tool (s, w) = stop_tool World Child E os tool s w

  -- The tools that the push does not carry are stopped first.
  unfoldable pub stop_absent :
      List AppliedConfig → Supervisor Child → World → Supervisor Child × World
  unfolding stop_tool any
  stop_absent starts s w =
      stop_unless (wants realm starts) realm (stop_unless (wants gost starts) gost (s, w))

  -- The acknowledgement, with what is left of the session's dependencies.
  abbrev pub Acked : Type 0
  Acked = ConfigAck × (SessionDeps Child × World)

  abbrev pub ack_of : SessionDeps Child → ℕ → List Text × (Supervisor Child × World) → Acked
  ack_of deps gen ([], (s, w)) = (
    record { applied_gen = gen; ok = true; err = none },
    (record deps { supervisor = s; applied_gen = gen }, w),
  )
  ack_of deps gen (e ∷ errs, (s, w)) = (
    record {
      applied_gen = deps.applied_gen;
      ok = false;
      err = some (codes "spawn failed: " ++ join_errors (e ∷ errs));
    },
    (record deps { supervisor = s }, w),
  )

  abbrev pub restart : SessionDeps Child → Result E ApplyResult × World → Acked
  restart deps (err e, w) = (
    record {
      applied_gen = deps.applied_gen;
      ok = false;
      err = some (codes "write failed: " ++ show e);
    },
    (deps, w),
  )
  restart deps (ok r, w) =
      let (s, w') = stop_absent r.starts deps.supervisor w in
      ack_of deps r.applied_gen (start_all r.starts s w')

  -- The selected push on the disk and in the supervisor.
  unfoldable pub apply_and_ack : ConfigPush → ConfigPaths → SessionDeps Child → World → Acked
  unfolding apply start_all stop_absent join_errors
  apply_and_ack push paths deps w = restart deps (apply World E fs push paths w)

  -- The push that a failover decision amounts to.
  abbrev pub synthetic : FailoverDecision → SessionDeps Child → ConfigPush
  synthetic d deps = record {
    desired_gen = deps.applied_gen;
    gost_config = d.gost_config;
    realm_config = d.realm_config;
    tls_cert_pem = none;
    tls_key_pem = none;
    backends = [];
    rules = [];
  }

  abbrev pub restart_changed :
      SessionDeps Child → Result E ApplyResult × World → SessionDeps Child × World
  restart_changed deps (err e, w) = (deps, w)
  restart_changed deps (ok r, w) =
      let (_, (s, w')) = start_all r.starts deps.supervisor w in
      (record deps { supervisor = s }, w')

  unfoldable pub apply_failover_switch :
      FailoverDecision → ConfigPaths → SessionDeps Child → World → SessionDeps Child × World
  unfolding apply start_all
  apply_failover_switch d paths deps w =
      restart_changed deps (apply World E fs (synthetic d deps) paths w)
