-- ===== src/Session/Truth.antt =====
-- crates/agent/src/conn.rs: what an acknowledgement says of the processes that run and of the files.
use multi_proxy.Prelude.{
  ℕ, ◌≡◌, refl, sym, subst, ◌⊎◌, inl, inr, true, false, List, [], ◌∷◌, Option, none, some, Text,
  any, ap, ◌∙◌, ◌++◌,
}
use multi_proxy.Prelude.Results.{Result, ok, err}
use multi_proxy.Contract.Model.{Tool, gost, realm}
use multi_proxy.Contract.Messages.{ConfigPush}
use multi_proxy.Supervisor.{Processes, Slot, Supervisor, start, stop_tool, slot, child_of}
use multi_proxy.Supervisor.Healing.{other}
use multi_proxy.Session.Config.{Files, ConfigPaths, AppliedConfig, ApplyResult, apply, tool_start}
use multi_proxy.Session.Pushing.{
  SessionDeps, Acked, ack_of, restart, start_all, stop_absent, apply_and_ack,
}
use multi_proxy.Session.Effects.{
  Observes, Held, Steps, stop_tool-Steps, start-Steps, Held-next, Restarted, both-Restarted,
}
use multi_proxy.Session.Written.{Apart, Holds, HoldsAll, SameProcesses, Applied, apply-Applied}
use multi_proxy.Session.Acks.{
  SlotIs, SlotsInForce, Refused, Works, result_of, apply_result, apply_and_ack_slots,
  apply_and_ack-ok,
}

abbrev pub file_of : ConfigPaths → Tool → Text
file_of paths gost = paths.gost
file_of paths realm = paths.realm

module _ (World Child E : Type 0) (os : Processes World Child E) (fs : Files World E)
    (show : E → Text) (laws : Observes World Child E os fs) where
  open laws use {runs, file}

  -- A tool whose configuration the push carries is supervised and its process runs from its file; a tool
  -- whose configuration it does not carry is not supervised.
  abbrev pub RunsAs : Tool → Text → Option Text → Option (Slot Child) → World → Type 0
  RunsAs tool path none sl w = sl ≡ none
  RunsAs tool path (some text) sl w =
      (c : Child) × (sl ≡ some (record { config_path = path; child = some c }))
      × (runs c w ≡ some (tool, path))

  -- Every process that was supervised before has ended.
  abbrev pub AllEnded : SessionDeps Child → World → Type 0
  AllEnded before w =
      (t : Tool) (c : Child) → child_of (slot before.supervisor t) ≡ some c → runs c w ≡ none

  abbrev pub InForce :
      ConfigPush → ConfigPaths → SessionDeps Child → Acked World Child E os fs show → Type 0
  InForce push paths before (ack, (deps, w)) =
      (ack ≡ record { applied_gen = push.desired_gen; ok = true; err = none })
      × (deps.applied_gen ≡ push.desired_gen)
      × RunsAs gost paths.gost push.gost_config (slot deps.supervisor gost) w
      × RunsAs realm paths.realm push.realm_config (slot deps.supervisor realm) w
      × AllEnded before w
      × HoldsAll World Child E os fs laws push paths w

  -- A push that could not be written leaves the supervisor and the processes; one that was written, but not
  -- all of whose tools could be spawned, leaves none of the old processes.
  abbrev pub Left : SessionDeps Child → World → Acked World Child E os fs show → Type 0
  Left before w0 (ack, (deps, w)) =
      ((deps ≡ before) × SameProcesses World Child E os fs laws w0 w) ⊎ AllEnded before w

  abbrev PathRestarted : ConfigPaths → Supervisor Child → World → Supervisor Child → World → Type 0
  PathRestarted paths = Restarted World Child E os fs laws (file_of paths)

  -- The acknowledgement hands on the supervisor and the world.
  ack_of-Restarted :
      (paths : ConfigPaths) (before deps : SessionDeps Child) (gen : ℕ) (w : World)
      (x : List Text × (Supervisor Child × World))
      → PathRestarted paths before.supervisor w x.1.0 x.1.1
      → let y = ack_of World Child E os fs show deps gen x in
        PathRestarted paths before.supervisor w y.1.0.supervisor y.1.1
  ack_of-Restarted paths before deps gen w ([], sw) r = r
  ack_of-Restarted paths before deps gen w (e ∷ es, sw) r = r

  module _ (paths : ConfigPaths) (s : Supervisor Child) (w : World)
      (held : (t : Tool) → Held World Child E os fs laws s w t) where
    -- One step after another, of either kind.
    two_steps :
        (t : Tool) (s1 s2 : Supervisor Child) (w1 w2 : World)
        → Steps World Child E os fs laws t (file_of paths t) s w s1 w1
        → ((k : Held World Child E os fs laws s1 w1 (other t))
            → Steps World Child E os fs laws (other t) (file_of paths (other t)) s1 w1 s2 w2)
        → PathRestarted paths s w s2 w2
    two_steps t s1 s2 w1 w2 a b =
        both-Restarted World Child E os fs laws (file_of paths) s w held s1 s2 w1 w2 t a
          (b (Held-next World Child E os fs laws (file_of paths) s w held t s1 w1 a))

    stopped :
        (t : Tool) (path : Text) (s1 : Supervisor Child) (w1 : World)
        → let x = stop_tool World Child E os t s1 w1 in
          Steps World Child E os fs laws t path s1 w1 x.0 x.1
    stopped = stop_tool-Steps World Child E os fs laws

    started :
        (t : Tool) (path : Text) (s1 : Supervisor Child) (w1 : World)
        → Held World Child E os fs laws s1 w1 t
        → let x = start World Child E os t path s1 w1 in
          Steps World Child E os fs laws t path s1 w1 x.1.0 x.1.1
    started = start-Steps World Child E os fs laws

    abbrev starts_for : Option Text → Option Text → List AppliedConfig
    starts_for g r = tool_start gost paths.gost g ++ tool_start realm paths.realm r

    tools-Restarted :
        (g r : Option Text)
        → let sw = stop_absent World Child E os fs show (starts_for g r) s w in
          let x = start_all World Child E os fs show (starts_for g r) sw.0 sw.1 in
          PathRestarted paths s w x.1.0 x.1.1
    unfolding start_all stop_absent any
    tools-Restarted none none =
        let a = stop_tool World Child E os gost s w in
        two_steps gost a.0 _ a.1 _ (stopped gost paths.gost s w)
          (λ k. stopped realm paths.realm a.0 a.1)
    tools-Restarted (some g) none =
        let a = stop_tool World Child E os realm s w in
        two_steps realm a.0 _ a.1 _ (stopped realm paths.realm s w)
          (started gost paths.gost a.0 a.1)
    tools-Restarted none (some r) =
        let a = stop_tool World Child E os gost s w in
        two_steps gost a.0 _ a.1 _ (stopped gost paths.gost s w) (started realm paths.realm a.0 a.1)
    tools-Restarted (some g) (some r) =
        let a = start World Child E os gost paths.gost s w in
        two_steps gost a.1.0 _ a.1.1 _ (started gost paths.gost s w (held gost))
          (started realm paths.realm a.1.0 a.1.1)

  -- What is known of the processes and the files after a push, by the outcome of its writes.
  abbrev Effect :
      ConfigPush
      → ConfigPaths
      → SessionDeps Child
      → World
      → Result E ApplyResult × World
      → Acked World Child E os fs show
      → Type 0
  Effect push paths before w0 (err e, w1) (ack, (deps, w)) =
      (ack.ok ≡ false) × (deps ≡ before) × SameProcesses World Child E os fs laws w0 w
  Effect push paths before w0 (ok r, w1) (ack, (deps, w)) =
      PathRestarted paths before.supervisor w1 deps.supervisor w
      × HoldsAll World Child E os fs laws push paths w

  Holds-moved :
      (push : ConfigPush) (paths : ConfigPaths) (w w' : World)
      → ((p : Text) → file p w' ≡ file p w)
      → HoldsAll World Child E os fs laws push paths w
      → HoldsAll World Child E os fs laws push paths w'
  Holds-moved push paths w w' same (g, r, c, k) = (
    moved paths.gost push.gost_config g,
    moved paths.realm push.realm_config r,
    moved paths.tls_cert push.tls_cert_pem c,
    moved paths.tls_key push.tls_key_pem k,
  )
    where
      moved :
          (path : Text) (text : Option Text)
          → Holds World Child E os fs laws path text w
          → Holds World Child E os fs laws path text w'
      moved path none h = tt
      moved path (some text) h = same path ∙ h

  restart-Effect :
      (push : ConfigPush) (paths : ConfigPaths) (deps : SessionDeps Child) (w : World)
      (x : Result E ApplyResult × World)
      → ((t : Tool) → Held World Child E os fs laws deps.supervisor w t)
      → ((r : ApplyResult) → x.0 ≡ ok r → r ≡ result_of World Child E os fs show push paths)
      → Applied World Child E os fs laws push paths w x
      → Effect push paths deps w x (restart World Child E os fs show deps x)
  restart-Effect push paths deps w (err e, w1) held res a = (refl, refl, a)
  restart-Effect push paths deps w (ok r, w1) held res a =
      let made = result_of World Child E os fs show push paths in
      let held' = λ (t : Tool) (c : Child) (e : child_of (slot deps.supervisor t) ≡ some c).
        (a.0 c).1 ∙ held t c e in
      let whole : PathRestarted paths deps.supervisor w1
          (restart World Child E os fs show deps (ok made, w1)).1.0.supervisor
          (restart World Child E os fs show deps (ok made, w1)).1.1 =
        ack_of-Restarted paths deps deps push.desired_gen w1 _
          (tools-Restarted paths deps.supervisor w1 held' push.gost_config push.realm_config) in
      subst
        (λ q.
          Effect push paths deps w (ok q, w1) (restart World Child E os fs show deps (ok q, w1)))
        (sym (res r refl)) (whole, Holds-moved push paths w1 _ whole.no_file a.1)

  runs_as :
      (tool : Tool) (path : Text) (text : Option Text) (sl : Option (Slot Child)) (w : World)
      → SlotIs path text sl
      → ((c : Child) → child_of sl ≡ some c → runs c w ≡ some (tool, path))
      → RunsAs tool path text sl w
  runs_as tool path none sl w e f = e
  runs_as tool path (some text) sl w (c, e) f = (c, e, f c (ap child_of e))

  truth :
      (push : ConfigPush) (paths : ConfigPaths) (before : SessionDeps Child) (w0 : World)
      (x : Result E ApplyResult × World) (y : Acked World Child E os fs show)
      → SlotsInForce World Child E os fs show push paths y
        ⊎ Refused World Child E os fs show before y
      → Effect push paths before w0 x y
      → InForce push paths before y ⊎ (Refused World Child E os fs show before y × Left before w0 y)
  truth push paths before w0 (err e, w1) y (inl f) (fails, _, _) = cc (f.0, fails)
  truth push paths before w0 (err e, w1) y (inr r) (fails, same, kept) = inr (r, inl (same, kept))
  truth push paths before w0 (ok q, w1) y (inl (a, g, sg, sr)) (k, h) = inl (
    a,
    g,
    runs_as gost paths.gost push.gost_config _ _ sg (k.all_run gost),
    runs_as realm paths.realm push.realm_config _ _ sr (k.all_run realm),
    k.all_ended,
    h,
  )
  truth push paths before w0 (ok q, w1) y (inr r) (k, h) = inr (r, inr k.all_ended)

  -- An acknowledgement tells the truth, if the operating system does what is relied on, the four paths differ and the
  -- supervised children were spawned. Either it accepts the push's generation, and then that is the applied
  -- one, each text that the push carries is in its file, every process supervised before has ended, each
  -- tool whose configuration the push carries is supervised and runs from its file, and no other tool is
  -- supervised. Or it refuses with a reason, and then it reports the generation applied before, which
  -- stays; and then either the supervisor and all processes are as before, or every process supervised
  -- before has ended.
  pub apply_and_ack-Answers :
      (push : ConfigPush) (paths : ConfigPaths) (deps : SessionDeps Child) (w : World)
      → Apart paths
      → ((t : Tool) → Held World Child E os fs laws deps.supervisor w t)
      → let x = apply_and_ack World Child E os fs show push paths deps w in
        InForce push paths deps x ⊎ (Refused World Child E os fs show deps x × Left deps w x)
  unfolding apply_and_ack
  apply_and_ack-Answers push paths deps w apart held =
      let x = apply World E fs push paths w in
      truth push paths deps w x _ (apply_and_ack_slots World Child E os fs show push paths deps w) (
        restart-Effect push paths deps w x held (apply_result World Child E os fs show push paths w)
          (apply-Applied World Child E os fs laws push paths w apart))

  -- If the operating system does what is relied on, the four paths differ, the supervised children were
  -- spawned, every file can be written and every process spawned, then each push is accepted and put in
  -- force: the files hold its texts, its tools run from them, and every process supervised before has ended.
  pub apply_and_ack_accepts :
      (push : ConfigPush) (paths : ConfigPaths) (deps : SessionDeps Child) (w : World)
      → Apart paths
      → ((t : Tool) → Held World Child E os fs laws deps.supervisor w t)
      → Works World Child E os fs show
      → InForce push paths deps (apply_and_ack World Child E os fs show push paths deps w)
  apply_and_ack_accepts push paths deps w apart held o =
      elim (apply_and_ack-Answers push paths deps w apart held) [
        | inl f ↦ f
        | inr r ↦ cc (r.0.0, apply_and_ack-ok World Child E os fs show o push paths deps w)
      ]
