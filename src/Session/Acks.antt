-- ===== src/Session/Acks.antt =====
-- crates/agent/src/conn.rs: what an acknowledgement says of the supervisor's slots.
use multi_proxy.Prelude.{
  ℕ, ◌≡◌, refl, sym, subst, ◌⊎◌, inl, inr, true, false, List, [], ◌∷◌, ◌++◌, Option, none, some,
  Text, is_some, any, ap₂, Option-cases,
}
use multi_proxy.Prelude.Results.{Result, ok, err, Action, and_then, is_ok}
use multi_proxy.Contract.Model.{Tool, gost, realm}
use multi_proxy.Contract.Messages.{ConfigPush}
use multi_proxy.Supervisor.{
  Processes, Slot, Supervisor, start, stop_tool, slot, set_slot, ok_child, unit_result, kill_child,
  child_of,
}
use multi_proxy.Session.Config.{
  Files, ConfigPaths, AppliedConfig, ApplyResult, apply, starts_of, write_file,
}
use multi_proxy.Session.Pushing.{
  SessionDeps, Acked, ack_of, restart, spawn_error, start_all, stop_absent, apply_and_ack,
}

-- A slot holds a child for the tool's file if the push carries its configuration, and is empty if not.
abbrev pub SlotIs : {Child : Type 0} → Text → Option Text → Option (Slot Child) → Type 0
SlotIs path none sl = sl ≡ none
SlotIs {Child} path (some text) sl =
    (c : Child) × (sl ≡ some (record { config_path = path; child = some c }))

module _ (World Child E : Type 0) (os : Processes World Child E) (fs : Files World E)
    (show : E → Text) where
  -- The push is in force, and the acknowledgement says so.
  abbrev pub SlotsInForce : ConfigPush → ConfigPaths → Acked World Child E os fs show → Type 0
  SlotsInForce push paths (ack, (deps, w)) =
      (ack ≡ record { applied_gen = push.desired_gen; ok = true; err = none })
      × (deps.applied_gen ≡ push.desired_gen)
      × SlotIs paths.gost push.gost_config (slot deps.supervisor gost)
      × SlotIs paths.realm push.realm_config (slot deps.supervisor realm)

  -- The generation is the one before, and the acknowledgement says that and why.
  abbrev pub Refused : SessionDeps Child → Acked World Child E os fs show → Type 0
  Refused before (ack, (deps, w)) =
      (ack.ok ≡ false)
      × (is_some ack.err ≡ true)
      × (ack.applied_gen ≡ before.applied_gen)
      × (deps.applied_gen ≡ before.applied_gen)

  abbrev Answers :
      ConfigPush → ConfigPaths → SessionDeps Child → Acked World Child E os fs show → Type 0
  Answers push paths deps x = SlotsInForce push paths x ⊎ Refused deps x

  abbrev pub result_of : ConfigPush → ConfigPaths → ApplyResult
  result_of push paths = record { starts = starts_of push paths; applied_gen = push.desired_gen }

  -- A chain of writes that succeeds ends with the last one's result.
  and_then-result :
      {A : Type 0} (x : Result E Unit × World) (f : Unit → Action World E A) (a b : A)
      → ((w : World) → (f tt w).0 ≡ ok a → a ≡ b)
      → (and_then x f).0 ≡ ok a
      → a ≡ b
  and_then-result (ok u, w) f a b h e = h w e
  and_then-result (err r, w) f a b h e = cc

  pub apply_result :
      (push : ConfigPush) (paths : ConfigPaths) (w : World) (r : ApplyResult)
      → (apply World E fs push paths w).0 ≡ ok r
      → r ≡ result_of push paths
  unfolding apply
  apply_result push paths w r e =
      let write = write_file World E fs in
      and_then-result (write paths.gost push.gost_config w) _ r (result_of push paths)
        (λ w1.
          and_then-result (write paths.realm push.realm_config w1) _ r (result_of push paths) (λ w2.
            and_then-result (write paths.tls_cert push.tls_cert_pem w2) _ r (result_of push paths)
              (λ w3.
                and_then-result (write paths.tls_key push.tls_key_pem w3) _ r (result_of push paths)
                  (λ w4 q. cc))))
        e

  -- One tool's start, from the result of its spawn.
  abbrev started : Tool → Text → Option Text → Result E Child → Supervisor Child → Supervisor Child
  started tool path none r s = set_slot s tool none
  started tool path (some text) r s =
      set_slot s tool (some (record { config_path = path; child = ok_child r }))

  abbrev failures : Tool → Option Text → Result E Child → List Text
  failures tool none r = []
  failures tool (some text) r =
      spawn_error World Child E os fs show tool (unit_result World Child E os r)

  abbrev with_configs : ConfigPush → Option Text → Option Text → ConfigPush
  with_configs push g r = record push { gost_config = g; realm_config = r }

  both_answered :
      (push : ConfigPush) (paths : ConfigPaths) (deps : SessionDeps Child) (w : World)
      (g r : Option Text) (rg rr : Result E Child) (s : Supervisor Child)
      → Answers (with_configs push g r) paths deps (
          ack_of World Child E os fs show deps push.desired_gen (
            failures gost g rg ++ (failures realm r rr ++ []),
            (started realm paths.realm r rr (started gost paths.gost g rg s), w),
          ))
  unfolding set_slot slot
  both_answered push paths deps w none none rg rr s = inl (refl, refl, refl, refl)
  both_answered push paths deps w (some g) none (ok c) rr s = inl (refl, refl, (c, refl), refl)
  both_answered push paths deps w (some g) none (err e) rr s = inr (refl, refl, refl, refl)
  both_answered push paths deps w none (some r) rg (ok d) s = inl (refl, refl, refl, (d, refl))
  both_answered push paths deps w none (some r) rg (err e) s = inr (refl, refl, refl, refl)
  both_answered push paths deps w (some g) (some r) (ok c) (ok d) s =
      inl (refl, refl, (c, refl), (d, refl))
  both_answered push paths deps w (some g) (some r) (ok c) (err e) s = inr (refl, refl, refl, refl)
  both_answered push paths deps w (some g) (some r) (err e) (ok d) s = inr (refl, refl, refl, refl)
  both_answered push paths deps w (some g) (some r) (err e) (err f) s = inr (refl, refl, refl, refl)

  restart-Answers :
      (push : ConfigPush) (paths : ConfigPaths) (deps : SessionDeps Child) (w : World)
      (g r : Option Text)
      → Answers
          (with_configs push g r)
          paths
          deps
          (restart World Child E os fs show deps (ok (result_of (with_configs push g r) paths), w))
  unfolding start_all stop_absent start stop_tool any set_slot slot
  restart-Answers push paths deps w none none = inl (refl, refl, refl, refl)
  restart-Answers push paths deps w (some g) none =
      let stopped = stop_tool World Child E os realm deps.supervisor w in
      let x =
        os.spawn gost paths.gost
          (kill_child World Child E os (child_of (slot stopped.0 gost)) stopped.1) in
      both_answered push paths deps x.1 (some g) none x.0 x.0 deps.supervisor
  restart-Answers push paths deps w none (some r) =
      let stopped = stop_tool World Child E os gost deps.supervisor w in
      let x =
        os.spawn realm paths.realm
          (kill_child World Child E os (child_of (slot stopped.0 realm)) stopped.1) in
      both_answered push paths deps x.1 none (some r) x.0 x.0 deps.supervisor
  restart-Answers push paths deps w (some g) (some r) =
      let killed = kill_child World Child E os in
      let x = os.spawn gost paths.gost (killed (child_of (slot deps.supervisor gost)) w) in
      let y = os.spawn realm paths.realm (killed (child_of (slot deps.supervisor realm)) x.1) in
      both_answered push paths deps y.1 (some g) (some r) x.0 y.0 deps.supervisor

  restart_result :
      (push : ConfigPush) (paths : ConfigPaths) (deps : SessionDeps Child)
      (x : Result E ApplyResult × World)
      → ((r : ApplyResult) → x.0 ≡ ok r → r ≡ result_of push paths)
      → Answers push paths deps (restart World Child E os fs show deps x)
  restart_result push paths deps (err e, w) h = inr (refl, refl, refl, refl)
  restart_result push paths deps (ok r, w) h =
      subst (λ q. Answers push paths deps (restart World Child E os fs show deps (ok q, w)))
        (sym (h r refl)) (restart-Answers push paths deps w push.gost_config push.realm_config)

  -- What the acknowledgement says of the slots and of the generation.
  pub apply_and_ack_slots :
      (push : ConfigPush) (paths : ConfigPaths) (deps : SessionDeps Child) (w : World)
      → let x = apply_and_ack World Child E os fs show push paths deps w in
        SlotsInForce push paths x ⊎ Refused deps x
  unfolding apply_and_ack
  apply_and_ack_slots push paths deps w =
      restart_result push paths deps (apply World E fs push paths w) (apply_result push paths w)

  -- The operating system does all that it is asked for.
  pub record Works : Type 0 where
    pub creates : (dir : Text) (w : World) → is_ok (fs.create_dir_all dir w).0 ≡ true
    pub writes : (path text : Text) (w : World) → is_ok (fs.write path text w).0 ≡ true
    pub spawns : (tool : Tool) (path : Text) (w : World) → is_ok (os.spawn tool path w).0 ≡ true

  and_then-is_ok :
      {A B : Type 0} (x : Result E A × World) (f : A → Action World E B)
      → is_ok x.0 ≡ true
      → ((a : A) (w : World) → is_ok (f a w).0 ≡ true)
      → is_ok (and_then x f).0 ≡ true
  and_then-is_ok (ok a, w) f h k = k a w
  and_then-is_ok (err e, w) f h k = cc

  write_file-is_ok :
      Works
      → (path : Text) (text : Option Text) (w : World)
      → is_ok (write_file World E fs path text w).0 ≡ true
  write_file-is_ok o path none w = refl
  write_file-is_ok o path (some text) w = elim (Option-cases (fs.parent path)) [
    | inl e ↦ rw e (o.writes path text w)
    | inr (dir, e) ↦ rw e (
        and_then-is_ok (fs.create_dir_all dir w) _ (o.creates dir w)
          (λ u w'. o.writes path text w'))
  ]

  apply-is_ok :
      Works
      → (push : ConfigPush) (paths : ConfigPaths) (w : World)
      → is_ok (apply World E fs push paths w).0 ≡ true
  unfolding apply
  apply-is_ok o push paths w =
      and_then-is_ok _ _ (write_file-is_ok o paths.gost push.gost_config w) λ _ w1.
        and_then-is_ok _ _ (write_file-is_ok o paths.realm push.realm_config w1) λ _ w2.
          and_then-is_ok _ _ (write_file-is_ok o paths.tls_cert push.tls_cert_pem w2) λ _ w3.
            and_then-is_ok _ _ (write_file-is_ok o paths.tls_key push.tls_key_pem w3) λ _ w4. refl

  spawn_error-nil :
      (tool : Tool) (r : Result E Child)
      → is_ok r ≡ true
      → spawn_error World Child E os fs show tool (unit_result World Child E os r) ≡ []
  spawn_error-nil tool (ok c) h = refl
  spawn_error-nil tool (err e) h = cc

  start_all-nil :
      Works
      → (starts : List AppliedConfig) (s : Supervisor Child) (w : World)
      → (start_all World Child E os fs show starts s w).0 ≡ []
  unfolding start_all start
  start_all-nil o [] s w = refl
  start_all-nil o (a ∷ starts) s w =
      ap₂ (λ (xs ys : List Text). xs ++ ys)
        (spawn_error-nil a.tool _ (
          o.spawns a.tool a.config_path (kill_child World Child E os (child_of (slot s a.tool)) w)))
        (start_all-nil o starts _ _)

  ack_of-ok :
      (deps : SessionDeps Child) (gen : ℕ) (x : List Text × (Supervisor Child × World))
      → x.0 ≡ []
      → (ack_of World Child E os fs show deps gen x).0.ok ≡ true
  ack_of-ok deps gen ([], sw) e = refl
  ack_of-ok deps gen (t ∷ ts, sw) e = cc

  restart-ok :
      Works
      → (deps : SessionDeps Child) (x : Result E ApplyResult × World) → is_ok x.0 ≡ true
      → (restart World Child E os fs show deps x).0.ok ≡ true
  restart-ok o deps (ok r, w) h = ack_of-ok deps r.applied_gen _ (start_all-nil o r.starts _ _)
  restart-ok o deps (err e, w) h = cc

  pub apply_and_ack-ok :
      Works
      → (push : ConfigPush) (paths : ConfigPaths) (deps : SessionDeps Child) (w : World)
      → (apply_and_ack World Child E os fs show push paths deps w).0.ok ≡ true
  unfolding apply_and_ack
  apply_and_ack-ok o push paths deps w =
      restart-ok o deps (apply World E fs push paths w) (apply-is_ok o push paths w)
