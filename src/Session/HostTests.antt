-- ===== src/Session/HostTests.antt =====
-- crates/agent/src/conn.rs: a push on a small host that keeps its processes and files.
use multi_proxy.Prelude.{
  ℕ, ◌+◌, ◌≡◌, refl, ◌⊎◌, inl, inr, true, false, [], ◌++◌, Option, none, some, Text, codes, arith,
  ltb, nat_beq, nat_beq_iff, nat_eq, list_eq, ◌==◌, list_beq_iff, Bool-cases, if◌then◌else◌,
}
use multi_proxy.Prelude.Results.{Result, ok}
use multi_proxy.Contract.Model.{Tool, gost, realm}
use multi_proxy.Contract.Messages.{ConfigPush}
use multi_proxy.Contract.Protocol.{nic_delta}
use multi_proxy.Sampler.{new_collector}
use multi_proxy.Supervisor.{Processes, slot, child_of}
use multi_proxy.Session.Config.{Files, ConfigPaths}
use multi_proxy.Session.Pushing.{SessionDeps, apply_and_ack}
use multi_proxy.Session.Effects.{Observes}
use multi_proxy.Session.Written.{Apart}
use multi_proxy.Session.Acks.{Refused, Works}
use multi_proxy.Session.Truth.{InForce, Left, apply_and_ack-Answers, apply_and_ack_accepts}

-- The next child, what each child runs, and the texts of the files.
record Host : Type 0 where
  next : ℕ
  running : ℕ → Option (Tool × Text)
  files : Text → Option Text

abbrev host_os : Processes Host ℕ Text
host_os = record {
  is_running = λ c w. (ok true, w);
  kill = λ c w. (ok tt, record w { running = λ d. if nat_beq c d then none else w.running d });
  pid = λ c. some c;
  spawn = λ tool path w. (
    ok w.next,
    record w {
      next = w.next + 1;
      running = λ d. if nat_beq w.next d then some (tool, path) else w.running d;
    },
  );
}

abbrev host_fs : Files Host Text
host_fs = record {
  join = λ base name. base ++ (codes "/" ++ name);
  parent = λ path. some (codes "/etc");
  create_dir_all = λ dir w. (ok tt, w);
  write =
      λ path text w. (ok tt, record w { files = λ q. if path == q then some text else w.files q });
}

host_write_same :
    (path text : Text) (old : Option Text) → (if path == path then some text else old) ≡ some text
host_write_same path text old = rw ((list_beq_iff path path).1 refl) refl

host_write_other :
    (path text q : Text) (old : Option Text)
    → (path ≡ q) ⊎ ((if path == q then some text else old) ≡ old)
host_write_other path text q old = elim (Bool-cases (path == q)) [
  | inl e ↦ inl ((list_beq_iff path q).0 e)
  | inr e ↦ inr (rw e refl)
]

host_kill_other :
    (c d : ℕ) (old : Option (Tool × Text)) → (c ≡ d) ⊎ ((if nat_beq c d then none else old) ≡ old)
host_kill_other c d old = elim (Bool-cases (nat_beq c d)) [
  | inl e ↦ inl ((nat_beq_iff c d).0 e)
  | inr e ↦ inr (rw e refl)
]

host_self : (c : ℕ) (x y : Option (Tool × Text)) → (if nat_beq c c then x else y) ≡ x
host_self c x y = rw ((nat_beq_iff c c).1 refl) refl

host_below : (d n : ℕ) → ltb d n ≡ true → (ltb d (n + 1) ≡ true) × (nat_beq n d ≡ false)
host_below d n h = ground arith

host_child : (n c : ℕ) → ◌≡◌ {A = Result Text ℕ} (ok n) (ok c) → n ≡ c
host_child n c e = cc

host_spawned :
    (n c : ℕ) (x y : Option (Tool × Text))
    → n ≡ c
    → ((if nat_beq n c then x else y) ≡ x) × (ltb c n ≡ false) × (ltb c (n + 1) ≡ true)
host_spawned n c x y e = ground arith

host_Observes : Observes Host ℕ Text host_os host_fs
host_Observes = record {
  runs = λ c w. w.running c;
  issued = λ c w. ltb c w.next;
  file = λ p w. w.files p;
  spawned = λ tool path w c e.
      host_spawned w.next c (some (tool, path)) (w.running c) (host_child w.next c e);
  spawn_keeps = λ tool path w d h. let (b, o) = host_below d w.next h in (b, rw o refl);
  spawn_files = λ tool path w p. refl;
  killed = λ c w. host_self c none (w.running c);
  kill_keeps = λ c d w. host_kill_other c d (w.running d);
  kill_issued = λ c d w. refl;
  kill_files = λ c w p. refl;
  create_keeps = λ dir w d. (refl, refl);
  create_files = λ dir w p. refl;
  written = λ path text w e. host_write_same path text (w.files path);
  write_keeps = λ path text w d. (refl, refl);
  write_files = λ path text w p. host_write_other path text p (w.files p);
}

-- Both tools run; the push carries a configuration for gost, and a certificate.
abbrev paths : ConfigPaths
paths = record { gost = codes "g"; realm = codes "r"; tls_cert = codes "c"; tls_key = codes "k" }

abbrev gost_only : ConfigPush
gost_only = record {
  desired_gen = 6;
  gost_config = some (codes "config");
  realm_config = none;
  tls_cert_pem = some (codes "pem");
  tls_key_pem = none;
  backends = [];
  rules = [];
}

abbrev both_run : SessionDeps ℕ
both_run = record {
  supervisor = record {
    gost_slot = some (record { config_path = codes "g"; child = some 3 });
    realm_slot = some (record { config_path = codes "r"; child = some 4 });
    restarts = 0;
  };
  capacity = new_collector nic_delta 1 40;
  backends = [];
  applied_gen = 5;
}

abbrev busy : Host
busy = record {
  next = 10;
  running = λ c. if nat_beq c 3 then some (gost, codes "g") else some (realm, codes "r");
  files = λ p. none;
}

both_held : (t : Tool) (c : ℕ) → child_of (slot both_run.supervisor t) ≡ some c → ltb c 10 ≡ true
unfolding slot
both_held gost c e = ground arith
both_held realm c e = ground arith

paths-Apart : Apart paths
paths-Apart = ((λ m. ground arith), ((λ m. ground arith), ((λ m. ground arith), ((λ m. m), tt))))

-- What the old and the new child of gost run afterwards, and the old child of realm.
host_run :
    let w =
      (apply_and_ack Host ℕ Text host_os host_fs (λ e. e) gost_only paths both_run busy).1.1 in
    (w.running 3 ≡ none) × (w.running 4 ≡ none) × (w.running 10 ≡ some (gost, codes "g"))
unfolding apply_and_ack
host_run = (refl, refl, refl)

apply_and_ack-Answers_example :
    let x = apply_and_ack Host ℕ Text host_os host_fs (λ e. e) gost_only paths both_run busy in
    InForce Host ℕ Text host_os host_fs (λ e. e) host_Observes gost_only paths both_run x
    ⊎ (Refused Host ℕ Text host_os host_fs (λ e. e) both_run x
        × Left Host ℕ Text host_os host_fs (λ e. e) host_Observes both_run busy x)
unfolding host_Observes
apply_and_ack-Answers_example =
    apply_and_ack-Answers Host ℕ Text host_os host_fs (λ e. e) host_Observes gost_only paths
      both_run busy paths-Apart both_held

host_Works : Works Host ℕ Text host_os host_fs (λ e. e)
host_Works = record {
  creates = λ dir w. refl;
  writes = λ path text w. refl;
  spawns = λ tool path w. refl;
}

apply_and_ack_accepts_example :
    InForce Host ℕ Text host_os host_fs
      (λ e. e)
      host_Observes
      gost_only
      paths
      both_run
      (apply_and_ack Host ℕ Text host_os host_fs (λ e. e) gost_only paths both_run busy)
unfolding host_Observes
apply_and_ack_accepts_example =
    apply_and_ack_accepts Host ℕ Text host_os host_fs (λ e. e) host_Observes gost_only paths
      both_run busy paths-Apart both_held host_Works
