-- ===== src/Session/Written.antt =====
-- crates/agent/src/config.rs: what writing a push leaves in the files.
use multi_proxy.Prelude.{
  ◌≡◌, ◌≢◌, refl, ◌∙◌, ◌⊎◌, inl, inr, [], ◌∷◌, Option, none, some, Text, NoDup, Option-cases,
}
use multi_proxy.Prelude.Results.{Result, ok, err, Action, and_then}
use multi_proxy.Contract.Messages.{ConfigPush}
use multi_proxy.Supervisor.{Processes}
use multi_proxy.Session.Config.{Files, ConfigPaths, ApplyResult, apply, write_file}
use multi_proxy.Session.Effects.{Observes}

-- The four files of a push are different ones.
abbrev pub Apart : ConfigPaths → Type 0
Apart paths = NoDup (paths.gost ∷ paths.realm ∷ paths.tls_cert ∷ paths.tls_key ∷ [])

module _ (World Child E : Type 0) (os : Processes World Child E) (fs : Files World E)
    (laws : Observes World Child E os fs) where
  open laws use {runs, issued, file, create_keeps, create_files, written, write_keeps, write_files}

  -- A text that a push carries is in its file.
  abbrev pub Holds : Text → Option Text → World → Type 0
  Holds path none w = Unit
  Holds path (some text) w = file path w ≡ some text

  abbrev pub HoldsAll : ConfigPush → ConfigPaths → World → Type 0
  HoldsAll push paths w =
      Holds paths.gost push.gost_config w
      × Holds paths.realm push.realm_config w
      × Holds paths.tls_cert push.tls_cert_pem w
      × Holds paths.tls_key push.tls_key_pem w

  -- The processes are the same.
  abbrev pub SameProcesses : World → World → Type 0
  SameProcesses w w' = (d : Child) → (runs d w' ≡ runs d w) × (issued d w' ≡ issued d w)

  record Writes (path : Text) (text : Option Text) (w : World) (x : Result E Unit × World)
      : Type 0 where
    processes : SameProcesses w x.1
    other_files : (q : Text) → (path ≡ q) ⊎ (file q x.1 ≡ file q w)
    holds : x.0 ≡ ok tt → Holds path text x.1

  -- A write into a directory that was made before, or in a world that only differs by that.
  write-Writes :
      (path text : Text) (w w1 : World)
      → SameProcesses w w1
      → ((q : Text) → file q w1 ≡ file q w)
      → Writes path (some text) w (fs.write path text w1)
  write-Writes path text w w1 p f = record {
    processes = λ d. let k = write_keeps path text w1 d in (k.0 ∙ (p d).0, k.1 ∙ (p d).1);
    other_files = λ q. elim (write_files path text w1 q) [ inl e ↦ inl e | inr e ↦ inr (e ∙ f q) ];
    holds = written path text w1;
  }

  made-Writes :
      (path text : Text) (w : World) (x : Result E Unit × World)
      → SameProcesses w x.1
      → ((q : Text) → file q x.1 ≡ file q w)
      → Writes path (some text) w (and_then x (λ _. fs.write path text))
  made-Writes path text w (ok u, w1) p f = write-Writes path text w w1 p f
  made-Writes path text w (err e, w1) p f = record {
    processes = p;
    other_files = λ q. inr (f q);
    holds = λ h. cc;
  }

  write_file-Writes :
      (path : Text) (text : Option Text) (w : World)
      → Writes path text w (write_file World E fs path text w)
  write_file-Writes path none w = record {
    processes = λ d. (refl, refl);
    other_files = λ q. inr refl;
    holds = λ h. tt;
  }
  write_file-Writes path (some text) w = elim (Option-cases (fs.parent path)) [
    | inl e ↦ rw e (write-Writes path text w w (λ d. (refl, refl)) (λ q. refl))
    | inr (dir, e) ↦ rw e (
        made-Writes path text w (fs.create_dir_all dir w) (create_keeps dir w) (create_files dir w))
  ]

  SameProcesses-trans : (a b c : World) → SameProcesses a b → SameProcesses b c → SameProcesses a c
  SameProcesses-trans a b c p q d = ((q d).0 ∙ (p d).0, (q d).1 ∙ (p d).1)

  Holds-kept :
      (path : Text) (text : Option Text) (w : World) (x : Result E Unit × World) (q : Text)
      (kept : Option Text)
      → Writes path text w x
      → path ≢ q
      → Holds q kept w
      → Holds q kept x.1
  Holds-kept path text w x q none f n h = tt
  Holds-kept path text w x q (some t) f n h = elim (f.other_files q) [
    | inl e ↦ absurd (n e)
    | inr e ↦ e ∙ h
  ]

  chained :
      {A : Type 0} (x : Result E Unit × World) (f : Unit → Action World E A)
      (Q : Result E A × World → Type 0)
      → (x.0 ≡ ok tt → Q (f tt x.1))
      → ((e : E) → Q (err e, x.1))
      → Q (and_then x f)
  chained (ok u, w) f Q h k = h refl
  chained (err e, w) f Q h k = k e

  -- The processes are the same, and if all went well each file holds its text.
  abbrev pub Applied : ConfigPush → ConfigPaths → World → Result E ApplyResult × World → Type 0
  Applied push paths w (ok r, w') = SameProcesses w w' × HoldsAll push paths w'
  Applied push paths w (err e, w') = SameProcesses w w'

  pub apply-Applied :
      (push : ConfigPush) (paths : ConfigPaths) (w : World)
      → Apart paths
      → Applied push paths w (apply World E fs push paths w)
  unfolding apply
  apply-Applied push paths w apart =
      let write = write_file World E fs in
      let fact = write_file-Writes in
      let Q = Applied push paths w in
      let x1 = write paths.gost push.gost_config w in
      let f1 = fact paths.gost push.gost_config w in
      let p1 = f1.processes in
      chained x1 _ Q
        (λ ok1.
          let w1 = x1.1 in
          let x2 = write paths.realm push.realm_config w1 in
          let f2 = fact paths.realm push.realm_config w1 in
          let p2 = SameProcesses-trans w w1 x2.1 p1 f2.processes in
          chained x2 _ Q
            (λ ok2.
              let w2 = x2.1 in
              let x3 = write paths.tls_cert push.tls_cert_pem w2 in
              let f3 = fact paths.tls_cert push.tls_cert_pem w2 in
              let p3 = SameProcesses-trans w w2 x3.1 p2 f3.processes in
              chained x3 _ Q
                (λ ok3.
                  let w3 = x3.1 in
                  let x4 = write paths.tls_key push.tls_key_pem w3 in
                  let f4 = fact paths.tls_key push.tls_key_pem w3 in
                  let p4 = SameProcesses-trans w w3 x4.1 p3 f4.processes in
                  let kept2 = λ (q : Text) (t : Option Text).
                    Holds-kept paths.realm push.realm_config w1 x2 q t f2 in
                  let kept3 = λ (q : Text) (t : Option Text).
                    Holds-kept paths.tls_cert push.tls_cert_pem w2 x3 q t f3 in
                  let kept4 = λ (q : Text) (t : Option Text).
                    Holds-kept paths.tls_key push.tls_key_pem w3 x4 q t f4 in
                  let (g, (r, (c, _))) = apart in
                  chained x4 _ Q
                    (λ ok4. (
                      p4,
                      (
                        kept4 paths.gost push.gost_config (λ e. g (inr (inr (inl e))))
                            (kept3 paths.gost push.gost_config (λ e. g (inr (inl e)))
                              (kept2 paths.gost push.gost_config (λ e. g (inl e)) (f1.holds ok1))),
                        kept4 paths.realm push.realm_config (λ e. r (inr (inl e)))
                            (kept3 paths.realm push.realm_config (λ e. r (inl e)) (f2.holds ok2)),
                        kept4 paths.tls_cert push.tls_cert_pem (λ e. c (inl e)) (f3.holds ok3),
                        f4.holds ok4,
                      ),
                    ))
                    (λ e. p4))
                (λ e. p3))
            (λ e. p2))
        (λ e. p1)
