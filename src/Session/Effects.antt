-- ===== src/Session/Effects.antt =====
-- crates/agent/src/conn.rs and supervisor.rs: what stopping and starting tools does to the processes.
use multi_proxy.Prelude.{
  ◌≡◌, refl, sym, ap, subst, ◌∙◌, ◌⊎◌, inl, inr, Bool, true, false, Option, none, some, Text,
}
use multi_proxy.Prelude.Results.{Result, ok, err}
use multi_proxy.Contract.Model.{Tool, gost, realm}
use multi_proxy.Supervisor.{
  Processes, Slot, Supervisor, start, stop_tool, slot, set_slot, ok_child, kill_child, child_of,
}
use multi_proxy.Supervisor.Healing.{other}
use multi_proxy.Session.Config.{Files}

-- What a session relies on of the operating system. A child that is spawned runs the tool on the file that
-- the spawn names, and is no child that was issued before; a kill ends the child; neither a spawn nor a
-- kill touches another child or a file. A directory that is created, and a file that is written, change no
-- process and no other file, and a written file holds the text.
pub record Observes (World Child E : Type 0) (os : Processes World Child E) (fs : Files World E)
    : Type 0 where
  pub runs : Child → World → Option (Tool × Text)
  pub issued : Child → World → Bool
  pub file : Text → World → Option Text
  pub spawned :
      (tool : Tool) (path : Text) (w : World) (c : Child)
      → (os.spawn tool path w).0 ≡ ok c
      → (runs c (os.spawn tool path w).1 ≡ some (tool, path))
        × (issued c w ≡ false)
        × (issued c (os.spawn tool path w).1 ≡ true)
  pub spawn_keeps :
      (tool : Tool) (path : Text) (w : World) (d : Child)
      → issued d w ≡ true
      → (issued d (os.spawn tool path w).1 ≡ true) × (runs d (os.spawn tool path w).1 ≡ runs d w)
  pub spawn_files :
      (tool : Tool) (path : Text) (w : World) (p : Text)
      → file p (os.spawn tool path w).1 ≡ file p w
  pub killed : (c : Child) (w : World) → runs c (os.kill c w).1 ≡ none
  pub kill_keeps : (c d : Child) (w : World) → (c ≡ d) ⊎ (runs d (os.kill c w).1 ≡ runs d w)
  pub kill_issued : (c d : Child) (w : World) → issued d (os.kill c w).1 ≡ issued d w
  pub kill_files : (c : Child) (w : World) (p : Text) → file p (os.kill c w).1 ≡ file p w
  pub create_keeps :
      (dir : Text) (w : World) (d : Child)
      → let w' = (fs.create_dir_all dir w).1 in (runs d w' ≡ runs d w) × (issued d w' ≡ issued d w)
  pub create_files :
      (dir : Text) (w : World) (p : Text) → file p (fs.create_dir_all dir w).1 ≡ file p w
  pub written :
      (path text : Text) (w : World)
      → (fs.write path text w).0 ≡ ok tt
      → file path (fs.write path text w).1 ≡ some text
  pub write_keeps :
      (path text : Text) (w : World) (d : Child)
      → let w' = (fs.write path text w).1 in (runs d w' ≡ runs d w) × (issued d w' ≡ issued d w)
  pub write_files :
      (path text : Text) (w : World) (p : Text)
      → (path ≡ p) ⊎ (file p (fs.write path text w).1 ≡ file p w)

module _ (World Child E : Type 0) (os : Processes World Child E) (fs : Files World E)
    (laws : Observes World Child E os fs) where
  open laws use {
    runs, issued, file, spawned, spawn_keeps, spawn_files, killed, kill_keeps, kill_issued,
    kill_files,
  }

  some_inj : {a b : Child} → some a ≡ some b → a ≡ b
  some_inj e = cc

  record Kills (o : Option Child) (w w' : World) : Type 0 where
    ended : (c : Child) → o ≡ some c → runs c w' ≡ none
    spares : (d : Child) → (o ≡ some d) ⊎ (runs d w' ≡ runs d w)
    same_issued : (d : Child) → issued d w' ≡ issued d w
    same_files : (p : Text) → file p w' ≡ file p w

  kill_child-Kills : (o : Option Child) (w : World) → Kills o w (kill_child World Child E os o w)
  kill_child-Kills none w = record {
    ended = λ c e. cc;
    spares = λ d. inr refl;
    same_issued = λ d. refl;
    same_files = λ p. refl;
  }
  kill_child-Kills (some k) w = record {
    ended = λ c e. subst (λ d. runs d (os.kill k w).1 ≡ none) (some_inj e) (killed k w);
    spares = λ d. elim (kill_keeps k d w) [ inl q ↦ inl (ap (λ x. some x) q) | inr q ↦ inr q ];
    same_issued = λ d. kill_issued k d w;
    same_files = λ p. kill_files k w p;
  }

  -- Every child that the slot of a tool holds has been issued.
  abbrev pub Held : Supervisor Child → World → Tool → Type 0
  Held s w t = (c : Child) → child_of (slot s t) ≡ some c → issued c w ≡ true

  -- What stopping a tool, or starting it on a file, has done.
  pub record Steps (t : Tool) (path : Text) (s : Supervisor Child) (w : World)
      (s' : Supervisor Child) (w' : World) : Type 0 where
    pub others : slot s' (other t) ≡ slot s (other t)
    pub ended : (c : Child) → child_of (slot s t) ≡ some c → runs c w' ≡ none
    pub keeps_issued : (d : Child) → issued d w ≡ true → issued d w' ≡ true
    pub spares :
        (d : Child) → issued d w ≡ true → (child_of (slot s t) ≡ some d) ⊎ (runs d w' ≡ runs d w)
    pub own :
        (c : Child)
        → child_of (slot s' t) ≡ some c
        → (runs c w' ≡ some (t, path)) × (issued c w ≡ false) × (issued c w' ≡ true)
    pub same_files : (p : Text) → file p w' ≡ file p w

  ok_child-ok : (r : Result E Child) (c : Child) → ok_child r ≡ some c → r ≡ ok c
  ok_child-ok (ok d) c e = cc
  ok_child-ok (err x) c e = cc

  slot-set :
      (s : Supervisor Child) (t : Tool) (o : Option (Slot Child)) → slot (set_slot s t o) t ≡ o
  unfolding slot set_slot
  slot-set s gost o = refl
  slot-set s realm o = refl

  slot-set_other :
      (s : Supervisor Child) (t : Tool) (o : Option (Slot Child))
      → slot (set_slot s t o) (other t) ≡ slot s (other t)
  unfolding slot set_slot
  slot-set_other s gost o = refl
  slot-set_other s realm o = refl

  pub stop_tool-Steps :
      (t : Tool) (path : Text) (s : Supervisor Child) (w : World)
      → let x = stop_tool World Child E os t s w in Steps t path s w x.0 x.1
  unfolding stop_tool
  stop_tool-Steps t path s w =
      let k = kill_child-Kills (child_of (slot s t)) w in
      record {
        others = slot-set_other s t none;
        ended = k.ended;
        keeps_issued = λ d i. k.same_issued d ∙ i;
        spares = λ d i. k.spares d;
        own = λ c e. let gone = ap child_of (slot-set s t none) in cc;
        same_files = k.same_files;
      }

  pub start-Steps :
      (t : Tool) (path : Text) (s : Supervisor Child) (w : World)
      → Held s w t
      → let x = start World Child E os t path s w in Steps t path s w x.1.0 x.1.1
  unfolding start
  start-Steps t path s w held =
      let w1 = kill_child World Child E os (child_of (slot s t)) w in
      let k = kill_child-Kills (child_of (slot s t)) w in
      record {
        others = slot-set_other s t _;
        ended = λ c e. (spawn_keeps t path w1 c (k.same_issued c ∙ held c e)).1 ∙ k.ended c e;
        keeps_issued = λ d i. (spawn_keeps t path w1 d (k.same_issued d ∙ i)).0;
        spares = λ d i. elim (k.spares d) [
          | inl q ↦ inl q
          | inr q ↦ inr ((spawn_keeps t path w1 d (k.same_issued d ∙ i)).1 ∙ q)
        ];
        own = λ c e.
            let new =
              ok_child-ok (os.spawn t path w1).0 c (sym (ap child_of (slot-set s t _)) ∙ e) in
            let (run, unissued, now) = spawned t path w1 c new in
            (run, sym (k.same_issued c) ∙ unissued, now);
        same_files = λ p. spawn_files t path w1 p ∙ k.same_files p;
      }

  -- What a change of both tools has done: every process that was supervised has ended, each one that is
  -- supervised now runs its tool on its file, and no file has changed.
  pub record Restarted (path : Tool → Text) (s : Supervisor Child) (w : World)
      (s' : Supervisor Child) (w' : World) : Type 0 where
    pub all_ended : (t : Tool) (c : Child) → child_of (slot s t) ≡ some c → runs c w' ≡ none
    pub all_run :
        (t : Tool) (c : Child) → child_of (slot s' t) ≡ some c → runs c w' ≡ some (t, path t)
    pub no_file : (p : Text) → file p w' ≡ file p w

  module _ (path : Tool → Text) (s : Supervisor Child) (w : World)
      (held : (t : Tool) → Held s w t) where
    -- What the next step relies on.
    pub Held-next :
        (t : Tool) (s1 : Supervisor Child) (w1 : World)
        → Steps t (path t) s w s1 w1
        → Held s1 w1 (other t)
    Held-next t s1 w1 a c e = a.keeps_issued c (held (other t) c (sym (ap child_of a.others) ∙ e))

    module _ (s1 s2 : Supervisor Child) (w1 w2 : World) where
      ended_first :
          (t : Tool)
          → Steps t (path t) s w s1 w1
          → Steps (other t) (path (other t)) s1 w1 s2 w2
          → (c : Child) → child_of (slot s t) ≡ some c
          → runs c w2 ≡ none
      ended_first t a b c e = elim (b.spares c (a.keeps_issued c (held t c e))) [
        | inl q ↦ b.ended c q
        | inr q ↦ q ∙ a.ended c e
      ]

      ended_second :
          (t : Tool)
          → Steps t (path t) s w s1 w1
          → Steps (other t) (path (other t)) s1 w1 s2 w2
          → (c : Child) → child_of (slot s (other t)) ≡ some c
          → runs c w2 ≡ none
      ended_second t a b c e = b.ended c (ap child_of a.others ∙ e)

      slot_back : (t : Tool) → Steps (other t) (path (other t)) s1 w1 s2 w2 → slot s2 t ≡ slot s1 t
      slot_back gost b = b.others
      slot_back realm b = b.others

      -- A child that the first step started is none that was held before.
      run_first :
          (t : Tool)
          → Steps t (path t) s w s1 w1
          → Steps (other t) (path (other t)) s1 w1 s2 w2
          → (c : Child) → child_of (slot s2 t) ≡ some c
          → runs c w2 ≡ some (t, path t)
      run_first t a b c e =
          let (run, unissued, now) = a.own c (sym (ap child_of (slot_back t b)) ∙ e) in
          elim (b.spares c now) [
            | inl q ↦ cc (unissued, held (other t) c (sym (ap child_of a.others) ∙ q))
            | inr q ↦ q ∙ run
          ]

      of_both : (P : Tool → Type 0) (t : Tool) → P t → P (other t) → (u : Tool) → P u
      of_both P gost p q gost = p
      of_both P gost p q realm = q
      of_both P realm p q gost = q
      of_both P realm p q realm = p

      pub both-Restarted :
          (t : Tool)
          → Steps t (path t) s w s1 w1
          → Steps (other t) (path (other t)) s1 w1 s2 w2
          → Restarted path s w s2 w2
      both-Restarted t a b = record {
        all_ended =
            of_both (λ u. (c : Child) → child_of (slot s u) ≡ some c → runs c w2 ≡ none) t
              (ended_first t a b) (ended_second t a b);
        all_run =
            of_both
              (λ u. (c : Child) → child_of (slot s2 u) ≡ some c → runs c w2 ≡ some (u, path u)) t
              (run_first t a b) (λ c e. (b.own c e).0);
        no_file = λ p. b.same_files p ∙ a.same_files p;
      }
