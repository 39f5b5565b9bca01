-- ===== src/Supervisor/Healing.antt =====
-- crates/agent/src/supervisor.rs: a round of healing that succeeds brings forwarding up.
use multi_proxy.Prelude.{
  ℕ, ◌+◌, ◌%◌, ◌^◌, ◌≡◌, refl, sym, ap, subst, ◌∙◌, ◌⊎◌, inl, inr, Bool, true, false, List, [], ◌∷◌,
  Option, none, some, Text, arith, All, All-map, Any,
}
use multi_proxy.Contract.Model.{Tool, gost, realm}
use multi_proxy.Supervisor.{
  Result, ok, err, Processes, Slot, Supervisor, slot, set_slot, check_child, respawned,
  heal_checked, heal_slot, heal_tool, or_healed, heal_realm, heal_if_crashed, all_up, forwarding_up,
}

-- What the supervisor relies on of the operating system: its check tells whether the child is alive and
-- changes no liveness; a child just spawned is alive, and spawning ends no other child.
pub record Lives (World Child E : Type 0) (os : Processes World Child E) : Type 0 where
  pub alive : Child → World → Bool
  pub checked : (c : Child) (w : World) → (os.is_running c w).0 ≡ ok (alive c w)
  pub check_keeps : (c d : Child) (w : World) → alive d (os.is_running c w).1 ≡ alive d w
  pub spawned :
      (tool : Tool) (path : Text) (w : World) (c : Child)
      → (os.spawn tool path w).0 ≡ ok c
      → alive c (os.spawn tool path w).1 ≡ true
  pub spawn_keeps :
      (tool : Tool) (path : Text) (w : World) (d : Child)
      → alive d w ≡ true
      → alive d (os.spawn tool path w).1 ≡ true

abbrev pub other : Tool → Tool
other gost = realm
other realm = gost

module _ {Child : Type 0} where
  abbrev pub path_of : Option (Slot Child) → Option Text
  path_of none = none
  path_of (some sl) = some sl.config_path

  slot-set_slot :
      (s : Supervisor Child) (t : Tool) (o : Option (Slot Child)) (n : ℕ)
      → slot (record (set_slot s t o) { restarts = n }) t ≡ o
  unfolding slot set_slot
  slot-set_slot s gost o n = refl
  slot-set_slot s realm o n = refl

  slot-set_slot-other :
      (s : Supervisor Child) (t : Tool) (o : Option (Slot Child)) (n : ℕ)
      → slot (record (set_slot s t o) { restarts = n }) (other t) ≡ slot s (other t)
  unfolding slot set_slot
  slot-set_slot-other s gost o n = refl
  slot-set_slot-other s realm o n = refl

module _ (World Child E : Type 0) (os : Processes World Child E)
    (os_laws : Lives World Child E os) where
  open os_laws use {alive, checked, check_keeps, spawned, spawn_keeps}

  abbrev pub ChildUp : World → Option Child → Type 0
  ChildUp w none = ⊥
  ChildUp w (some c) = alive c w ≡ true

  -- A desired tool has a living child.
  abbrev pub Up : World → Option (Slot Child) → Type 0
  Up w none = Unit
  Up w (some sl) = ChildUp w sl.child

  abbrev pub Keeps : World → World → Type 0
  Keeps w w' = (d : Child) → alive d w ≡ true → alive d w' ≡ true

  -- What a round for one tool has done, if it did not fail.
  abbrev pub Healed :
      Tool → Supervisor Child → World → Result E Bool × (Supervisor Child × World) → Type 0
  Healed t s w (err e, after) = Unit
  Healed t s w (ok b, (s', w')) =
      Up w' (slot s' t)
      × (path_of (slot s' t) ≡ path_of (slot s t))
      × (slot s' (other t) ≡ slot s (other t))
      × Keeps w w'

  respawned-Healed :
      (t : Tool) (path : Text) (s : Supervisor Child) (w : World) (r : Result E Child × World)
      → path_of (slot s t) ≡ some path
      → ((c : Child) → r.0 ≡ ok c → alive c r.1 ≡ true)
      → Keeps w r.1
      → Healed t s w (respawned World Child E os t path s r)
  respawned-Healed t path s w (err e, w') p up k = tt
  respawned-Healed t path s w (ok c, w') p up k =
      let new = some (record { config_path = path; child = some c }) in
      let n = (s.restarts + 1) % 2 ^ 32 in
      (
        subst (Up w') (sym (slot-set_slot s t new n)) (up c refl),
        ap path_of (slot-set_slot s t new n) ∙ sym p,
        slot-set_slot-other s t new n,
        k,
      )

  heal_checked-Healed :
      (t : Tool) (path : Text) (s : Supervisor Child) (w : World) (r : Result E Bool × World)
      → path_of (slot s t) ≡ some path
      → (r.0 ≡ ok true → Up r.1 (slot s t))
      → Keeps w r.1
      → Healed t s w (heal_checked World Child E os t path s r)
  heal_checked-Healed t path s w (err e, w') p up k = tt
  heal_checked-Healed t path s w (ok true, w') p up k = (up refl, refl, refl, k)
  heal_checked-Healed t path s w (ok false, w') p up k =
      respawned-Healed t path s w (os.spawn t path w') p (spawned t path w')
        (λ d a. spawn_keeps t path w' d (k d a))

  check_child-up :
      (o : Option Child) (w : World)
      → (check_child World Child E os o w).0 ≡ ok true
      → ChildUp (check_child World Child E os o w).1 o
  check_child-up none w e = cc
  check_child-up (some c) w e = check_keeps c c w ∙ ground (arith, checked c w)

  check_child-Keeps : (o : Option Child) (w : World) → Keeps w (check_child World Child E os o w).1
  check_child-Keeps none w d a = a
  check_child-Keeps (some c) w d a = check_keeps c d w ∙ a

  heal_slot-Healed :
      (t : Tool) (o : Option (Slot Child)) (s : Supervisor Child) (w : World)
      → slot s t ≡ o
      → Healed t s w (heal_slot World Child E os t o s w)
  heal_slot-Healed t none s w e = (subst (Up w) (sym e) tt, refl, refl, λ d a. a)
  heal_slot-Healed t (some sl) s w e =
      heal_checked-Healed t sl.config_path s w (check_child World Child E os sl.child w)
        (ap path_of e)
        (λ h.
          subst (Up (check_child World Child E os sl.child w).1) (sym e)
            (check_child-up sl.child w h))
        (check_child-Keeps sl.child w)

  heal_tool-Healed :
      (t : Tool) (s : Supervisor Child) (w : World)
      → Healed t s w (heal_tool World Child E os t s w)
  unfolding heal_tool
  heal_tool-Healed t s w = heal_slot-Healed t (slot s t) s w refl

  ChildUp-Keeps : (w w' : World) (o : Option Child) → Keeps w w' → ChildUp w o → ChildUp w' o
  ChildUp-Keeps w w' none k u = u
  ChildUp-Keeps w w' (some c) k u = k c u

  Up-Keeps : (w w' : World) (o : Option (Slot Child)) → Keeps w w' → Up w o → Up w' o
  Up-Keeps w w' none k u = tt
  Up-Keeps w w' (some sl) k u = ChildUp-Keeps w w' sl.child k u

  -- A round for both tools that does not fail leaves every desired tool with a living child, and the
  -- desired tools and their configurations as they were.
  abbrev pub HealedAll : Supervisor Child → Result E Bool × (Supervisor Child × World) → Type 0
  HealedAll s (err e, after) = Unit
  HealedAll s (ok b, (s', w')) =
      Up w' (slot s' gost)
      × Up w' (slot s' realm)
      × (path_of (slot s' gost) ≡ path_of (slot s gost))
      × (path_of (slot s' realm) ≡ path_of (slot s realm))

  or_healed-HealedAll :
      (s s1 : Supervisor Child) (w w1 : World) (b : Bool)
      (r : Result E Bool × (Supervisor Child × World))
      → Healed gost s w (ok b, (s1, w1))
      → Healed realm s1 w1 r
      → HealedAll s (or_healed World Child E os b r)
  or_healed-HealedAll s s1 w w1 b (err e, after) h1 h2 = tt
  or_healed-HealedAll s s1 w w1 b (ok b2, (s2, w2)) (u1, p1, o1, k1) (u2, p2, o2, k2) = (
    subst (Up w2) (sym o2) (Up-Keeps w1 w2 (slot s1 gost) k2 u1),
    u2,
    ap path_of o2 ∙ p1,
    p2 ∙ ap path_of o1,
  )

  heal_realm-HealedAll :
      (s : Supervisor Child) (w : World) (r : Result E Bool × (Supervisor Child × World))
      → Healed gost s w r
      → HealedAll s (heal_realm World Child E os r)
  heal_realm-HealedAll s w (err e, after) h = tt
  heal_realm-HealedAll s w (ok b, (s1, w1)) h =
      or_healed-HealedAll s s1 w w1 b (heal_tool World Child E os realm s1 w1) h
        (heal_tool-Healed realm s1 w1)

  heal_if_crashed-HealedAll :
      (s : Supervisor Child) (w : World) → HealedAll s (heal_if_crashed World Child E os s w)
  unfolding heal_if_crashed
  heal_if_crashed-HealedAll s w =
      heal_realm-HealedAll s w (heal_tool World Child E os gost s w) (heal_tool-Healed gost s w)

  check_child-true :
      (o : Option Child) (w : World) → ChildUp w o → (check_child World Child E os o w).0 ≡ ok true
  check_child-true none w u = absurd u
  check_child-true (some c) w u = checked c w ∙ ap (λ b. ok b) u

  abbrev pub Desired : Option (Slot Child) → Type 0
  Desired none = ⊥
  Desired (some sl) = Unit

  all_up-true :
      (any : Bool) (slots : List (Option (Slot Child))) (w : World)
      → All (Up w) slots
      → (any ≡ true) ⊎ Any Desired slots
      → (all_up World Child E os any slots w).0 ≡ true
  unfolding all_up
  all_up-true any [] w a (inl e) = e
  all_up-true any [] w a (inr m) = elim m [ ]
  all_up-true any (none ∷ slots) w a (inl e) = all_up-true any slots w a.1 (inl e)
  all_up-true any (none ∷ slots) w a (inr (inl d)) = elim d [ ]
  all_up-true any (none ∷ slots) w a (inr (inr m)) = all_up-true any slots w a.1 (inr m)
  all_up-true any (some sl ∷ slots) w a h =
      let w' = (check_child World Child E os sl.child w).1 in
      rw (check_child-true sl.child w a.0) (
        all_up-true true slots w'
          (All-map (λ o u. Up-Keeps w w' o (check_child-Keeps sl.child w) u) slots a.1) (inl refl))

  Desired-path : (o o' : Option (Slot Child)) → path_of o' ≡ path_of o → Desired o → Desired o'
  Desired-path none o' e d = elim d [ ]
  Desired-path (some sl) none e d = cc
  Desired-path (some sl) (some sl') e d = tt

  -- If the operating system does what is relied on and some tool is desired, then after a healing that
  -- does not fail forwarding is up, and the desired tools are the same, with the same configurations.
  pub heal_if_crashed-forwarding_up :
      (s s' : Supervisor Child) (w w' : World) (healed : Bool)
      → heal_if_crashed World Child E os s w ≡ (ok healed, (s', w'))
      → Desired s.gost_slot ⊎ Desired s.realm_slot
      → ((forwarding_up World Child E os s' w').0 ≡ true)
        × (path_of s'.gost_slot ≡ path_of s.gost_slot)
        × (path_of s'.realm_slot ≡ path_of s.realm_slot)
  unfolding forwarding_up slot
  heal_if_crashed-forwarding_up s s' w w' healed e d =
      let (ug, ur, pg, pr) = subst (HealedAll s) e (heal_if_crashed-HealedAll s w) in
      (
        all_up-true false (s'.gost_slot ∷ s'.realm_slot ∷ []) w' (ug, (ur, tt))
            (inr (elim d [
              | inl g ↦ inl (Desired-path s.gost_slot s'.gost_slot pg g)
              | inr r ↦ inr (inl (Desired-path s.realm_slot s'.realm_slot pr r))
            ])),
        pg,
        pr,
      )
