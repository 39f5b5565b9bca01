-- ===== src/Sampler/Window.antt =====
-- crates/agent/src/capacity.rs: what the window of points holds after every sample.
use multi_proxy.Prelude.{
  ℕ, ◌-◌, ◌≤◌, ◌≡◌, refl, sym, subst, inl, inr, true, false, List, [], ◌∷◌, ◌++◌, Option, none,
  some, All, All-map, All-append, All-both, Member, all_members, not_ltb, Bool-cases, arith,
  if◌then◌else◌,
}
use native.Mathlib.Nat.{le_trans, le_refl}
use multi_proxy.Sampler.{
  CounterSample, WindowPoint, CapacityCollector, total, has_reset, is_stale, evict, observe_sample,
}

-- Later points were taken later, and their totals are not smaller.
abbrev pub Follows : WindowPoint → WindowPoint → Type 0
Follows p q = (p.at ≤ q.at) × (p.total_bytes ≤ q.total_bytes)

abbrev pub Chronological : List WindowPoint → Type 0
Chronological [] = Unit
Chronological (p ∷ ps) = All (Follows p) ps × Chronological ps

-- The last sample, when there is one, is not below a point of the window.
abbrev pub LastIs : Option CounterSample → List WindowPoint → Type 0
LastIs none ps = ps ≡ []
LastIs (some s) ps = All (λ p. p.total_bytes ≤ total s) ps

pub record IsValid (c : CapacityCollector) (now : ℕ) : Type 0 where
  pub chronological : Chronological c.window
  pub past : All (λ (p : WindowPoint). p.at ≤ now) c.window
  pub last_is : LastIs c.last c.window

-- At most one point before the fresh ones.
abbrev pub Recent : ℕ → ℕ → List WindowPoint → Type 0
Recent now span [] = Unit
Recent now span (p ∷ []) = Unit
Recent now span (p ∷ q ∷ []) = Unit
Recent now span (p ∷ q ∷ r ∷ ps) = now - q.at ≤ span

evict-Chronological :
    (now span : ℕ) (ps : List WindowPoint) → Chronological ps → Chronological (evict now span ps)
unfolding evict
evict-Chronological now span [] c = tt
evict-Chronological now span (p ∷ []) c = c
evict-Chronological now span (p ∷ q ∷ []) c = c
evict-Chronological now span (p ∷ q ∷ r ∷ ps) c = elim (Bool-cases (is_stale now span q)) [
  | inl e ↦ rw e (evict-Chronological now span (q ∷ r ∷ ps) c.1)
  | inr e ↦ rw e c
]

evict-All :
    (P : WindowPoint → Type 0) (now span : ℕ) (ps : List WindowPoint)
    → All P ps
    → All P (evict now span ps)
unfolding evict
evict-All P now span [] a = tt
evict-All P now span (p ∷ []) a = a
evict-All P now span (p ∷ q ∷ []) a = a
evict-All P now span (p ∷ q ∷ r ∷ ps) a = elim (Bool-cases (is_stale now span q)) [
  | inl e ↦ rw e (evict-All P now span (q ∷ r ∷ ps) a.1)
  | inr e ↦ rw e a
]

evict-Recent : (now span : ℕ) (ps : List WindowPoint) → Recent now span (evict now span ps)
unfolding evict
evict-Recent now span [] = tt
evict-Recent now span (p ∷ []) = tt
evict-Recent now span (p ∷ q ∷ []) = tt
evict-Recent now span (p ∷ q ∷ r ∷ ps) = elim (Bool-cases (is_stale now span q)) [
  | inl e ↦ rw e (evict-Recent now span (q ∷ r ∷ ps))
  | inr e ↦ rw e (ground (arith, e))
]

-- The first point goes while the second is stale.
evict_stale :
    (now span : ℕ) (p q r : WindowPoint) (ps : List WindowPoint)
    → is_stale now span q ≡ true
    → evict now span (p ∷ q ∷ r ∷ ps) ≡ evict now span (q ∷ r ∷ ps)
unfolding evict
evict_stale now span p q r ps e = rw e refl

evict_fresh :
    (now span : ℕ) (p q r : WindowPoint) (ps : List WindowPoint)
    → is_stale now span q ≡ false
    → evict now span (p ∷ q ∷ r ∷ ps) ≡ p ∷ q ∷ r ∷ ps
unfolding evict
evict_fresh now span p q r ps e = rw e refl

abbrev KeptIn : ℕ → ℕ → List WindowPoint → List WindowPoint → Type 0
KeptIn now span ws ps = All (λ (z : WindowPoint). now - z.at ≤ span → Member z ws) ps

-- A point within the span is kept.
evict_keeps :
    (now span : ℕ) (ps : List WindowPoint)
    → Chronological ps
    → KeptIn now span (evict now span ps) ps
unfolding evict
evict_keeps now span [] c = tt
evict_keeps now span (p ∷ []) c = ((λ h. inl refl), tt)
evict_keeps now span (p ∷ q ∷ []) c = ((λ h. inl refl), ((λ h. inr (inl refl)), tt))
evict_keeps now span (p ∷ q ∷ r ∷ ps) c = elim (Bool-cases (is_stale now span q)) [
  | inl e ↦
      subst (λ ws. KeptIn now span ws (p ∷ q ∷ r ∷ ps)) (sym (evict_stale now span p q r ps e))
        ((λ h. ground (arith, c.0.0, e, h)), evict_keeps now span (q ∷ r ∷ ps) c.1)
  | inr e ↦
      subst (λ ws. KeptIn now span ws (p ∷ q ∷ r ∷ ps)) (sym (evict_fresh now span p q r ps e))
        (All-map (λ z m h. m) (p ∷ q ∷ r ∷ ps) (all_members (p ∷ q ∷ r ∷ ps)))
]

Chronological-snoc :
    (ps : List WindowPoint) (p : WindowPoint)
    → Chronological ps
    → All (λ q. Follows q p) ps
    → Chronological (ps ++ (p ∷ []))
Chronological-snoc [] p c a = (tt, tt)
Chronological-snoc (q ∷ ps) p c a =
    (All-append (Follows q) ps (p ∷ []) c.0 (a.0, tt), Chronological-snoc ps p c.1 a.1)

-- The window that a sample starts from: all of it, or nothing after a reset.
abbrev pub kept : CapacityCollector → CounterSample → List WindowPoint
kept c sample = if has_reset c.last sample then [] else c.window

below_sample :
    (o : Option CounterSample) (ps : List WindowPoint) (sample : CounterSample)
    → LastIs o ps
    → has_reset o sample ≡ false
    → All (λ (p : WindowPoint). p.total_bytes ≤ total sample) ps
below_sample none ps sample l h = rw l tt
below_sample (some prev) ps sample l h =
    All-map (λ p b. le_trans b (not_ltb (total sample) (total prev) h)) ps l

kept-IsValid :
    (c : CapacityCollector) (before : ℕ) (sample : CounterSample)
    → IsValid c before
    → Chronological (kept c sample)
      × All (λ (p : WindowPoint). p.at ≤ before) (kept c sample)
      × All (λ (p : WindowPoint). p.total_bytes ≤ total sample) (kept c sample)
kept-IsValid c before sample v = elim (Bool-cases (has_reset c.last sample)) [
  | inl e ↦ rw e (tt, tt, tt)
  | inr e ↦ rw e (v.chronological, v.past, below_sample c.last c.window sample v.last_is e)
]

-- A sample taken no earlier than the last one keeps the window in order of time and of totals, with no
-- point from the future. The window then holds the new point and every point within the span, since the
-- counters were last reset, and at most one point before those, unless it is of two points.
pub observe_sample-IsValid :
    (rate : ℕ → ℕ → ℕ) (c : CapacityCollector) (before now : ℕ) (sample : CounterSample)
    → IsValid c before
    → before ≤ now
    → let c' = observe_sample rate c now sample in
      let new : WindowPoint = record { at = now; total_bytes = total sample } in
      IsValid c' now
      × Recent now c.window_span c'.window
      × All
          (λ (p : WindowPoint). now - p.at ≤ c.window_span → Member p c'.window)
          (kept c sample ++ (new ∷ []))
unfolding observe_sample
observe_sample-IsValid rate c before now sample v h =
    let new : WindowPoint = record { at = now; total_bytes = total sample } in
    let (chron, past, low) = kept-IsValid c before sample v in
    let old = kept c sample in
    let ahead =
      All-map (λ p b. (le_trans b.0 h, b.1)) old
        (All-both (λ (p : WindowPoint). p.at ≤ before)
          (λ (p : WindowPoint). p.total_bytes ≤ total sample) old past low) in
    let all = Chronological-snoc old new chron ahead in
    (
      record {
        chronological = evict-Chronological now c.window_span (old ++ (new ∷ [])) all;
        past =
            evict-All (λ p. p.at ≤ now) now c.window_span (old ++ (new ∷ []))
              (All-append (λ p. p.at ≤ now) old (new ∷ []) (All-map (λ p b. le_trans b h) old past)
                (le_refl now, tt));
        last_is =
            evict-All (λ p. p.total_bytes ≤ total sample) now c.window_span (old ++ (new ∷ []))
              (All-append (λ p. p.total_bytes ≤ total sample) old (new ∷ []) low
                (le_refl (total sample), tt));
      },
      evict-Recent now c.window_span (old ++ (new ∷ [])),
      evict_keeps now c.window_span (old ++ (new ∷ [])) all,
    )
