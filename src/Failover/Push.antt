-- ===== src/Failover/Push.antt =====
-- crates/agent/src/failover.rs: what a push of rules (`set_rules`) keeps and what it resets.
use multi_proxy.Prelude.{
  ◌≡◌, refl, sym, ap, ap₂, subst, ◌∙◌, inl, inr, ◌≢◌, List, [], ◌∷◌, Option, none, some, map, Text,
  nat_eq, list_eq, All, Any, get, erase, collect, Distinct, Finds, get-erase_ne, collect-Finds,
  arith, list_beq_iff,
}
use multi_proxy.Contract.Protocol.{RuleSpec, endpoint_eq}
use multi_proxy.Failover.Rule.{RuleState, new_rule}
use multi_proxy.Failover.Engine.{FailoverEngine, adopt, adopt_all, keyed, set_rules}

abbrev pub specs_of : List RuleState → List RuleSpec
specs_of = map λ rs. rs.spec

abbrev pub id_of : RuleState → Text
id_of rs = rs.spec.rule_id

abbrev pub spec_id : RuleSpec → Text
spec_id s = s.rule_id

spec-adopt : (s : RuleSpec) (o : Option RuleState) → (adopt s o).spec ≡ s
unfolding adopt new_rule
spec-adopt s none = refl
spec-adopt s (some old) = ground arith

specs_of-adopt_all :
    (m : List (Text × RuleState)) (specs : List RuleSpec) → specs_of (adopt_all m specs) ≡ specs
unfolding adopt_all
specs_of-adopt_all m [] = refl
specs_of-adopt_all m (s ∷ specs) =
    ap₂ ◌∷◌ (spec-adopt s (get s.rule_id m)) (specs_of-adopt_all (erase s.rule_id m) specs)

-- After a push the engine holds exactly the pushed specifications, in their order.
pub specs_of-set_rules :
    (e : FailoverEngine) (specs : List RuleSpec) → specs_of (set_rules e specs).rules ≡ specs
unfolding set_rules
specs_of-set_rules e specs = specs_of-adopt_all (collect (keyed e.rules)) specs

-- What a map finds for each rule's id is that rule.
abbrev Held : List (Text × RuleState) → List RuleState → Type 0
Held m = All λ rs. get (id_of rs) m ≡ some rs

All-keyed :
    (k : Text) (rules : List RuleState)
    → All (λ rs. id_of rs ≢ k) rules
    → All (λ (p : Text × RuleState). p.0 ≢ k) (keyed rules)
All-keyed k [] d = tt
All-keyed k (rs ∷ rules) d = (d.0, All-keyed k rules d.1)

keyed-Distinct :
    (rules : List RuleState)
    → Distinct id_of rules
    → Distinct (λ (p : Text × RuleState). p.0) (keyed rules)
keyed-Distinct [] d = tt
keyed-Distinct (rs ∷ rules) d = (All-keyed (id_of rs) rules d.0, keyed-Distinct rules d.1)

Held-of_Finds :
    (m : List (Text × RuleState)) (rules : List RuleState) → Finds m (keyed rules) → Held m rules
Held-of_Finds m [] f = tt
Held-of_Finds m (rs ∷ rules) f = (f.0, Held-of_Finds m rules f.1)

collect-Held : (rules : List RuleState) → Distinct id_of rules → Held (collect (keyed rules)) rules
collect-Held rules d = Held-of_Finds _ rules (collect-Finds (keyed rules) (keyed-Distinct rules d))

-- The state that a push gives a specification: the old one under a new specification where the backend
-- lists agree, and a fresh one elsewhere.
abbrev pub Carried : RuleState → RuleSpec → RuleState → Type 0
Carried old s rs =
    (old.spec.backends ≡ s.backends → rs ≡ record old { spec = s })
    × (old.spec.backends ≢ s.backends → rs ≡ new_rule s)

adopt-Carried : (old : RuleState) (s : RuleSpec) → Carried old s (adopt s (some old))
unfolding adopt
adopt-Carried old s = ground (arith, list_beq_iff old.spec.backends s.backends)

adopt_all-Carried :
    (m : List (Text × RuleState)) (specs : List RuleSpec) (s : RuleSpec) (old : RuleState)
    → Distinct spec_id specs
    → Any (λ x. x ≡ s) specs
    → get s.rule_id m ≡ some old
    → Any (Carried old s) (adopt_all m specs)
unfolding adopt_all
adopt_all-Carried m [] s old d h g = elim h [ ]
adopt_all-Carried m (x ∷ specs) s old d (inl e) g = inl (
    subst (Carried old s) (sym (ap (λ y. adopt y (get y.rule_id m)) e ∙ ap (adopt s) g))
      (adopt-Carried old s))
adopt_all-Carried m (x ∷ specs) s old d (inr h) g = inr (
    adopt_all-Carried (erase x.rule_id m) specs s old d.1 h
      (get-erase_ne s.rule_id x.rule_id m (apart specs d.0 h) ∙ g))
  where
    apart :
        (l : List RuleSpec)
        → All (λ y. spec_id y ≢ spec_id x) l
        → Any (λ y. y ≡ s) l
        → s.rule_id ≢ x.rule_id
    apart [] a h = elim h [ ]
    apart (y ∷ l) a (inl e) = λ q. a.0 (ap spec_id e ∙ q)
    apart (y ∷ l) a (inr h) = apart l a.1 h

get-Held :
    (m : List (Text × RuleState)) (rules : List RuleState) (old : RuleState)
    → Held m rules
    → Any (λ x. x ≡ old) rules
    → get (id_of old) m ≡ some old
get-Held m [] old h a = elim a [ ]
get-Held m (rs ∷ rules) old h (inl e) = subst (λ x. get (id_of x) m ≡ some x) e h.0
get-Held m (rs ∷ rules) old h (inr a) = get-Held m rules old h.1 a

-- With distinct ids before and in the push, a rule that is pushed again under its id keeps its
-- streaks, its active backend and its dwell count when its ordered backend list is unchanged, and
-- starts fresh when that list differs.
pub set_rules-Carried :
    (e : FailoverEngine) (specs : List RuleSpec) (old : RuleState) (s : RuleSpec)
    → Distinct id_of e.rules
    → Distinct spec_id specs
    → Any (λ x. x ≡ old) e.rules
    → Any (λ x. x ≡ s) specs
    → old.spec.rule_id ≡ s.rule_id
    → Any (Carried old s) (set_rules e specs).rules
unfolding set_rules
set_rules-Carried e specs old s before distinct held pushed same =
    adopt_all-Carried (collect (keyed e.rules)) specs s old distinct pushed (
      ap (λ k. get k (collect (keyed e.rules))) (sym same)
      ∙ get-Held (collect (keyed e.rules)) e.rules old (collect-Held e.rules before) held)
