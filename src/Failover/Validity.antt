-- ===== src/Failover/Validity.antt =====
-- crates/agent/src/failover.rs: the invariant of the engine, from its creation through every push.
use multi_proxy.Prelude.{
  ◌≡◌, refl, ap, ◌∙◌, List, [], ◌∷◌, some, Text, All, get, erase, insert, insert_all, collect,
  arith, length, length-map, list_beq_iff, list_beq, ◌==◌, Bool-cases, inl, inr, nat_eq, list_eq,
}
use multi_proxy.Contract.Model.{BackendEndpoint}
use multi_proxy.Contract.Protocol.{RuleSpec, endpoint_eq}
use multi_proxy.Relaycfg.{TlsPaths}
use multi_proxy.Failover.Rule.{RuleState, new_rule}
use multi_proxy.Failover.Selection.{IsValid}
use multi_proxy.Failover.Engine.{FailoverEngine, adopt, adopt_all, keyed, new_engine, set_rules}

-- Every rule has a hysteresis state for each backend, and an active backend unless it has none.
abbrev pub EngineIsValid : FailoverEngine → Type 0
EngineIsValid e = All IsValid e.rules

new_rule-IsValid_of :
    (s : RuleSpec) (bs : List BackendEndpoint)
    → s.backends ≡ bs
    → IsValid (new_rule (record s { backends = bs }))
unfolding new_rule
new_rule-IsValid_of s [] e = record { matched = refl; in_bounds = refl }
new_rule-IsValid_of s (b ∷ bs) e = record {
  matched = length-map (b ∷ bs) _;
  in_bounds = omega arith;
}

pub new_rule-IsValid : (s : RuleSpec) → IsValid (new_rule s)
new_rule-IsValid s = new_rule-IsValid_of s s.backends refl

adopt-IsValid : (s : RuleSpec) (old : RuleState) → IsValid old → IsValid (adopt s (some old))
unfolding adopt
adopt-IsValid s old v = elim (Bool-cases (list_beq old.spec.backends s.backends)) [
  | inl e ↦ rw e (record {
    matched = v.matched ∙ ap length ((list_beq_iff old.spec.backends s.backends).0 e);
    in_bounds = v.in_bounds;
  })
  | inr e ↦ rw e (new_rule-IsValid s)
]

-- Every state that the map holds is valid.
abbrev HoldsValid : List (Text × RuleState) → Type 0
HoldsValid = All λ p. IsValid p.1

erase-HoldsValid : (k : Text) (m : List (Text × RuleState)) → HoldsValid m → HoldsValid (erase k m)
unfolding erase
erase-HoldsValid k [] h = tt
erase-HoldsValid k ((j, rs) ∷ m) h = elim (Bool-cases (j == k)) [
  | inl e ↦ rw e (erase-HoldsValid k m h.1)
  | inr e ↦ rw e (h.0, erase-HoldsValid k m h.1)
]

insert_all-HoldsValid :
    (rules : List RuleState) (m : List (Text × RuleState))
    → All IsValid rules
    → HoldsValid m
    → HoldsValid (insert_all (keyed rules) m)
unfolding insert_all insert
insert_all-HoldsValid [] m v h = h
insert_all-HoldsValid (rs ∷ rules) m v h =
    insert_all-HoldsValid rules (insert rs.spec.rule_id rs m) v.1
      (v.0, erase-HoldsValid rs.spec.rule_id m h)

adopt-IsValid_of_get :
    (s : RuleSpec) (k : Text) (m : List (Text × RuleState))
    → HoldsValid m
    → IsValid (adopt s (get k m))
unfolding get
adopt-IsValid_of_get s k [] h = unfold adopt in new_rule-IsValid s
adopt-IsValid_of_get s k ((j, rs) ∷ m) h = elim (Bool-cases (j == k)) [
  | inl e ↦ rw e (adopt-IsValid s rs h.0)
  | inr e ↦ rw e (adopt-IsValid_of_get s k m h.1)
]

adopt_all-IsValid :
    (m : List (Text × RuleState)) (specs : List RuleSpec)
    → HoldsValid m
    → All IsValid (adopt_all m specs)
unfolding adopt_all
adopt_all-IsValid m [] h = tt
adopt_all-IsValid m (s ∷ specs) h = (
  adopt-IsValid_of_get s s.rule_id m h,
  adopt_all-IsValid (erase s.rule_id m) specs (erase-HoldsValid s.rule_id m h),
)

pub new_engine-IsValid : (tls : TlsPaths) → EngineIsValid (new_engine tls)
unfolding new_engine
new_engine-IsValid tls = tt

-- Every push keeps the engine valid, with whatever rules it carries.
pub set_rules-IsValid :
    (e : FailoverEngine) (specs : List RuleSpec)
    → EngineIsValid e
    → EngineIsValid (set_rules e specs)
unfolding set_rules collect
set_rules-IsValid e specs v =
    adopt_all-IsValid (collect (keyed e.rules)) specs (insert_all-HoldsValid e.rules [] v tt)
