-- ===== src/Failover/Folding.antt =====
-- crates/agent/src/failover.rs: what the fold of the probe results (`fold_rules`) does to the rules.
use multi_proxy.Prelude.{
  ℕ, suc, ◌<◌, ◌≡◌, refl, sym, ap, ap₂, subst, ◌∙◌, ◌≢◌, ◌↔◌, ◌==◌, Bool, true, false, not, ◌&&◌,
  ◌||◌, List, [], ◌∷◌, ◌++◌, Option, none, some, map, All, arith, length, saturating_add, u64_max,
  if◌then◌else◌,
}
use multi_proxy.Contract.Model.{Tool, gost, realm, tool_eq}
use multi_proxy.Contract.Protocol.{BackendHealth}
use multi_proxy.Failover.Endpoint.{FailoverTunables, EndpointState}
use multi_proxy.Failover.Rule.{RuleState, observe_each, fold_rule}
use multi_proxy.Failover.Selection.{IsValid, UpAt}
use multi_proxy.Failover.Switching.{Selects, reselect_total, reselect-UpAt}
use multi_proxy.Failover.Push.{specs_of}
use multi_proxy.Failover.Engine.{Folded, is_gost, add_rule, then_rule, fold_rules}

length-observe_each :
    (es : List EndpointState) (hs : List BackendHealth) (t : FailoverTunables)
    → length (observe_each es hs t) ≡ length es
unfolding observe_each
length-observe_each [] hs t = refl
length-observe_each (e ∷ es) [] t = refl
length-observe_each (e ∷ es) (h ∷ hs) t = ap suc (length-observe_each es hs t)

-- The rule after its probe results, before the selection.
abbrev pub probed : RuleState → List BackendHealth → FailoverTunables → RuleState
probed rs h t = record rs {
  endpoints = observe_each rs.endpoints h t;
  ticks_since_switch = saturating_add u64_max rs.ticks_since_switch 1;
}

probed-IsValid :
    (rs : RuleState) (h : List BackendHealth) (t : FailoverTunables)
    → IsValid rs
    → IsValid (probed rs h t)
probed-IsValid rs h t v = record {
  matched = length-observe_each rs.endpoints h t ∙ v.matched;
  in_bounds =
      subst (λ n. Bounded n rs.active_idx) (sym (length-observe_each rs.endpoints h t)) v.in_bounds;
}
  where
    Bounded : ℕ → Option ℕ → Type 0
    Bounded n none = n ≡ 0
    Bounded n (some i) = i < n

-- What the fold of a rule's probe results does to it.
pub record Folds (rs : RuleState) (h : List BackendHealth) (t : FailoverTunables) (rs' : RuleState)
    (changed : Bool) : Type 0 where
  pub selects : Selects (probed rs h t) rs' changed
  pub serves_up :
      (i : ℕ) → UpAt rs'.endpoints i → (a : ℕ) × (rs'.active_idx ≡ some a) × UpAt rs'.endpoints a

fold_rule_total :
    (rs : RuleState) (h : List BackendHealth) (t : FailoverTunables)
    → IsValid rs
    → (rs' : RuleState) × (changed : Bool) × (fold_rule rs h t ≡ some (rs', changed))
      × Folds rs h t rs' changed
unfolding fold_rule
fold_rule_total rs h t v =
    let p = probed rs h t in
    let valid : IsValid p = probed-IsValid rs h t v in
    let (rs', changed, e, s) = reselect_total p t valid in
    (
      rs',
      changed,
      e,
      record {
        selects = s;
        serves_up = λ i u.
            reselect-UpAt p t i rs' changed valid (subst (λ es. UpAt es i) s.same_endpoints u) e;
      },
    )

-- The active index of each rule of a tool, in place; a rule of the other tool counts as none.
abbrev pub index_for : Tool → RuleState → Option ℕ
index_for tool rs = if rs.spec.tool == tool then rs.active_idx else none

abbrev pub selection : Tool → List RuleState → List (Option ℕ)
selection tool = map (index_for tool)

-- Every endpoint list that has an endpoint which is up has the active one up.
abbrev pub ServesUp : RuleState → Type 0
ServesUp rs =
    (i : ℕ) → UpAt rs.endpoints i → (a : ℕ) × (rs.active_idx ≡ some a) × UpAt rs.endpoints a

abbrev pub concat_health : List (List BackendHealth) → List BackendHealth
concat_health [] = []
concat_health (h ∷ hs) = h ++ concat_health hs

-- The flag is down exactly if the two selections agree.
abbrev pub Exact : Bool → List (Option ℕ) → List (Option ℕ) → Type 0
Exact changed new old = (changed ≡ false) ↔ (new ≡ old)

pub record FoldsAll (rules : List RuleState) (hs : List (List BackendHealth)) (f : Folded)
    : Type 0 where
  pub valid : All IsValid f.rules
  pub same_specs : specs_of f.rules ≡ specs_of rules
  pub health : f.all_health ≡ concat_health hs
  pub serving : All ServesUp f.rules
  pub gost_exact : Exact f.gost_changed (selection gost f.rules) (selection gost rules)
  pub realm_exact : Exact f.realm_changed (selection realm f.rules) (selection realm rules)

-- One rule in front of exact flags: `own` says whether the rule is of the flag's tool.
Exact-cons :
    (changed own rest : Bool) (i j : Option ℕ) (is js : List (Option ℕ))
    → (changed ≡ false → i ≡ j)
    → (changed ≡ true → i ≢ j)
    → Exact rest is js
    → Exact
        ((changed && own) || rest)
        ((if own then i else none) ∷ is)
        ((if own then j else none) ∷ js)
Exact-cons changed own rest i j is js same other x = ground arith

gost_flag :
    (rs' : RuleState) (c rest : Bool) (rs : RuleState) (is js : List (Option ℕ))
    → rs'.spec ≡ rs.spec
    → (c ≡ false → rs'.active_idx ≡ rs.active_idx)
    → (c ≡ true → rs'.active_idx ≢ rs.active_idx)
    → Exact rest is js
    → Exact
        ((c && is_gost rs'.spec.tool) || rest)
        (index_for gost rs' ∷ is)
        (index_for gost rs ∷ js)
gost_flag rs' c rest rs is js e same other x =
    subst
      (λ s.
        Exact ((c && is_gost rs'.spec.tool) || rest) (index_for gost rs' ∷ is)
          ((if s.tool == gost then rs.active_idx else none) ∷ js))
      e (split rs'.spec.tool)
  where
    split :
        (tool : Tool)
        → Exact
            ((c && is_gost tool) || rest)
            ((if tool == gost then rs'.active_idx else none) ∷ is)
            ((if tool == gost then rs.active_idx else none) ∷ js)
    split gost = Exact-cons c true rest rs'.active_idx rs.active_idx is js same other x
    split realm = Exact-cons c false rest rs'.active_idx rs.active_idx is js same other x

realm_flag :
    (rs' : RuleState) (c rest : Bool) (rs : RuleState) (is js : List (Option ℕ))
    → rs'.spec ≡ rs.spec
    → (c ≡ false → rs'.active_idx ≡ rs.active_idx)
    → (c ≡ true → rs'.active_idx ≢ rs.active_idx)
    → Exact rest is js
    → Exact
        ((c && not (is_gost rs'.spec.tool)) || rest)
        (index_for realm rs' ∷ is)
        (index_for realm rs ∷ js)
realm_flag rs' c rest rs is js e same other x =
    subst
      (λ s.
        Exact ((c && not (is_gost rs'.spec.tool)) || rest) (index_for realm rs' ∷ is)
          ((if s.tool == realm then rs.active_idx else none) ∷ js))
      e (split rs'.spec.tool)
  where
    split :
        (tool : Tool)
        → Exact
            ((c && not (is_gost tool)) || rest)
            ((if tool == realm then rs'.active_idx else none) ∷ is)
            ((if tool == realm then rs.active_idx else none) ∷ js)
    split gost = Exact-cons c false rest rs'.active_idx rs.active_idx is js same other x
    split realm = Exact-cons c true rest rs'.active_idx rs.active_idx is js same other x

add_rule-FoldsAll :
    (rs : RuleState) (rules : List RuleState) (h : List BackendHealth)
    (hs : List (List BackendHealth)) (t : FailoverTunables) (rs' : RuleState) (c : Bool)
    (f : Folded)
    → Folds rs h t rs' c
    → FoldsAll rules hs f
    → FoldsAll (rs ∷ rules) (h ∷ hs) (add_rule (rs', c) h f)
add_rule-FoldsAll rs rules h hs t rs' c f fo all =
    let s = fo.selects in
    let still : (c ≡ false → rs'.active_idx ≡ rs.active_idx) =
      λ e. ap (λ x. x.active_idx) (s.quiet e) in
    let moves : (c ≡ true → rs'.active_idx ≢ rs.active_idx) = λ e. (s.moved e).1 in
    record {
      valid = (s.valid, all.valid);
      same_specs = ap₂ ◌∷◌ s.same_spec all.same_specs;
      health = ap (◌++◌ h) all.health;
      serving = (fo.serves_up, all.serving);
      gost_exact = gost_flag rs' c f.gost_changed rs _ _ s.same_spec still moves all.gost_exact;
      realm_exact = realm_flag rs' c f.realm_changed rs _ _ s.same_spec still moves all.realm_exact;
    }

pub fold_rules_total :
    (probe : RuleState → List BackendHealth) (rules : List RuleState) (t : FailoverTunables)
    → All IsValid rules
    → (f : Folded) × (fold_rules rules (map probe rules) t ≡ some f)
      × FoldsAll rules (map probe rules) f
unfolding fold_rules
fold_rules_total probe [] t v = (
  _,
  refl,
  record {
    valid = tt;
    same_specs = refl;
    health = refl;
    serving = tt;
    gost_exact = ((λ _. refl), λ _. refl);
    realm_exact = ((λ _. refl), λ _. refl);
  },
)
fold_rules_total probe (rs ∷ rules) t v =
    let (rs', c, e, fo) = fold_rule_total rs (probe rs) t v.0 in
    let (f, q, all) = fold_rules_total probe rules t v.1 in
    (
      add_rule (rs', c) (probe rs) f,
      ap₂ (λ a b. then_rule a (probe rs) b) e q,
      add_rule-FoldsAll rs rules (probe rs) (map probe rules) t rs' c f fo all,
    )
