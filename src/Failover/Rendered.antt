-- ===== src/Failover/Rendered.antt =====
-- crates/agent/src/failover.rs: a tool whose selection moved has a rule to render.
use multi_proxy.Prelude.{
  ℕ, zero, suc, ◌<◌, ◌≡◌, ◌≢◌, refl, sym, ap, ap₂, subst, ◌∙◌, ◌⊎◌, inl, inr, ◌==◌, true, List, [],
  ◌∷◌, Option, none, some, Text, map, filter, filter_map, filter_map-none, filter_map-some,
  filter-All_rev, All, length, Bool-cases, if◌then◌else◌, arith,
}
use multi_proxy.Prelude.Sort.{All-sort_by}
use multi_proxy.Contract.Model.{BackendEndpoint, ForwardRule, Tool, gost, realm, tool_eq}
use multi_proxy.Contract.Protocol.{RuleSpec}
use multi_proxy.Relaycfg.{Json, TlsPaths, render_gost, render_realm}
use multi_proxy.Failover.Rule.{RuleState, backend_at, active_endpoint}
use multi_proxy.Failover.Selection.{IsValid, ActiveIn}
use multi_proxy.Failover.Push.{specs_of}
use multi_proxy.Failover.Folding.{selection}
use multi_proxy.Failover.Engine.{
  FailoverEngine, view, by_port, rules_of, unless_empty, render_active,
}

-- The rules of a tool, each with its active replica as the backend, by listen port.
abbrev pub to_render : Tool → FailoverEngine → List ForwardRule
to_render tool e = rules_of tool (filter_map view e.rules)

abbrev pub tls_of : FailoverEngine → Option TlsPaths
tls_of e = if e.tls_available then some e.tls else none

backend_in :
    (bs : List BackendEndpoint) (i : ℕ)
    → i < length bs
    → (b : BackendEndpoint) × (backend_at bs (some i) ≡ some b)
backend_in [] i h = absurd (omega arith)
backend_in (b ∷ bs) zero h = (b, refl)
backend_in (b ∷ bs) (suc i) h = backend_in bs i (omega arith)

-- A valid rule has no endpoint, or a view for its tool.
abbrev Viewed : RuleState → Type 0
Viewed rs =
    ((view rs ≡ none) × (length rs.spec.backends ≡ 0))
    ⊎ ((v : ForwardRule) × (view rs ≡ some v) × (v.tool ≡ rs.spec.tool))

view_of_none : (rs : RuleState) → active_endpoint rs ≡ none → view rs ≡ none
unfolding view
view_of_none rs f = rw (view, f) refl

view_of_active :
    (rs : RuleState) (b : BackendEndpoint)
    → active_endpoint rs ≡ some b
    → (v : ForwardRule) × (view rs ≡ some v) × (v.tool ≡ rs.spec.tool)
unfolding view
view_of_active rs b f = rw (view, f) (_, refl, refl)

view_cases : (rs : RuleState) (o : Option ℕ) → IsValid rs → rs.active_idx ≡ o → Viewed rs
unfolding view active_endpoint
view_cases rs none v e =
    let empty = subst (ActiveIn (length rs.endpoints)) e v.in_bounds in
    inl (view_of_none rs (ap (backend_at rs.spec.backends) e), sym v.matched ∙ empty)
view_cases rs (some i) v e =
    let inside = subst (ActiveIn (length rs.endpoints)) e v.in_bounds in
    let (b, f) = backend_in rs.spec.backends i (subst (λ n. i < n) v.matched inside) in
    inr (view_of_active rs b (ap (backend_at rs.spec.backends) e ∙ f))

module _ (tool : Tool) where
  -- Each rule of the tool has no backend.
  abbrev Idle : List RuleSpec → Type 0
  Idle = All λ (s : RuleSpec). (s.tool == tool) ≡ true → length s.backends ≡ 0

  views-Idle :
      (rules : List RuleState)
      → All IsValid rules
      → All (λ (v : ForwardRule). (v.tool == tool) ≡ true → ⊥) (filter_map view rules)
      → Idle (specs_of rules)
  views-Idle [] v a = tt
  views-Idle (rs ∷ rules) v a = elim (view_cases rs rs.active_idx v.0 refl) [
    | inl (n, z) ↦ (
      (λ _. z),
      views-Idle rules v.1 (
          subst (All (λ (x : ForwardRule). (x.tool == tool) ≡ true → ⊥))
            (filter_map-none view rs rules n) a),
    )
    | inr (x, e, t) ↦
        let (h, rest) =
          subst (All (λ (y : ForwardRule). (y.tool == tool) ≡ true → ⊥))
            (filter_map-some view rs rules x e) a in
        ((λ own. absurd (h (ap (λ u. u == tool) t ∙ own))), views-Idle rules v.1 rest)
  ]

  Idle-index :
      (rs : RuleState) (o : Option ℕ)
      → IsValid rs
      → rs.active_idx ≡ o
      → length rs.spec.backends ≡ 0
      → o ≡ none
  Idle-index rs none v e z = refl
  Idle-index rs (some i) v e z =
      let inside = subst (ActiveIn (length rs.endpoints)) e v.in_bounds in
      let m = v.matched in absurd (omega (arith, inside, m, z))

  Idle-selection :
      (rules : List RuleState)
      → All IsValid rules
      → Idle (specs_of rules)
      → selection tool rules ≡ map (λ _. none) (specs_of rules)
  Idle-selection [] v d = refl
  Idle-selection (rs ∷ rules) v d =
      ap₂ (λ (x : Option ℕ) xs. x ∷ xs)
        (elim (Bool-cases (rs.spec.tool == tool)) [
          | inl own ↦ rw own (Idle-index rs rs.active_idx v.0 refl (d.0 own))
          | inr other ↦ rw other refl
        ])
        (Idle-selection rules v.1 d.1)

  -- With no rule to render, before and after a move that keeps the specifications, nothing is selected.
  moved_nonempty :
      (old new : List RuleState)
      → All IsValid old
      → All IsValid new
      → specs_of new ≡ specs_of old
      → selection tool new ≢ selection tool old
      → rules_of tool (filter_map view new) ≢ []
  unfolding rules_of
  moved_nonempty old new v v' same moved empty =
      let none_left =
        All-sort_by by_port (λ _. ⊥) (filter (λ r. r.tool == tool) (filter_map view new))
          (subst (All (λ _. ⊥)) (sym empty) tt) in
      let idle = views-Idle new v' (
        filter-All_rev (λ (r : ForwardRule). r.tool == tool) (λ _. ⊥) (filter_map view new)
          none_left) in
      moved (
        Idle-selection new v' idle
        ∙ ap (map (λ _. none)) same
        ∙ sym (Idle-selection old v (subst Idle same idle)))

unless_full :
    (rules : List ForwardRule) (text : Text) → rules ≢ [] → unless_empty rules text ≡ some text
unless_full [] text n = absurd (n refl)
unless_full (r ∷ rules) text n = refl

module _ (to_string_pretty : Json → Option Text) (e e' : FailoverEngine) (v : All IsValid e.rules)
    (v' : All IsValid e'.rules) (same : specs_of e'.rules ≡ specs_of e.rules) where
  -- What is rendered for a tool whose selection moved.
  pub render_active-gost :
      selection gost e'.rules ≢ selection gost e.rules
      → (render_active to_string_pretty e').0
        ≡ some (render_gost to_string_pretty (to_render gost e') (tls_of e'))
  unfolding render_active
  render_active-gost m =
      unless_full (to_render gost e') _ (moved_nonempty gost e.rules e'.rules v v' same m)

  pub render_active-realm :
      selection realm e'.rules ≢ selection realm e.rules
      → (render_active to_string_pretty e').1 ≡ some (render_realm (to_render realm e') (tls_of e'))
  unfolding render_active
  render_active-realm m =
      unless_full (to_render realm e') _ (moved_nonempty realm e.rules e'.rules v v' same m)
