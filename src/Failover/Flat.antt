-- ===== src/Failover/Flat.antt =====
-- crates/agent/src/failover.rs: the flat list of the backends of all rules.
use multi_proxy.Prelude.{
  ◌≡◌, ◌↔◌, ◌⊎◌, inl, inr, List, [], ◌∷◌, ◌++◌, contains, Any, Member, NoDup, NoDup-snoc,
  Member-append, Member-append_left, Member-append_right, contains_iff, Bool-cases, if◌then◌else◌,
}
use multi_proxy.Contract.Model.{BackendEndpoint}
use multi_proxy.Contract.Protocol.{endpoint_eq}
use multi_proxy.Failover.Rule.{RuleState}
use multi_proxy.Failover.Engine.{FailoverEngine, push_new, flatten_backends, flat_backends}

abbrev add_once : List BackendEndpoint → BackendEndpoint → List BackendEndpoint
add_once out ep = if contains out ep then out else out ++ (ep ∷ [])

add_once-NoDup :
    (out : List BackendEndpoint) (ep : BackendEndpoint) → NoDup out → NoDup (add_once out ep)
add_once-NoDup out ep d = elim (Bool-cases (contains out ep)) [
  | inl e ↦ rw e d
  | inr e ↦ rw e (NoDup-snoc out ep d (λ m. cc ((contains_iff out ep).1 m)))
]

-- The last item of the singleton.
only : {b ep : BackendEndpoint} → Member b (ep ∷ []) → ep ≡ b
only (inl e) = e
only (inr z) = elim z [ ]

Member-add_once :
    (out : List BackendEndpoint) (ep b : BackendEndpoint)
    → Member b (add_once out ep) ↔ (Member b out ⊎ (ep ≡ b))
Member-add_once out ep b = elim (Bool-cases (contains out ep)) [
  | inl e ↦ rw e ((λ m. inl m), elim [ inl m ↦ m | inr q ↦ rw (← q) ((contains_iff out ep).0 e) ])
  | inr e ↦ rw e (
    (λ m. elim (Member-append b out (ep ∷ []) m) [ inl l ↦ inl l | inr r ↦ inr (only r) ]),
    elim [
      | inl m ↦ Member-append_left b out (ep ∷ []) m
      | inr q ↦ Member-append_right b out (ep ∷ []) (inl q)
    ],
  )
]

push_new-NoDup : (out eps : List BackendEndpoint) → NoDup out → NoDup (push_new out eps)
push_new-NoDup out [] d = d
push_new-NoDup out (ep ∷ eps) d = push_new-NoDup (add_once out ep) eps (add_once-NoDup out ep d)

Member-push_new :
    (out eps : List BackendEndpoint) (b : BackendEndpoint)
    → Member b (push_new out eps) ↔ (Member b out ⊎ Member b eps)
Member-push_new out [] b = ((λ m. inl m), elim [ inl m ↦ m | inr z ↦ elim z [ ] ])
Member-push_new out (ep ∷ eps) b =
    let ih = Member-push_new (add_once out ep) eps b in
    let step = Member-add_once out ep b in
    (
      (λ m. elim (ih.0 m) [
        | inl l ↦ elim (step.0 l) [ inl o ↦ inl o | inr q ↦ inr (inl q) ]
        | inr r ↦ inr (inr r)
      ]),
      elim [
        | inl o ↦ ih.1 (inl (step.1 (inl o)))
        | inr r ↦ elim r [ inl q ↦ ih.1 (inl (step.1 (inr q))) | inr s ↦ ih.1 (inr s) ]
      ],
    )

abbrev pub InSomeRule : BackendEndpoint → List RuleState → Type 0
InSomeRule b = Any λ rs. Member b rs.spec.backends

flatten-NoDup :
    (out : List BackendEndpoint) (rules : List RuleState)
    → NoDup out
    → NoDup (flatten_backends out rules)
unfolding flatten_backends
flatten-NoDup out [] d = d
flatten-NoDup out (rs ∷ rules) d =
    flatten-NoDup (push_new out rs.spec.backends) rules (push_new-NoDup out rs.spec.backends d)

Member-flatten :
    (out : List BackendEndpoint) (rules : List RuleState) (b : BackendEndpoint)
    → Member b (flatten_backends out rules) ↔ (Member b out ⊎ InSomeRule b rules)
unfolding flatten_backends
Member-flatten out [] b = ((λ m. inl m), elim [ inl m ↦ m | inr z ↦ elim z [ ] ])
Member-flatten out (rs ∷ rules) b =
    let ih = Member-flatten (push_new out rs.spec.backends) rules b in
    let step = Member-push_new out rs.spec.backends b in
    (
      (λ m. elim (ih.0 m) [
        | inl l ↦ elim (step.0 l) [ inl o ↦ inl o | inr q ↦ inr (inl q) ]
        | inr r ↦ inr (inr r)
      ]),
      elim [
        | inl o ↦ ih.1 (inl (step.1 (inl o)))
        | inr r ↦ elim r [ inl q ↦ ih.1 (inl (step.1 (inr q))) | inr s ↦ ih.1 (inr s) ]
      ],
    )

-- The flat backend list holds no endpoint twice, and holds exactly the endpoints that some rule has.
pub flat_backends_union :
    (e : FailoverEngine)
    → NoDup (flat_backends e)
      × ((b : BackendEndpoint) → Member b (flat_backends e) ↔ InSomeRule b e.rules)
unfolding flat_backends
flat_backends_union e = (
  flatten-NoDup [] e.rules tt,
  λ b.
      let m = Member-flatten [] e.rules b in
      ((λ h. elim (m.0 h) [ inl z ↦ elim z [ ] | inr r ↦ r ]), λ h. m.1 (inr h)),
)
