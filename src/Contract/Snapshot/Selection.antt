-- ===== src/Contract/Snapshot/Selection.antt =====
-- crates/contract/src/snapshot.rs: what the two-tier selection serves.
use multi_proxy.Prelude.{
  ◌≡◌, refl, sym, ap, ◌∙◌, subst, ◌↔◌, inl, inr, ◌≢◌, Bool, true, false, List, [], ◌∷◌, map, filter,
  Any, All, Member, Bool-cases, arith,
}
use multi_proxy.Contract.Model.{IpAddr}
use multi_proxy.Contract.Snapshot.{
  ExclusionClass, is_included, is_soft, is_hard, select_available, promote, included, soft_quota,
  saturated, hard_quota, unhealthy,
}

abbrev pub Classified : Type 0
Classified = List (IpAddr × ExclusionClass)

-- Some node has the address and a class of the kind.
abbrev pub HasKind : (ExclusionClass → Bool) → IpAddr → Classified → Type 0
HasKind kind ip = Any λ (n : IpAddr × ExclusionClass). (n.0 ≡ ip) × (kind n.1 ≡ true)

-- Some node has a class of the kind.
abbrev pub SomeKind : (ExclusionClass → Bool) → Classified → Type 0
SomeKind kind = Any λ (n : IpAddr × ExclusionClass). kind n.1 ≡ true

module _ (kind : ExclusionClass → Bool) where
  abbrev pub of_kind : Classified → List IpAddr
  of_kind nodes = map (λ p. p.0) (filter (λ p. kind p.1) nodes)

  Member-of_kind :
      (ip : IpAddr) (nodes : Classified) → Member ip (of_kind nodes) ↔ HasKind kind ip nodes
  unfolding filter
  Member-of_kind ip [] = ((λ m. m), λ m. m)
  Member-of_kind ip ((a, c) ∷ nodes) = elim (Bool-cases (kind c)) [
    | inl e ↦ rw e (
      elim [ inl q ↦ inl (q, refl) | inr m ↦ inr ((Member-of_kind ip nodes).0 m) ],
      elim [ inl (q, _) ↦ inl q | inr m ↦ inr ((Member-of_kind ip nodes).1 m) ],
    )
    | inr e ↦ rw e (
      (λ m. inr ((Member-of_kind ip nodes).0 m)),
      elim [ inl (_, h) ↦ cc | inr m ↦ (Member-of_kind ip nodes).1 m ],
    )
  ]

  of_kind-empty : (nodes : Classified) → of_kind nodes ≡ [] → ¬ SomeKind kind nodes
  unfolding filter
  of_kind-empty [] e m = m
  of_kind-empty ((a, c) ∷ nodes) e (inl h) = ground arith
  of_kind-empty ((a, c) ∷ nodes) e (inr m) = elim (Bool-cases (kind c)) [
    | inl h ↦ ground arith
    | inr h ↦ of_kind-empty nodes (ground arith) m
  ]

  empty-of_kind : (nodes : Classified) → ¬ SomeKind kind nodes → of_kind nodes ≡ []
  unfolding filter
  empty-of_kind [] n = refl
  empty-of_kind ((a, c) ∷ nodes) n = elim (Bool-cases (kind c)) [
    | inl h ↦ absurd (n (inl h))
    | inr h ↦ rw h (empty-of_kind nodes (λ m. n (inr m)))
  ]

promote_full : (xs ys : List IpAddr) → xs ≢ [] → promote xs ys ≡ xs
promote_full [] ys n = absurd (n refl)
promote_full (x ∷ xs) ys n = refl

promote_empty : (xs ys : List IpAddr) → promote xs ys ≡ [] → (xs ≡ []) × (ys ≡ [])
promote_empty [] ys e = (refl, e)
promote_empty (x ∷ xs) ys e = cc

hard_of_neither :
    (nodes : Classified)
    → ¬ SomeKind is_included nodes
    → ¬ SomeKind is_soft nodes
    → All (λ (n : IpAddr × ExclusionClass). is_hard n.1 ≡ true) nodes
hard_of_neither [] i s = tt
hard_of_neither ((a, c) ∷ nodes) i s = (
  class c (λ h. i (inl h)) (λ h. s (inl h)),
  hard_of_neither nodes (λ m. i (inr m)) (λ m. s (inr m)),
)
  where
    class :
        (k : ExclusionClass) → ¬ (is_included k ≡ true) → ¬ (is_soft k ≡ true) → is_hard k ≡ true
    class included m n = absurd (m (unfold is_included in refl))
    class soft_quota m n = absurd (n (unfold is_soft in refl))
    class saturated m n = absurd (n (unfold is_soft in refl))
    class hard_quota m n = unfold is_hard in refl
    class unhealthy m n = unfold is_hard in refl

none_of_hard :
    (kind : ExclusionClass → Bool) (nodes : Classified)
    → ((k : ExclusionClass) → is_hard k ≡ true → kind k ≡ false)
    → All (λ (n : IpAddr × ExclusionClass). is_hard n.1 ≡ true) nodes
    → ¬ SomeKind kind nodes
none_of_hard kind [] apart h m = m
none_of_hard kind ((a, c) ∷ nodes) apart h (inl e) = cc (apart c h.0)
none_of_hard kind ((a, c) ∷ nodes) apart h (inr m) = none_of_hard kind nodes apart h.1 m

hard-included : (k : ExclusionClass) → is_hard k ≡ true → is_included k ≡ false
unfolding is_hard is_included
hard-included k h = ground arith

hard-soft : (k : ExclusionClass) → is_hard k ≡ true → is_soft k ≡ false
unfolding is_hard is_soft
hard-soft k h = ground arith

-- If some node is included, exactly the addresses of the included nodes are served; if none is, exactly
-- those of the softly excluded nodes; and nothing is served exactly if every node is hard excluded.
pub select_available_tiers :
    (nodes : Classified)
    → (SomeKind is_included nodes
        → (ip : IpAddr) → Member ip (select_available nodes) ↔ HasKind is_included ip nodes)
      × (¬ SomeKind is_included nodes
          → (ip : IpAddr) → Member ip (select_available nodes) ↔ HasKind is_soft ip nodes)
      × ((select_available nodes ≡ [])
          ↔ All (λ (n : IpAddr × ExclusionClass). is_hard n.1 ≡ true) nodes)
unfolding select_available
select_available_tiers nodes = (
  (λ some ip.
      subst (λ l. Member ip l ↔ HasKind is_included ip nodes)
        (sym (
          promote_full (of_kind is_included nodes) (of_kind is_soft nodes)
            (λ e. of_kind-empty is_included nodes e some)))
        (Member-of_kind is_included ip nodes)),
  (λ none ip.
      subst (λ l. Member ip (promote l (of_kind is_soft nodes)) ↔ HasKind is_soft ip nodes)
        (sym (empty-of_kind is_included nodes none)) (Member-of_kind is_soft ip nodes)),
  (
    (λ e.
        let (i, s) = promote_empty (of_kind is_included nodes) (of_kind is_soft nodes) e in
        hard_of_neither nodes (of_kind-empty is_included nodes i) (of_kind-empty is_soft nodes s)),
    λ h.
        let i : of_kind is_included nodes ≡ [] =
          empty-of_kind is_included nodes (none_of_hard is_included nodes hard-included h) in
        let s : of_kind is_soft nodes ≡ [] =
          empty-of_kind is_soft nodes (none_of_hard is_soft nodes hard-soft h) in
        ap (λ l. promote l (of_kind is_soft nodes)) i ∙ s,
  ),
)
