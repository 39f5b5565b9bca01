-- ===== src/Scheduler/Serving.antt =====
-- crates/panel/src/scheduler.rs: which nodes' addresses a built snapshot serves for a line.
use multi_proxy.Prelude.{
  ℕ, ◌≡◌, refl, sym, ap, subst, ◌∙◌, ◌≢◌, ◌↔◌, inl, inr, Bool, true, List, [], ◌∷◌, Option, none,
  some, Text, get, collect, map, All, Any, Any-map, Any-filter_map, filter_map-Any, FromSome,
  Member, Distinct, Finds, collect-Finds, arith,
}
use multi_proxy.Contract.Model.{FrontNode, LineGroup, IpAddr}
use multi_proxy.Contract.Snapshot.{
  ExclusionClass, LineAvailability, available_for, available_of, fallback_for, fallback_of,
  is_included, is_soft,
}
use multi_proxy.Contract.Snapshot.Selection.{HasKind, SomeKind, select_available_tiers}
use multi_proxy.Scheduler.Health.{NodeRuntime, classify_node}
use multi_proxy.Scheduler.Build.{
  Inputs, address, classify_known, classified_at, runtime_or_default, classify_member,
  classify_members, build_line, build_snapshot,
}

iff_trans : {A B C : Type 0} → A ↔ B → B ↔ C → A ↔ C
iff_trans p q = ((λ a. q.0 (p.0 a)), λ c. p.1 (q.1 c))

module _ (parse_ip : Text → Option IpAddr) (x : Inputs) where
  -- A node is known under the id, has the address, and its class is of the kind.
  abbrev pub AtKind : (ExclusionClass → Bool) → IpAddr → Text → Type 0
  AtKind kind ip node_id =
      (node : FrontNode) × (get node_id x.nodes ≡ some node)
      × (address parse_ip node (runtime_or_default (get node_id x.runtimes)) ≡ some ip)
      × (kind (
            classify_node node (runtime_or_default (get node_id x.runtimes)) x.now_ms
              x.heartbeat_interval)
          ≡ true)

  abbrev pub SomeAtKind : (ExclusionClass → Bool) → Text → Type 0
  SomeAtKind kind node_id = (ip : IpAddr) × AtKind kind ip node_id

  abbrev pair_of : LineGroup → Text × LineAvailability
  pair_of g = (g.id, build_line parse_ip x g)

  All-pairs :
      (k : Text) (groups : List LineGroup)
      → All (λ (g : LineGroup). g.id ≢ k) groups
      → All (λ (p : Text × LineAvailability). p.0 ≢ k) (map pair_of groups)
  All-pairs k [] d = tt
  All-pairs k (g ∷ groups) d = (d.0, All-pairs k groups d.1)

  pairs-Distinct :
      (groups : List LineGroup)
      → Distinct (λ (g : LineGroup). g.id) groups
      → Distinct (λ (p : Text × LineAvailability). p.0) (map pair_of groups)
  pairs-Distinct [] d = tt
  pairs-Distinct (g ∷ groups) d = (All-pairs g.id groups d.0, pairs-Distinct groups d.1)

  get-pairs :
      (m : List (Text × LineAvailability)) (groups : List LineGroup) (g : LineGroup)
      → Finds m (map pair_of groups)
      → Member g groups
      → get g.id m ≡ some (build_line parse_ip x g)
  get-pairs m [] g f h = elim h [ ]
  get-pairs m (y ∷ groups) g f (inl e) =
      subst (λ z. get z.id m ≡ some (build_line parse_ip x z)) e f.0
  get-pairs m (y ∷ groups) g f (inr h) = get-pairs m groups g f.1 h

  built_line :
      (groups : List LineGroup) (g : LineGroup) (generation : ℕ)
      → Distinct (λ (h : LineGroup). h.id) groups
      → Member g groups
      → get g.id (build_snapshot parse_ip x groups generation).lines
        ≡ some (build_line parse_ip x g)
  unfolding build_snapshot
  built_line groups g generation d m =
      get-pairs (collect (map pair_of groups)) groups g
        (collect-Finds (map pair_of groups) (pairs-Distinct groups d)) m

  classified_at_eq :
      (c : ExclusionClass) (o : Option IpAddr) (y : IpAddr × ExclusionClass)
      → classified_at parse_ip c o ≡ some y
      → (o ≡ some y.0) × (c ≡ y.1)
  classified_at_eq c none y e = cc
  classified_at_eq c (some ip) y e = ground arith

  known_eq :
      (o : Option FrontNode) (rt : NodeRuntime) (y : IpAddr × ExclusionClass)
      → classify_known parse_ip o rt x ≡ some y
      → (node : FrontNode) × (o ≡ some node)
        × (address parse_ip node rt ≡ some y.0)
        × (classify_node node rt x.now_ms x.heartbeat_interval ≡ y.1)
  known_eq none rt y e = cc
  known_eq (some node) rt y e =
      let (a, c) =
        classified_at_eq (classify_node node rt x.now_ms x.heartbeat_interval)
          (address parse_ip node rt) y e in
      (node, refl, a, c)

  pub AtKind-of_class :
      (kind : ExclusionClass → Bool) (ip : IpAddr) (node_id : Text)
      → FromSome (classify_member parse_ip x) (λ n. (n.0 ≡ ip) × (kind n.1 ≡ true)) node_id
      → AtKind kind ip node_id
  unfolding classify_member
  AtKind-of_class kind ip node_id (y, e, qk) =
      let (node, known, a, c) =
        known_eq (get node_id x.nodes) (runtime_or_default (get node_id x.runtimes)) y e in
      (node, known, a ∙ ap (λ i. some i) qk.0, ap kind c ∙ qk.1)

  class_of_AtKind :
      (kind : ExclusionClass → Bool) (ip : IpAddr) (node_id : Text)
      → AtKind kind ip node_id
      → FromSome (classify_member parse_ip x) (λ n. (n.0 ≡ ip) × (kind n.1 ≡ true)) node_id
  unfolding classify_member
  class_of_AtKind kind ip node_id (node, known, a, k) =
      let rt = runtime_or_default (get node_id x.runtimes) in
      let class = classify_node node rt x.now_ms x.heartbeat_interval in
      (
        (ip, class),
        ap (λ o. classify_known parse_ip o rt x) known ∙ ap (classified_at parse_ip class) a,
        (refl, k),
      )

  HasKind-members :
      (kind : ExclusionClass → Bool) (ip : IpAddr) (g : LineGroup)
      → HasKind kind ip (classify_members parse_ip x g) ↔ Any (AtKind kind ip) g.member_node_ids
  unfolding classify_members
  HasKind-members kind ip g =
      let f = classify_member parse_ip x in
      let Q : (IpAddr × ExclusionClass) → Type 0 = λ n. (n.0 ≡ ip) × (kind n.1 ≡ true) in
      (
        (λ m.
            Any-map (FromSome f Q) (AtKind kind ip) (AtKind-of_class kind ip) g.member_node_ids
              (Any-filter_map f Q g.member_node_ids m)),
        λ m.
            filter_map-Any f Q g.member_node_ids (
              Any-map (AtKind kind ip) (FromSome f Q) (class_of_AtKind kind ip) g.member_node_ids
                m),
      )

  SomeKind-members :
      (kind : ExclusionClass → Bool) (g : LineGroup)
      → SomeKind kind (classify_members parse_ip x g) ↔ Any (SomeAtKind kind) g.member_node_ids
  unfolding classify_members
  SomeKind-members kind g =
      let f = classify_member parse_ip x in
      let Q : (IpAddr × ExclusionClass) → Type 0 = λ n. kind n.1 ≡ true in
      (
        (λ m.
            Any-map (FromSome f Q) (SomeAtKind kind)
              (λ id (y, e, k). (y.0, AtKind-of_class kind y.0 id (y, e, (refl, k))))
              g.member_node_ids (Any-filter_map f Q g.member_node_ids m)),
        λ m. filter_map-Any f Q g.member_node_ids (
            Any-map (SomeAtKind kind) (FromSome f Q)
              (λ id (ip, at). let (y, e, qk) = class_of_AtKind kind ip id at in (y, e, qk.1))
              g.member_node_ids m),
      )

  -- For line groups with distinct ids, the snapshot serves for a group: if some member node is included,
  -- exactly the addresses of the included member nodes; if none is, exactly those of the softly excluded
  -- ones, never a hard excluded or unknown one; and it carries the group's fallback.
  pub build_snapshot_serves :
      (groups : List LineGroup) (g : LineGroup) (generation : ℕ)
      → Distinct (λ (h : LineGroup). h.id) groups
      → Member g groups
      → let s = build_snapshot parse_ip x groups generation in
        (Any (SomeAtKind is_included) g.member_node_ids
          → (ip : IpAddr)
          → Member ip (available_for s g.id) ↔ Any (AtKind is_included ip) g.member_node_ids)
        × (¬ Any (SomeAtKind is_included) g.member_node_ids
            → (ip : IpAddr)
            → Member ip (available_for s g.id) ↔ Any (AtKind is_soft ip) g.member_node_ids)
        × (fallback_for s g.id ≡ g.fallback_group)
  unfolding available_for fallback_for build_line
  build_snapshot_serves groups g generation d m =
      let line = built_line groups g generation d m in
      let members = classify_members parse_ip x g in
      let tiers = select_available_tiers members in
      (
        (λ some ip.
            subst (λ o. Member ip (available_of o) ↔ Any (AtKind is_included ip) g.member_node_ids)
              (sym line)
              (iff_trans (tiers.0 ((SomeKind-members is_included g).1 some) ip)
                (HasKind-members is_included ip g))),
        (λ none ip.
            subst (λ o. Member ip (available_of o) ↔ Any (AtKind is_soft ip) g.member_node_ids)
              (sym line)
              (iff_trans (tiers.1 (λ k. none ((SomeKind-members is_included g).0 k)) ip)
                (HasKind-members is_soft ip g))),
        ap fallback_of line,
      )
