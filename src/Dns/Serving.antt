-- ===== src/Dns/Serving.antt =====
-- crates/panel/src/dns/answer.rs on a snapshot that crates/panel/src/scheduler.rs has built: the nodes
-- that an answer can name.
use multi_proxy.Prelude.{
  ℕ, ◌≡◌, refl, sym, ap, subst, ◌∙◌, inl, inr, Bool, true, false, List, [], ◌∷◌, Option, none, some,
  Text, get, erase, insert, insert_all, collect, map, filter, filter_map, arith, All, All-map, Any,
  Any-map, Member, all_members, filter-All, filter-All_keep, ◌==◌, nat_eq, list_eq, Bool-cases,
  All-both, Any-filter_map, FromSome,
}
use multi_proxy.Contract.Isp.{Isp}
use multi_proxy.Contract.Model.{IpAddr, v4, v6, Region, LineGroup, DnsZone}
use multi_proxy.Contract.Snapshot.{
  ExclusionClass, included, soft_quota, saturated, hard_quota, unhealthy, LineAvailability,
  available_for, available_of, select_available, promote, is_included, is_soft,
}
use multi_proxy.Scheduler.Build.{
  Inputs, build_snapshot, build_line, classify_members, classify_member,
}
use multi_proxy.Scheduler.Serving.{AtKind, AtKind-of_class}
use multi_proxy.Dns.Answer.{answer, ipv4, ipv4_only, resolve}
use multi_proxy.Dns.Resolving.{resolve-Outcome, Gives}

abbrev pub not_hard : ExclusionClass → Bool
not_hard included = true
not_hard soft_quota = true
not_hard saturated = true
not_hard hard_quota = false
not_hard unhealthy = false

module _ {V : Type 0} (P : V → Type 0) where
  erase-All : (k : Text) (m : List (Text × V)) → All (λ p. P p.1) m → All (λ p. P p.1) (erase k m)
  unfolding erase
  erase-All k [] a = tt
  erase-All k ((j, v) ∷ m) a = elim (Bool-cases (j == k)) [
    | inl e ↦ rw e (erase-All k m a.1)
    | inr e ↦ rw e (a.0, erase-All k m a.1)
  ]

  insert_all-All :
      (es m : List (Text × V))
      → All (λ p. P p.1) es
      → All (λ p. P p.1) m
      → All (λ p. P p.1) (insert_all es m)
  unfolding insert_all insert
  insert_all-All [] m a b = b
  insert_all-All ((k, v) ∷ es) m a b = insert_all-All es (insert k v m) a.1 (a.0, erase-All k m b)

  collect-All : (es : List (Text × V)) → All (λ p. P p.1) es → All (λ p. P p.1) (collect es)
  unfolding collect
  collect-All es a = insert_all-All es [] a tt

  get-All : (k : Text) (v : V) (m : List (Text × V)) → All (λ p. P p.1) m → get k m ≡ some v → P v
  unfolding get
  get-All k v [] a e = cc
  get-All k v ((j, w) ∷ m) a e = elim (Bool-cases (j == k)) [
    | inl b ↦ subst P (ground (arith, rw b at e)) a.0
    | inr b ↦ get-All k v m a.1 (rw b at e)
  ]

module _ (Q : IpAddr → Type 0) where
  ips-All :
      (nodes : List (IpAddr × ExclusionClass))
      → All (λ (n : IpAddr × ExclusionClass). Q n.0) nodes
      → All Q (map (λ (n : IpAddr × ExclusionClass). n.0) nodes)
  ips-All [] a = tt
  ips-All (n ∷ nodes) a = (a.0, ips-All nodes a.1)

  promote-All :
      (tier1 tier2 : List IpAddr) → All Q tier1 → All Q tier2 → All Q (promote tier1 tier2)
  promote-All [] tier2 a b = b
  promote-All (ip ∷ tier1) tier2 a b = a

  kept-All :
      (kind : ExclusionClass → Bool) (nodes : List (IpAddr × ExclusionClass))
      → ((c : ExclusionClass) → kind c ≡ true → not_hard c ≡ true)
      → All (λ (n : IpAddr × ExclusionClass). not_hard n.1 ≡ true → Q n.0) nodes
      → All Q (
          map
            (λ (n : IpAddr × ExclusionClass). n.0)
            (filter (λ (n : IpAddr × ExclusionClass). kind n.1) nodes))
  kept-All kind nodes soft a =
      let kept = filter (λ (n : IpAddr × ExclusionClass). kind n.1) nodes in
      ips-All kept (
        All-map (λ n b. b.0 (soft n.1 b.1)) kept
          (All-both (λ n. not_hard n.1 ≡ true → Q n.0) (λ n. kind n.1 ≡ true) kept
            (filter-All_keep (λ n. kind n.1) (λ n. not_hard n.1 ≡ true → Q n.0) nodes a)
            (filter-All (λ n. kind n.1) nodes)))

  included-not_hard : (c : ExclusionClass) → is_included c ≡ true → not_hard c ≡ true
  unfolding is_included
  included-not_hard c h = ground arith

  soft-not_hard : (c : ExclusionClass) → is_soft c ≡ true → not_hard c ≡ true
  unfolding is_soft
  soft-not_hard c h = ground arith

  select_available-All :
      (nodes : List (IpAddr × ExclusionClass))
      → All (λ (n : IpAddr × ExclusionClass). not_hard n.1 ≡ true → Q n.0) nodes
      → All Q (select_available nodes)
  unfolding select_available
  select_available-All nodes a =
      promote-All (map (λ n. n.0) (filter (λ n. is_included n.1) nodes))
        (map (λ n. n.0) (filter (λ n. is_soft n.1) nodes))
        (kept-All is_included nodes included-not_hard a) (kept-All is_soft nodes soft-not_hard a)

module _ (parse_ip : Text → Option IpAddr) (x : Inputs) where
  -- The address is that of a known member node of the group, which is not hard excluded.
  abbrev pub ServesNode : IpAddr → LineGroup → Type 0
  ServesNode ip g = Any (AtKind parse_ip x not_hard ip) g.member_node_ids

  abbrev pub ServesSome : List LineGroup → IpAddr → Type 0
  ServesSome groups ip = Any (ServesNode ip) groups

  members-serve :
      (g : LineGroup)
      → All
          (λ (n : IpAddr × ExclusionClass). not_hard n.1 ≡ true → ServesNode n.0 g)
          (classify_members parse_ip x g)
  unfolding classify_members
  members-serve g =
      let f = classify_member parse_ip x in
      All-map
        (λ n m h.
          Any-map (FromSome f (λ k. k ≡ n)) (AtKind parse_ip x not_hard n.0)
            (λ id (y, e, q).
              AtKind-of_class parse_ip x not_hard n.0 id
                (y, e, (ap (λ k. k.0) q, ap (λ k. not_hard k.1) q ∙ h)))
            g.member_node_ids (Any-filter_map f (λ k. k ≡ n) g.member_node_ids m))
        (filter_map f g.member_node_ids) (all_members (filter_map f g.member_node_ids))

  line-serves : (g : LineGroup) → All (λ ip. ServesNode ip g) (build_line parse_ip x g).available
  unfolding build_line
  line-serves g =
      select_available-All (λ ip. ServesNode ip g) (classify_members parse_ip x g) (members-serve g)

  pairs-All :
      (P : LineAvailability → Type 0) (groups : List LineGroup)
      → All (λ g. P (build_line parse_ip x g)) groups
      → All
          (λ (p : Text × LineAvailability). P p.1)
          (map (λ (g : LineGroup). (g.id, build_line parse_ip x g)) groups)
  pairs-All P [] a = tt
  pairs-All P (g ∷ groups) a = (a.0, pairs-All P groups a.1)

  Any-Member :
      (P : LineGroup → Type 0) (g : LineGroup) (groups : List LineGroup)
      → Member g groups
      → P g
      → Any P groups
  Any-Member P g groups m p = Any-map (λ h. h ≡ g) P (λ h e. subst P (sym e) p) groups m

  available_of-serves :
      (groups : List LineGroup) (o : Option LineAvailability) (k : Text)
      (m : List (Text × LineAvailability))
      → All (λ (p : Text × LineAvailability). All (ServesSome groups) p.1.available) m
      → get k m ≡ o
      → All (ServesSome groups) (available_of o)
  available_of-serves groups none k m a e = tt
  available_of-serves groups (some line) k m a e =
      get-All (λ (l : LineAvailability). All (ServesSome groups) l.available) k line m a e

  available_for-serves :
      (groups : List LineGroup) (generation : ℕ) (k : Text)
      → All (ServesSome groups) (available_for (build_snapshot parse_ip x groups generation) k)
  unfolding available_for build_snapshot
  available_for-serves groups generation k =
      let pairs = map (λ (g : LineGroup). (g.id, build_line parse_ip x g)) groups in
      let P = (λ (l : LineAvailability). All (ServesSome groups) l.available) in
      available_of-serves groups (get k (collect pairs)) k (collect pairs)
        (collect-All P pairs (
          pairs-All P groups (
            All-map
              (λ g m.
                All-map (λ ip s. Any-Member (ServesNode ip) g groups m s)
                  (build_line parse_ip x g).available (line-serves g))
              groups (all_members groups))))
        refl

  ipv4_only-All :
      (Q : IpAddr → Type 0) (ips : List IpAddr) → All Q ips → All (λ a. Q (v4 a)) (ipv4_only ips)
  unfolding ipv4_only filter_map ipv4
  ipv4_only-All Q [] a = tt
  ipv4_only-All Q (v4 n ∷ ips) a = (a.0, ipv4_only-All Q ips a.1)
  ipv4_only-All Q (v6 n ∷ ips) a = ipv4_only-All Q ips a.1

  -- Whatever the query, each address of an answer that is made from a built snapshot is the address of a
  -- known member node of one of the groups, and that node is neither unhealthy nor over its hard quota.
  pub resolve-serves :
      (lookup : IpAddr → Region × Isp) (groups : List LineGroup) (zones : List DnsZone)
      (generation : ℕ) (client_addr : IpAddr) (query_name : Text) (now_min : ℕ) (ips : List ℕ)
      → resolve lookup groups zones
          (build_snapshot parse_ip x groups generation)
          client_addr
          query_name
          now_min
        ≡ answer ips
      → All (λ a. ServesSome groups (v4 a)) ips
  resolve-serves lookup groups zones generation client_addr query_name now_min ips e =
      let s = build_snapshot parse_ip x groups generation in
      let all_served = λ (k : Text).
        ipv4_only-All (ServesSome groups) (available_for s k)
          (available_for-serves groups generation k) in
      let T = λ (l : List ℕ). All (λ a. ServesSome groups (v4 a)) l in
      elim (resolve-Outcome lookup groups zones s client_addr query_name now_min).2 [
        | inl (f, n) ↦ cc
        | inr (g, b, gives) ↦ elim (subst (Gives s g) e gives).1 [
          | inl q ↦ subst T (sym q) (all_served g.id)
          | inr (n, (fb, o, q)) ↦ subst T (sym q) (all_served fb)
        ]
      ]
