-- ===== src/Dns/Resolving.antt =====
-- crates/panel/src/dns/answer.rs: what an answer, or a failure, of `resolve` says of the line groups.
use multi_proxy.Prelude.{
  ℕ, ◌≡◌, refl, ◌≢◌, ◌⊎◌, inl, inr, true, List, [], ◌∷◌, Option, none, some, Text, arith, All,
  All-map, Member, filter, filter-All_rev, filter-All_keep, list_beq_iff, nat_eq, filter-All_both,
  all_members, All-Member, ◌↔◌, Bool, false, ◌||◌, ◌++◌, ◌==◌, list_eq, Bool-cases, ends_with,
  ends_with_iff, find,
}
use multi_proxy.Contract.Isp.{Isp}
use multi_proxy.Contract.Model.{IpAddr, Region, TimeWindow, LineGroup, DnsZone, window_contains}
use multi_proxy.Contract.Snapshot.{AvailabilitySnapshot, available_for}
use multi_proxy.Dns.Answer.{
  Resolution, answer, serv_fail, ipv4_only, answer_or, in_zone, in_window, zone_id_of, matched_zone,
  time_active, fallback_group_of, resolve_fallback, resolve_group, match_line_group, resolve_traced,
  resolve,
}
use multi_proxy.Dns.Matching.{Matches, Preferred, Best, match_line_group-Best}

-- The name ends with the zone's apex, at a label's boundary or not.
abbrev pub EndsIn : Text → DnsZone → Type 0
EndsIn name z = (p : Text) × (name ≡ p ++ z.apex_domain)

-- The id of the first zone whose apex the name ends with; none if there is none.
abbrev pub FirstEnding : List DnsZone → Text → Option Text → Type 0
FirstEnding [] name id = id ≡ none
FirstEnding (z ∷ zones) name id =
    (EndsIn name z → id ≡ some z.id) × (¬ EndsIn name z → FirstEnding zones name id)

matched_one :
    (z : DnsZone) (name : Text)
    → ((ends_with name z.apex_domain || name == z.apex_domain) ≡ true) ↔ EndsIn name z
matched_one z name =
    let ends = ends_with_iff name z.apex_domain in
    let same = list_beq_iff name z.apex_domain in
    (
      (λ h. elim (Bool-cases (ends_with name z.apex_domain)) [
        | inl e ↦ ends.0 e
        | inr e ↦ ([], same.0 (rw e at h))
      ]),
      (λ h. rw (ends.1 h) refl),
    )

matched_zone-FirstEnding :
    (zones : List DnsZone) (name : Text)
    → FirstEnding zones name (zone_id_of (matched_zone zones name))
unfolding matched_zone find
matched_zone-FirstEnding [] name = refl
matched_zone-FirstEnding (z ∷ zones) name =
    let one = matched_one z name in
    elim (Bool-cases (ends_with name z.apex_domain || name == z.apex_domain)) [
      | inl e ↦ rw e ((λ _. refl), λ n. absurd (n (one.0 e)))
      | inr e ↦ rw e ((λ h. absurd (no_both e (one.1 h))), λ _. matched_zone-FirstEnding zones name)
    ]
  where
    no_both : {b : Bool} → b ≡ false → b ≡ true → ⊥
    no_both p q = cc

-- The group is of no zone, or of the zone of the query.
abbrev pub OfZone : Option Text → LineGroup → Type 0
OfZone zone_id g = (g.zone_id ≡ none) ⊎ ((z : Text) × (g.zone_id ≡ some z) × (zone_id ≡ some z))

-- The group has no window, or one that the minute is in.
abbrev pub ActiveAt : ℕ → LineGroup → Type 0
ActiveAt now_min g =
    (g.active_window ≡ none)
    ⊎ ((w : TimeWindow) × (g.active_window ≡ some w) × (window_contains w now_min ≡ true))

in_zone_of :
    (gz zone_id : Option Text)
    → in_zone gz zone_id ≡ true
    → (gz ≡ none) ⊎ ((z : Text) × (gz ≡ some z) × (zone_id ≡ some z))
in_zone_of none zone_id h = inl refl
in_zone_of (some z) none h = cc
in_zone_of (some z) (some q) h = inr (z, refl, ground (arith, list_beq_iff z q))

in_zone_from :
    (gz zone_id : Option Text)
    → (gz ≡ none) ⊎ ((z : Text) × (gz ≡ some z) × (zone_id ≡ some z))
    → in_zone gz zone_id ≡ true
in_zone_from none zone_id h = refl
in_zone_from (some z) none (inl e) = cc
in_zone_from (some z) none (inr (y, e, f)) = cc
in_zone_from (some z) (some q) (inl e) = cc
in_zone_from (some z) (some q) (inr (y, e, f)) = (list_beq_iff z q).1 cc

in_window_of :
    (o : Option TimeWindow) (now_min : ℕ)
    → in_window o now_min ≡ true
    → (o ≡ none) ⊎ ((w : TimeWindow) × (o ≡ some w) × (window_contains w now_min ≡ true))
in_window_of none now_min h = inl refl
in_window_of (some w) now_min h = inr (w, refl, h)

in_window_from :
    (o : Option TimeWindow) (now_min : ℕ)
    → (o ≡ none) ⊎ ((w : TimeWindow) × (o ≡ some w) × (window_contains w now_min ≡ true))
    → in_window o now_min ≡ true
in_window_from none now_min h = refl
in_window_from (some w) now_min (inl e) = cc
in_window_from (some w) now_min (inr (v, e, f)) = cc

-- The first line group that matches, after both filters, judged among all groups.
module _ (groups : List LineGroup) (zone_id : Option Text) (now_min : ℕ) (region : Region)
    (isp : Isp) where
  -- The group may serve the query.
  abbrev pub Eligible : LineGroup → Type 0
  Eligible g = OfZone zone_id g × ActiveAt now_min g × Matches region isp g

  abbrev pub BestEligible : LineGroup → Type 0
  BestEligible g = Member g groups × Eligible g × All (λ h. Eligible h → Preferred g h) groups

  abbrev pub BestOrNone : Option LineGroup → Type 0
  BestOrNone none = All (λ h. ¬ Eligible h) groups
  BestOrNone (some g) = BestEligible g

  active_all :
      (P : LineGroup → Type 0)
      → All P (time_active groups zone_id now_min)
      → All (λ h. OfZone zone_id h → ActiveAt now_min h → P h) groups
  unfolding time_active
  active_all P a =
      let p = (λ (g : LineGroup). in_zone g.zone_id zone_id) in
      let q = (λ (g : LineGroup). in_window g.active_window now_min) in
      All-map
        (λ h f z w. f (in_zone_from h.zone_id zone_id z) (in_window_from h.active_window now_min w))
        groups
        (filter-All_rev p (λ h. q h ≡ true → P h) groups (filter-All_rev q P (filter p groups) a))

  active_keep : (P : LineGroup → Type 0) → All P groups → All P (time_active groups zone_id now_min)
  unfolding time_active
  active_keep P a =
      let p = (λ (g : LineGroup). in_zone g.zone_id zone_id) in
      filter-All_keep (λ (g : LineGroup). in_window g.active_window now_min) P (filter p groups)
        (filter-All_keep p P groups a)

  active_ok : All (λ h. OfZone zone_id h × ActiveAt now_min h) (time_active groups zone_id now_min)
  unfolding time_active
  active_ok =
      let p = (λ (g : LineGroup). in_zone g.zone_id zone_id) in
      let q = (λ (g : LineGroup). in_window g.active_window now_min) in
      filter-All_both p q
        (λ h z w. (in_zone_of h.zone_id zone_id z, in_window_of h.active_window now_min w)) groups

  Best-eligible :
      (o : Option LineGroup) → Best (time_active groups zone_id now_min) region isp o → BestOrNone o
  Best-eligible none b =
      All-map (λ h f (z, w, k). f z w k) groups (active_all (λ h. ¬ Matches region isp h) b)
  Best-eligible (some g) (m, ok, best) =
      let member =
        All-Member (λ h. Member h groups) g (time_active groups zone_id now_min)
          (active_keep (λ h. Member h groups) (all_members groups)) m in
      let (z, w) =
        All-Member (λ h. OfZone zone_id h × ActiveAt now_min h) g
          (time_active groups zone_id now_min) active_ok m in
      (
        member,
        (z, w, ok),
        All-map (λ h f (z, w, k). f z w k) groups
            (active_all (λ h. Matches region isp h → Preferred g h) best),
      )

module _ (snapshot : AvailabilitySnapshot) where
  -- The addresses that a group can answer with.
  abbrev pub served : Text → List ℕ
  served id = ipv4_only (available_for snapshot id)

  -- How a group, or its fallback when it has nothing to serve, gives the outcome.
  abbrev pub Gives : LineGroup → Resolution → Type 0
  Gives g (answer ips) =
      (ips ≢ [])
      × ((ips ≡ served g.id)
          ⊎ ((served g.id ≡ [])
              × ((fb : Text) × (fallback_group_of snapshot g ≡ some fb) × (ips ≡ served fb))))
  Gives g serv_fail =
      (served g.id ≡ [])
      × ((fallback_group_of snapshot g ≡ none)
          ⊎ ((fb : Text) × (fallback_group_of snapshot g ≡ some fb) × (served fb ≡ [])))

  answer_or-case :
      (P : Resolution → Type 0) (later : Resolution) (ips : List ℕ)
      → (ips ≡ [] → P later)
      → (ips ≢ [] → P (answer ips))
      → P (answer_or later ips)
  answer_or-case P later [] f g = f refl
  answer_or-case P later (ip ∷ ips) f g = g (λ h. cc)

  resolve_fallback-Gives :
      (g : LineGroup) (o : Option Text)
      → fallback_group_of snapshot g ≡ o
      → served g.id ≡ []
      → Gives g (resolve_fallback snapshot o)
  unfolding resolve_fallback
  resolve_fallback-Gives g none e empty = (empty, inl e)
  resolve_fallback-Gives g (some fb) e empty =
      answer_or-case (Gives g) serv_fail (served fb) (λ n. (empty, inr (fb, e, n)))
        (λ n. (n, inr (empty, (fb, e, refl))))

  resolve_group-Gives : (g : LineGroup) → Gives g (resolve_group snapshot (some g))
  unfolding resolve_group
  resolve_group-Gives g =
      answer_or-case (Gives g) (resolve_fallback snapshot (fallback_group_of snapshot g))
        (served g.id) (resolve_fallback-Gives g (fallback_group_of snapshot g) refl)
        (λ n. (n, inl refl))

  module _ (groups : List LineGroup) (zone_id : Option Text) (now_min : ℕ) (region : Region)
      (isp : Isp) where
    -- The outcome is a failure as no group is eligible, or what the best eligible group gives.
    abbrev pub Outcome : Resolution → Type 0
    Outcome r =
        ((r ≡ serv_fail) × All (λ h. ¬ Eligible groups zone_id now_min region isp h) groups)
        ⊎ ((g : LineGroup) × BestEligible groups zone_id now_min region isp g × Gives g r)

    resolve_group-Outcome :
        (o : Option LineGroup)
        → BestOrNone groups zone_id now_min region isp o
        → Outcome (resolve_group snapshot o)
    unfolding resolve_group
    resolve_group-Outcome none b = inl (refl, b)
    resolve_group-Outcome (some g) b = inr (g, b, resolve_group-Gives g)

module _ (lookup : IpAddr → Region × Isp) where
  -- The query's zone is the first whose apex the name ends with, at a label's boundary or not, if there is one.
  -- The outcome of a query is decided by the best of the eligible groups, those of the query's zone or of
  -- none, that have no window or are in it at the minute, and that fit the client's province and carrier:
  -- its IPv4 addresses if it has any, else those of its fallback group, else failure; and it is failure if
  -- no group is eligible.
  pub resolve-Outcome :
      (groups : List LineGroup) (zones : List DnsZone) (snapshot : AvailabilitySnapshot)
      (client_addr : IpAddr) (query_name : Text) (now_min : ℕ)
      → (zone_id : Option Text) × FirstEnding zones query_name zone_id
        × Outcome snapshot groups zone_id now_min
            (lookup client_addr).0
            (lookup client_addr).1
            (resolve lookup groups zones snapshot client_addr query_name now_min)
  unfolding resolve resolve_traced
  resolve-Outcome groups zones snapshot client_addr query_name now_min =
      let zone_id = zone_id_of (matched_zone zones query_name) in
      let region = (lookup client_addr).0 in
      let isp = (lookup client_addr).1 in
      let active = time_active groups zone_id now_min in
      (
        zone_id,
        matched_zone-FirstEnding zones query_name,
        resolve_group-Outcome snapshot groups zone_id now_min region isp
            (match_line_group active region isp)
            (Best-eligible groups zone_id now_min region isp (match_line_group active region isp)
              (match_line_group-Best active region isp)),
      )
