-- ===== src/Integrity/Keeping.antt =====
-- crates/panel/src/dns_integrity.rs: what the check of the local zones leaves as it is.
use multi_proxy.Prelude.{
  ◌≡◌, ◌≢◌, refl, sym, ap, ◌∙◌, subst, inl, inr, Bool, true, false, List, [], ◌∷◌, ◌++◌, Option,
  none, some, Text, map, Bool-cases, Member, Member-append, Member-append_left, Member-append_right,
  ◌==◌, nat_eq, list_eq,
}
use multi_proxy.Prelude.Results.{Result, ok, err, Action, and_then, pure, ◌>>=◌}
use multi_proxy.Contract.Model.{DnsZone}
use multi_proxy.Cloudflare.Records.{normalize_dns_name}
use multi_proxy.Integrity.Report.{CheckItem}
use multi_proxy.Integrity.Desired.{DesiredState}
use multi_proxy.Integrity.Local.{
  Store, Split, behind, split_zones, Checked, rebuilt, filled, publish, check_absent, check_ns,
  check_found, check_children, inspect_local_zones,
}

-- The zones that have name servers are still there, as they were; and without repair all zones are the same.
abbrev pub Keeps : Bool → List DnsZone → List DnsZone → Type 0
Keeps repair zones zones' =
    ((z : DnsZone) → Member z zones → z.ns ≢ [] → Member z zones')
    × (repair ≡ false → zones' ≡ zones)

Keeps-refl : (repair : Bool) (zones : List DnsZone) → Keeps repair zones zones
Keeps-refl repair zones = ((λ z m n. m), λ e. refl)

Keeps-trans :
    (repair : Bool) (a b c : List DnsZone) → Keeps repair a b → Keeps repair b c → Keeps repair a c
Keeps-trans repair a b c h k = ((λ z m n. k.0 z (h.0 z m n) n), λ e. k.1 e ∙ h.1 e)

-- The parts of a split, put together, are the zones.
abbrev whole : Split → List DnsZone
whole s = s.before ++ (s.zone ∷ s.after)

some_inj : {A : Type 0} (a b : A) → some a ≡ some b → a ≡ b
some_inj a b e = cc

behind-whole :
    (z : DnsZone) (zones : List DnsZone) (o : Option Split) (s : Split)
    → ((s' : Split) → o ≡ some s' → whole s' ≡ zones)
    → behind z o ≡ some s
    → whole s ≡ z ∷ zones
behind-whole z zones none s h e = cc
behind-whole z zones (some s') s h e =
    ap whole (sym (some_inj (record s' { before = z ∷ s'.before }) s e)) ∙ ap (◌∷◌ z) (h s' refl)

split_whole :
    (child : Text) (zones : List DnsZone) (s : Split)
    → split_zones child zones ≡ some s
    → whole s ≡ zones
unfolding split_zones
split_whole child [] s e = cc
split_whole child (z ∷ zones) s e = elim (Bool-cases (normalize_dns_name z.apex_domain == child)) [
  | inl q ↦
      let first : Split = record { before = []; zone = z; after = zones } in
      let e' : some first ≡ some s = rw q at e in ap whole (sym (some_inj first s e'))
  | inr q ↦ behind-whole z zones (split_zones child zones) s (split_whole child zones) (rw q at e)
]

-- Putting another zone in the place of one without name servers.
refilled-Keeps :
    (before after : List DnsZone) (old new : DnsZone)
    → old.ns ≡ []
    → Keeps true (before ++ (old ∷ after)) (before ++ (new ∷ after))
refilled-Keeps before after old new e = (kept, λ q. cc)
  where
    kept :
        (z : DnsZone)
        → Member z (before ++ (old ∷ after))
        → z.ns ≢ []
        → Member z (before ++ (new ∷ after))
    kept z m n = elim (Member-append z before (old ∷ after) m) [
      | inl l ↦ Member-append_left z before (new ∷ after) l
      | inr (inl q) ↦ absurd (n (subst (λ (x : DnsZone). x.ns ≡ []) q e))
      | inr (inr r) ↦ Member-append_right z before (new ∷ after) (inr r)
    ]

map_nil : (xs : List Text) → map normalize_dns_name xs ≡ [] → xs ≡ []
map_nil [] e = refl
map_nil (x ∷ xs) e = cc

module _ (World E : Type 0) (store : Store World E) (debug : List Text → Text) where
  -- What holds of the zones that a step gives, unless it fails.
  abbrev pub OrFails :
      (List DnsZone → Type 0) → Result E (List DnsZone × List CheckItem) × World → Type 0
  OrFails Q (ok c, w) = Q c.0
  OrFails Q (err e, w) = Unit

  pure_after :
      (Q : List DnsZone → Type 0) (x : Result E Unit × World) (zones : List DnsZone)
      (out : List CheckItem)
      → Q zones
      → OrFails Q (and_then x (λ _. pure (zones, out)))
  pure_after Q (ok u, w) zones out h = h
  pure_after Q (err e, w) zones out h = tt

  absent-Keeps :
      (configured repair : Bool) (child ns : Text) (c : Checked World E store debug) (w : World)
      → OrFails (Keeps repair c.0) (check_absent World E store debug configured repair child ns c w)
  absent-Keeps false repair child ns c w = Keeps-refl repair c.0
  absent-Keeps true false child ns (zones, out) w = Keeps-refl false zones
  absent-Keeps true true child ns (zones, out) w =
      let new = rebuilt World E store debug (store.new_id w) child ns in
      pure_after (Keeps true zones) (store.upsert_zone new w) (zones ++ (new ∷ [])) _
        ((λ z m n. Member-append_left z zones (new ∷ []) m), λ q. cc)

  ns-Keeps :
      (repair : Bool) (child ns : Text) (s : Split) (out : List CheckItem) (names : List Text)
      (w : World)
      → (names ≡ [] → s.zone.ns ≡ [])
      → OrFails
          (Keeps repair (whole s))
          (check_ns World E store debug repair child ns s out names w)
  ns-Keeps true child ns s out [] w h =
      let new = filled World E store debug s.zone ns in
      pure_after (Keeps true (whole s)) (store.upsert_zone new w) (s.before ++ (new ∷ s.after)) _
        (refilled-Keeps s.before s.after s.zone new (h refl))
  ns-Keeps false child ns s out [] w h = Keeps-refl false (whole s)
  ns-Keeps true child ns s out (n ∷ []) w h = Keeps-refl true (whole s)
  ns-Keeps false child ns s out (n ∷ []) w h = Keeps-refl false (whole s)
  ns-Keeps true child ns s out (n ∷ m ∷ names) w h = Keeps-refl true (whole s)
  ns-Keeps false child ns s out (n ∷ m ∷ names) w h = Keeps-refl false (whole s)

  found-Keeps :
      (d : DesiredState) (repair : Bool) (child : Text) (c : Checked World E store debug)
      (o : Option Split) (w : World)
      → split_zones child c.0 ≡ o
      → OrFails (Keeps repair c.0) (check_found World E store debug d repair child c o w)
  found-Keeps d repair child c none w e =
      absent-Keeps (child == d.configured_child) repair child d.ns_host c w
  found-Keeps d repair child c (some s) w e =
      subst
        (λ zs.
          OrFails (Keeps repair zs) (check_found World E store debug d repair child c (some s) w))
        (split_whole child c.0 s e)
        (ns-Keeps repair child d.ns_host s c.1 (map normalize_dns_name s.zone.ns) w
          (map_nil s.zone.ns))

  OrFails-trans :
      (repair : Bool) (a b : List DnsZone) (x : Result E (List DnsZone × List CheckItem) × World)
      → Keeps repair a b
      → OrFails (Keeps repair b) x
      → OrFails (Keeps repair a) x
  OrFails-trans repair a b (ok c, w) h k = Keeps-trans repair a b c.0 h k
  OrFails-trans repair a b (err e, w) h k = tt

  and_then-Keeps :
      (repair : Bool) (a : List DnsZone) (x : Result E (List DnsZone × List CheckItem) × World)
      (f : List DnsZone × List CheckItem → Action World E (List DnsZone × List CheckItem))
      → OrFails (Keeps repair a) x
      → ((c : List DnsZone × List CheckItem) (w : World) → OrFails (Keeps repair c.0) (f c w))
      → OrFails (Keeps repair a) (and_then x f)
  and_then-Keeps repair a (ok c, w) f h k = OrFails-trans repair a c.0 (f c w) h (k c w)
  and_then-Keeps repair a (err e, w) f h k = tt

  children-Keeps :
      (d : DesiredState) (repair : Bool) (children : List Text) (c : Checked World E store debug)
      (w : World)
      → OrFails (Keeps repair c.0) (check_children World E store debug d repair children c w)
  unfolding check_children
  children-Keeps d repair [] c w = Keeps-refl repair c.0
  children-Keeps d repair (child ∷ children) c w =
      and_then-Keeps repair c.0
        (check_found World E store debug d repair child c (split_zones child c.0) w)
        (check_children World E store debug d repair children)
        (found-Keeps d repair child c (split_zones child c.0) w refl)
        (children-Keeps d repair children)

  abbrev success : List DnsZone → Result E (List DnsZone)
  success zones = ok zones

  ok_inj : (a b : List DnsZone) → success a ≡ success b → a ≡ b
  ok_inj a b e = cc

  -- The swap of the shared zones is what later reads of them see.
  abbrev pub Swaps : Type 0
  Swaps =
      (zones : List DnsZone) (w : World) → store.loaded_zones (store.publish_zones zones w) ≡ zones

  -- What holds of the zones that are served after a step, and are its result, unless it fails.
  abbrev pub Publishes :
      (List DnsZone → Type 0) → Result E (List DnsZone × List CheckItem) × World → Type 0
  Publishes Q (ok c, w) = Q (store.loaded_zones w) × (c.0 ≡ store.loaded_zones w)
  Publishes Q (err e, w) = Unit

  publish-Publishes :
      (Q : List DnsZone → Type 0) (x : Result E (List DnsZone × List CheckItem) × World)
      → Swaps
      → OrFails Q x
      → Publishes Q (and_then x (publish World E store debug))
  publish-Publishes Q (ok c, w) swaps q = (subst Q (sym (swaps c.0 w)) q, sym (swaps c.0 w))
  publish-Publishes Q (err e, w) swaps q = tt

  publish_after :
      (repair : Bool) (d : DesiredState) (out : List CheckItem) (zones : List DnsZone)
      (x : Result E (List DnsZone) × World)
      → Swaps
      → x.0 ≡ ok zones
      → Publishes (Keeps repair zones) (
          and_then x (λ listed.
            check_children World E store debug d repair d.managed_children (listed, out)
            >>= publish World E store debug))
  publish_after repair d out zones (err e, w) swaps q = tt
  publish_after repair d out zones (ok listed, w) swaps q =
      publish-Publishes (Keeps repair zones)
        (check_children World E store debug d repair d.managed_children (listed, out) w) swaps
        (subst
          (λ zs.
            OrFails (Keeps repair zs)
              (check_children World E store debug d repair d.managed_children (listed, out) w))
          (ok_inj listed zones q) (children-Keeps d repair d.managed_children (listed, out) w))

  -- If the swap of the shared zones is what later reads see, and the database lists its zones, then unless
  -- a write fails, the zones served after the check, which it also returns, hold every listed zone that has
  -- name servers, as it was; and without repair they are exactly the listed zones.
  pub inspect_local_zones-Keeps :
      (d : DesiredState) (repair : Bool) (out : List CheckItem) (w : World) (zones : List DnsZone)
      → Swaps
      → (store.list_zones w).0 ≡ ok zones
      → Publishes
          (Keeps repair zones)
          (inspect_local_zones World E store debug (some d) repair out w)
  unfolding inspect_local_zones
  inspect_local_zones-Keeps d repair out w zones swaps e =
      publish_after repair d out zones (store.list_zones w) swaps e
