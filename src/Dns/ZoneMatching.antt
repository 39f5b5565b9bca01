-- ===== src/Dns/ZoneMatching.antt =====
-- crates/panel/src/dns/handler.rs: `served_zone` finds the longest zone that a name lies in.
use multi_proxy.Prelude.{
  ℕ, ◌≤◌, ◌≡◌, refl, ◌≢◌, ◌↔◌, ◌⊎◌, inl, inr, true, not, List, [], ◌∷◌, ◌++◌, Option, none, some,
  Text, ends_with_iff, list_beq_iff, nat_eq, list_eq, leb, leb→le, not_leb, All, All-map, Member,
  All-Member, all_members, filter, filter-All, filter-All_keep, filter-All_rev, Bool-cases, arith,
}
use multi_proxy.Contract.Model.{DnsZone}
use multi_proxy.Dns.Zone.{
  apex_of, covers, is_empty, later_max, max_from, max_by_key, served_zone, str_len,
}

-- The name is the zone's apex, which is not empty, or it ends in a dot and the apex.
abbrev pub Covers : Text → DnsZone → Type 0
Covers query_name zone =
    (apex_of zone ≢ [])
    × ((query_name ≡ apex_of zone) ⊎ ((p : Text) × (query_name ≡ p ++ (b'.' ∷ apex_of zone))))

is_empty_iff : (s : Text) → (not (is_empty s) ≡ true) ↔ (s ≢ [])
is_empty_iff [] = ((λ h. cc), λ h. absurd (h refl))
is_empty_iff (c ∷ s) = ((λ _ h. cc), λ _. refl)

covers_iff :
    (query_name : Text) (zone : DnsZone) → (covers query_name zone ≡ true) ↔ Covers query_name zone
unfolding covers
covers_iff query_name zone = ground (
  arith,
  is_empty_iff (apex_of zone),
  list_beq_iff query_name (apex_of zone),
  ends_with_iff query_name (b'.' ∷ apex_of zone),
)

module _ (key : DnsZone → ℕ) where
  -- One of the two, and no smaller than both.
  later_max_lem :
      (best z : DnsZone)
      → ((later_max key best z ≡ best) ⊎ (later_max key best z ≡ z))
        × (key best ≤ key (later_max key best z))
        × (key z ≤ key (later_max key best z))
  later_max_lem best z = elim (Bool-cases (leb (key best) (key z))) [
    | inl e ↦ rw e (inr refl, leb→le (key best) (key z) e, omega arith)
    | inr e ↦ rw e (inl refl, omega arith, omega (arith, not_leb (key best) (key z) e))
  ]

  max_from_lem :
      (best : DnsZone) (zs : List DnsZone)
      → Member (max_from key best zs) (best ∷ zs)
        × (key best ≤ key (max_from key best zs))
        × All (λ z. key z ≤ key (max_from key best zs)) zs
  unfolding max_from
  max_from_lem best [] = (inl refl, omega arith, tt)
  max_from_lem best (z ∷ zs) =
      let (choice, l, r) = later_max_lem best z in
      let (m, k, a) = max_from_lem (later_max key best z) zs in
      (
        elim m [
          | inl e ↦ elim choice [ inl c ↦ inl (cc) | inr c ↦ inr (inl cc) ]
          | inr n ↦ inr (inr n)
        ],
        omega arith,
        (omega arith, a),
      )

abbrev pub Longest : List DnsZone → Text → Option DnsZone → Type 0
Longest zones query_name none = All (λ z. ¬ Covers query_name z) zones
Longest zones query_name (some zone) =
    Member zone zones
    × Covers query_name zone
    × All (λ z. Covers query_name z → str_len (apex_of z) ≤ str_len (apex_of zone)) zones

max_by_key-Longest :
    (zones : List DnsZone) (query_name : Text) (kept : List DnsZone)
    → All (λ z. Member z zones) kept
    → All (λ z. covers query_name z ≡ true) kept
    → ((P : DnsZone → Type 0) → All P kept → All (λ z. Covers query_name z → P z) zones)
    → Longest zones query_name (max_by_key (λ z. str_len (apex_of z)) kept)
unfolding max_by_key
max_by_key-Longest zones query_name [] m c back = back (λ _. ⊥) tt
max_by_key-Longest zones query_name (z ∷ zs) m c back =
    let key = (λ (z : DnsZone). str_len (apex_of z)) in
    let (is, k, a) = max_from_lem key z zs in
    let top = max_from key z zs in
    (
      All-Member (λ z. Member z zones) top (z ∷ zs) m is,
      (covers_iff query_name top).0
          (All-Member (λ z. covers query_name z ≡ true) top (z ∷ zs) c is),
      back (λ z. key z ≤ key top) (k, a),
    )

-- The zone found is one of the zones, the name is its apex or lies below it at a label's boundary, and
-- no other such zone has a longer apex. If none is found, the name lies in no zone.
pub served_zone-Longest :
    (zones : List DnsZone) (query_name : Text)
    → Longest zones query_name (served_zone zones query_name)
unfolding served_zone
served_zone-Longest zones query_name =
    max_by_key-Longest zones query_name (filter (covers query_name) zones)
      (filter-All_keep (covers query_name) (λ z. Member z zones) zones (all_members zones))
      (filter-All (covers query_name) zones)
      λ P a.
        All-map (λ z f c. f ((covers_iff query_name z).1 c)) zones
          (filter-All_rev (covers query_name) P zones a)
