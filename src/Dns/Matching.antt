-- ===== src/Dns/Matching.antt =====
-- crates/panel/src/dns/answer.rs: `match_line_group` finds the best of the matching groups.
use multi_proxy.Prelude.{
  ℕ, ◌<◌, ◌≡◌, refl, ◌↔◌, ◌⊎◌, inl, true, false, List, [], ◌∷◌, Option, none, some, text_leb,
  text_leb-total, text_leb_trans, arith, All, All-map, Member, all_members, filter, filter-All,
  filter-All_rev, filter-All_keep,
}
use multi_proxy.Prelude.Int.{ℤ, leb_ℤ}
use multi_proxy.Prelude.Sort.{sort_by, sort_by-All, All-sort_by, IsSortedBy, sort_by-IsSortedBy}
use multi_proxy.Contract.Isp.{Isp, isp_beq_iff}
use multi_proxy.Contract.Model.{Region, LineGroup}
use multi_proxy.Dns.Answer.{
  first, region_ok, isp_ok, matches, not_after, specificity, match_line_group,
}

-- The group asks for no province or for the client's, and for no carrier or for the client's.
abbrev pub Matches : Region → Isp → LineGroup → Type 0
Matches region isp g =
    ((g.match_region ≡ none) ⊎ (g.match_region ≡ some region.province_code))
    × ((g.match_isp ≡ none) ⊎ (g.match_isp ≡ some isp))

-- `a` is to be preferred to `b`, or as good: it is more specific; or equally specific and of a
-- smaller priority number; or also of the same number and its id is not the later one.
abbrev pub Preferred : LineGroup → LineGroup → Type 0
Preferred a b =
    (specificity b < specificity a)
    ⊎ ((specificity a ≡ specificity b)
        × ((leb_ℤ b.priority a.priority ≡ false)
            ⊎ ((leb_ℤ a.priority b.priority ≡ true) × (text_leb a.id b.id ≡ true))))

leb_ℤ-total : (a b : ℤ) → leb_ℤ a b ≡ false → leb_ℤ b a ≡ true
leb_ℤ-total a b h = ground arith

leb_ℤ_trans : (a b c : ℤ) → leb_ℤ a b ≡ true → leb_ℤ b c ≡ true → leb_ℤ a c ≡ true
leb_ℤ_trans a b c h k = ground arith

not_after-total : (a b : LineGroup) → not_after a b ≡ false → not_after b a ≡ true
unfolding not_after
not_after-total a b h = ground (arith, text_leb-total a.id b.id)

not_after_trans :
    (a b c : LineGroup) → not_after a b ≡ true → not_after b c ≡ true → not_after a c ≡ true
unfolding not_after
not_after_trans a b c h k = ground (arith, text_leb_trans a.id b.id c.id)

not_after_refl : (a : LineGroup) → not_after a a ≡ true
unfolding not_after
not_after_refl a = ground (arith, text_leb-total a.id a.id)

not_after-Preferred : (a b : LineGroup) → not_after a b ≡ true → Preferred a b
unfolding not_after
not_after-Preferred a b h = ground arith

region_ok_iff :
    (o : Option ℕ) (region : Region)
    → (region_ok o region ≡ true) ↔ ((o ≡ none) ⊎ (o ≡ some region.province_code))
region_ok_iff none region = ((λ _. inl refl), λ _. refl)
region_ok_iff (some p) region = ground arith

isp_ok_iff : (o : Option Isp) (isp : Isp) → (isp_ok o isp ≡ true) ↔ ((o ≡ none) ⊎ (o ≡ some isp))
isp_ok_iff none isp = ((λ _. inl refl), λ _. refl)
isp_ok_iff (some i) isp = ground (arith, isp_beq_iff i isp)

pub matches_iff :
    (region : Region) (isp : Isp) (g : LineGroup)
    → (matches region isp g ≡ true) ↔ Matches region isp g
unfolding matches
matches_iff region isp g =
    ground (arith, region_ok_iff g.match_region region, isp_ok_iff g.match_isp isp)

-- What the first of a list sorted by `not_after` is.
abbrev pub Best : List LineGroup → Region → Isp → Option LineGroup → Type 0
Best groups region isp none = All (λ h. ¬ Matches region isp h) groups
Best groups region isp (some g) =
    Member g groups × Matches region isp g × All (λ h. Matches region isp h → Preferred g h) groups

first-Best :
    (groups : List LineGroup) (region : Region) (isp : Isp) (sorted : List LineGroup)
    → IsSortedBy not_after sorted
    → All (λ h. Member h groups) sorted
    → All (λ h. matches region isp h ≡ true) sorted
    → ((P : LineGroup → Type 0) → All P sorted → All (λ h. Matches region isp h → P h) groups)
    → Best groups region isp (first sorted)
first-Best groups region isp [] s m t back = back (λ _. ⊥) tt
first-Best groups region isp (g ∷ rest) s m t back = (
  m.0,
  (matches_iff region isp g).0 t.0,
  back (Preferred g) (
    not_after-Preferred g g (not_after_refl g),
    All-map (λ h q. not_after-Preferred g h q) rest s.0,
  ),
)

-- The group found is one of the groups, asks for no other province and no other carrier than the
-- client's, and is preferred to every other such group: the more specific first, then the smaller
-- priority number, then the smaller id. If none is found, no group fits the client.
pub match_line_group-Best :
    (groups : List LineGroup) (region : Region) (isp : Isp)
    → Best groups region isp (match_line_group groups region isp)
unfolding match_line_group
match_line_group-Best groups region isp =
    let kept = filter (matches region isp) groups in
    first-Best groups region isp (sort_by not_after kept)
      (sort_by-IsSortedBy not_after not_after-total not_after_trans kept)
      (sort_by-All not_after (λ h. Member h groups) kept
        (filter-All_keep (matches region isp) (λ h. Member h groups) groups (all_members groups)))
      (sort_by-All not_after (λ h. matches region isp h ≡ true) kept
        (filter-All (matches region isp) groups))
      λ P a.
        All-map (λ h f m. f ((matches_iff region isp h).1 m)) groups
          (filter-All_rev (matches region isp) P groups (All-sort_by not_after P kept a))
