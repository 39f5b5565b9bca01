-- ===== src/Contract/Snapshot.antt =====
-- crates/contract/src/snapshot.rs: the availability snapshot and the two-tier selection.
pub mod Selection
use multi_proxy.Prelude.{
  ℕ, Bool, true, false, List, [], ◌∷◌, Option, none, some, Text, get, map, filter, if◌then◌else◌,
}
use multi_proxy.Contract.Model.{IpAddr}

pub data ExclusionClass : Type 0 where
  included soft_quota saturated hard_quota unhealthy : ExclusionClass

unfoldable pub is_included : ExclusionClass → Bool
is_included included = true
is_included _ = false

unfoldable pub is_soft : ExclusionClass → Bool
is_soft soft_quota = true
is_soft saturated = true
is_soft _ = false

unfoldable pub is_hard : ExclusionClass → Bool
is_hard hard_quota = true
is_hard unhealthy = true
is_hard _ = false

pub record NodeClassification : Type 0 where
  pub ip : IpAddr
  pub class : ExclusionClass

pub record LineAvailability : Type 0 where
  pub available : List IpAddr
  pub fallback_group : Option Text
  pub classified : List NodeClassification

pub record AvailabilitySnapshot : Type 0 where
  pub generation : ℕ
  pub built_at : ℕ
  pub lines : List (Text × LineAvailability)

abbrev pub available_of : Option LineAvailability → List IpAddr
available_of none = []
available_of (some l) = l.available

unfoldable pub available_for : AvailabilitySnapshot → Text → List IpAddr
available_for s line = available_of (get line s.lines)

abbrev pub fallback_of : Option LineAvailability → Option Text
fallback_of none = none
fallback_of (some l) = l.fallback_group

unfoldable pub fallback_for : AvailabilitySnapshot → Text → Option Text
fallback_for s line = fallback_of (get line s.lines)

abbrev ips : List (IpAddr × ExclusionClass) → List IpAddr
ips = map λ p. p.0

abbrev pub promote : List IpAddr → List IpAddr → List IpAddr
promote [] tier2 = tier2
promote (ip ∷ tier1) tier2 = ip ∷ tier1

unfoldable pub select_available : List (IpAddr × ExclusionClass) → List IpAddr
unfolding is_included is_soft
select_available nodes =
    promote (ips (filter (λ p. is_included p.1) nodes)) (ips (filter (λ p. is_soft p.1) nodes))
