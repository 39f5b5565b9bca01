-- ===== src/Ddns/Tests.antt =====
-- crates/panel/src/ddns.rs: runs on small inputs, and the theorem at such an input.
use multi_proxy.Prelude.{
  ◌≡◌, refl, Bool, true, false, List, [], ◌∷◌, Option, none, some, Text, codes, ◌==◌, nat_eq,
  list_eq, list_beq, erase,
}
use multi_proxy.Contract.Model.{FrontNode, IpAddr, v4, v6}
use multi_proxy.Scheduler.Health.{NodeRuntime}
use multi_proxy.Scheduler.Tests.{node_a, live, the_group}
use multi_proxy.Ddns.Address.{looks_like_hostname, is_valid_node_address}
use multi_proxy.Ddns.Refresh.{Panel, refresh_interval_secs, refresh_all}

abbrev no_literal : Text → Option IpAddr
no_literal t = none

hostname_accepted : looks_like_hostname (codes " node-1.ddns.net ") ≡ true
unfolding looks_like_hostname
hostname_accepted = refl

bare_word_rejected : is_valid_node_address no_literal (codes "localhost") ≡ false
unfolding is_valid_node_address
bare_word_rejected = refl

space_rejected : looks_like_hostname (codes "not a.host") ≡ false
unfolding looks_like_hostname
space_rejected = refl

trailing_hyphen_rejected : looks_like_hostname (codes "bad-.example.com") ≡ false
unfolding looks_like_hostname
trailing_hyphen_rejected = refl

empty_label_rejected : looks_like_hostname (codes "a..b.com") ≡ false
unfolding looks_like_hostname
empty_label_rejected = refl

interval_floor : refresh_interval_secs (some (codes " 3 ")) ≡ 10
unfolding refresh_interval_secs
interval_floor = refl

-- A node behind a host name, another whose lookup fails, and a lookup with an IPv6 address first.
abbrev moving : FrontNode
moving = record node_a { public_ip = codes "a.example.com" }

abbrev silent : FrontNode
silent = record node_a { id = codes "b"; public_ip = codes "b.example.com" }

abbrev lookup : Text → Text → Option (List IpAddr)
lookup id name = if_a (id == codes "a")
  where
    if_a : Bool → Option (List IpAddr)
    if_a true = some (v6 9 ∷ v4 7 ∷ v4 8 ∷ [])
    if_a false = none

abbrev known : NodeRuntime
known = record live { resolved = some (codes "b.example.com", v4 3) }

abbrev panel : Panel
panel = record {
  runtimes = (codes "a", live) ∷ (codes "b", known) ∷ [];
  groups = the_group ∷ [];
  snapshot = record { generation = 4; built_at = 0; lines = [] };
  snapshot_gen = 4;
  heartbeat_interval = 10;
}

abbrev nodes : List FrontNode
nodes = moving ∷ silent ∷ []

-- The first node gets its first IPv4 address, the other keeps the one it had.
refreshed_runtimes :
    (refresh_all no_literal lookup (some nodes) (some nodes) 2000 panel).runtimes
    ≡ (codes "a", record live { resolved = some (codes "a.example.com", v4 7) })
      ∷ (codes "b", known)
      ∷ []
unfolding refresh_all list_beq erase
refreshed_runtimes = refl
