-- ===== src/Ddns/Fresh.antt =====
-- crates/panel/src/ddns.rs: what a refresh leaves in the runtimes, and when it rebuilds the snapshot.
use multi_proxy.Prelude.{
  ◌≡◌, ◌≢◌, ◌↔◌, Bool, false, List, Option, none, some, Text, get, All, nat_eq, list_eq, option_eq,
  pair_eq, if◌then◌else◌,
}
use multi_proxy.Contract.Model.{FrontNode, IpAddr}
use multi_proxy.Scheduler.Health.{NodeRuntime}
use multi_proxy.Scheduler.Build.{runtime_or_default}
use multi_proxy.Ddns.Address.{is_ip_literal, resolve_hostname_v4}
use multi_proxy.Ddns.Refresh.{ip_eq, refresh_node}

abbrev pub runtime_of : Text → List (Text × NodeRuntime) → NodeRuntime
runtime_of id rts = runtime_or_default (get id rts)

abbrev node_id : FrontNode → Text
node_id n = n.id

-- One write of a resolved address.
record Written (id : Text) (before wanted : NodeRuntime) (rts : List (Text × NodeRuntime))
    (r : Bool × List (Text × NodeRuntime)) : Type 0 where
  here : runtime_of id r.1 ≡ wanted
  elsewhere : (j : Text) → id ≢ j → get j r.1 ≡ get j rts
  told : (r.0 ≡ false) ↔ (wanted ≡ before)

module _ (parse_ip : Text → Option IpAddr) (lookup : Text → Text → Option (List IpAddr)) where
  abbrev pub with_address : FrontNode → Option IpAddr → NodeRuntime → NodeRuntime
  with_address node none rt = rt
  with_address node (some ip) rt = record rt { resolved = some (node.public_ip, ip) }

  -- The runtime that a node should have after a refresh.
  abbrev pub refreshed : FrontNode → NodeRuntime → NodeRuntime
  refreshed node rt =
      if is_ip_literal parse_ip node.public_ip
      then rt
      else with_address node (resolve_hostname_v4 (lookup node.id) node.public_ip) rt

  -- Every node of the list has the runtime that it should have.
  abbrev pub AllRefreshed :
      List (Text × NodeRuntime) → List (Text × NodeRuntime) → List FrontNode → Type 0
  AllRefreshed rts rts' =
      All λ (n : FrontNode). runtime_of n.id rts' ≡ refreshed n (runtime_of n.id rts)

  -- Every node of the list has it already.
  abbrev pub AllFresh : List (Text × NodeRuntime) → List FrontNode → Type 0
  AllFresh rts = All λ (n : FrontNode). refreshed n (runtime_of n.id rts) ≡ runtime_of n.id rts

  -- What holds of the runtimes of the other nodes holds after one node's round, and before it.
  module _ (P : FrontNode → NodeRuntime → Type 0) (node : FrontNode)
      (rts : List (Text × NodeRuntime)) where
    abbrev after_node : List (Text × NodeRuntime)
    after_node = (refresh_node parse_ip lookup node rts).1
