-- ===== src/Dns/Ecs.antt =====
-- crates/panel/src/dns/ecs.rs: the client subnet option of a query.
-- The option and the EDNS record are types of the DNS library, as far as the server reads them.
use multi_proxy.Prelude.{ℕ, Bool, Option, none, some}
use multi_proxy.Contract.Model.{IpAddr}

pub record ClientSubnet : Type 0 where
  pub addr : IpAddr
  pub source_prefix : ℕ
  pub scope_prefix : ℕ

pub record Edns : Type 0 where
  pub max_payload : ℕ
  pub version : ℕ
  pub dnssec_ok : Bool
  pub subnet : Option ClientSubnet

pub record ClientNetwork : Type 0 where
  pub addr : IpAddr
  pub ecs_source_prefix : Option ℕ

unfoldable pub ecs_from_edns : Option Edns → Option ClientSubnet
ecs_from_edns none = none
ecs_from_edns (some edns) = edns.subnet

unfoldable pub client_network : Option ClientSubnet → IpAddr → ClientNetwork
client_network (some cs) src_ip = record {
  addr = cs.addr;
  ecs_source_prefix = some cs.source_prefix;
}
client_network none src_ip = record { addr = src_ip; ecs_source_prefix = none }

unfoldable pub echo_scope : ClientSubnet → ClientSubnet
echo_scope query_ecs = record {
  addr = query_ecs.addr;
  source_prefix = query_ecs.source_prefix;
  scope_prefix = query_ecs.source_prefix;
}
