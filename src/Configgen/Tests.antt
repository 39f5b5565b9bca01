-- ===== src/Configgen/Tests.antt =====
-- crates/panel/src/configgen.rs: the backends of a small node.
use multi_proxy.Prelude.{◌≡◌, refl, List, [], ◌∷◌, Text, codes, text_leb, list_beq}
use multi_proxy.Prelude.Sort.{sort_by}
use multi_proxy.Contract.Model.{ForwardRule, BackendEndpoint, tcp, passthrough, gost}
use multi_proxy.Configgen.{collect_backends}

abbrev rule_to : Text → ForwardRule
rule_to host = record {
  id = codes "r";
  node_id = codes "n1";
  listen_port = 443;
  protocol = tcp;
  backend_host = host;
  backend_port = 8096;
  tool = gost;
  tls_mode = passthrough;
  extra_backends = [];
}

abbrev three_rules : List ForwardRule
three_rules = rule_to (codes "b") ∷ rule_to (codes "a") ∷ rule_to (codes "b") ∷ []

abbrev at : Text → BackendEndpoint
at host = record { host = host; port = 8096 }

collected : collect_backends three_rules ≡ at (codes "a") ∷ at (codes "b") ∷ []
unfolding collect_backends sort_by text_leb list_beq
collected = refl
