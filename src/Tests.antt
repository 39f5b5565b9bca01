-- ===== src/Tests.antt =====
-- The theorems of the contract and of the configuration renderer at small inputs.
use multi_proxy.Prelude.{◌≡◌, refl, [], ◌∷◌, Option, none, some, Text, codes, map, decimal}
use multi_proxy.Contract.Isp.{mobile, from_geocn, zh_label, from_geocn-zh_label}
use multi_proxy.Contract.Model.{ForwardRule, tcp, terminate, gost}
use multi_proxy.Relaycfg.{Json, prod, render_gost, render_realm}
use multi_proxy.Relaycfg.Gating.{as_passthrough, render_without_cert}

from_geocn-zh_label_example : from_geocn (zh_label mobile) ≡ mobile
from_geocn-zh_label_example = from_geocn-zh_label mobile

abbrev https_rule : ForwardRule
https_rule = record {
  id = codes "r1";
  node_id = codes "n1";
  listen_port = 443;
  protocol = tcp;
  backend_host = codes "10.0.0.1";
  backend_port = 8096;
  tool = gost;
  tls_mode = terminate;
  extra_backends = [];
}

abbrev no_json : Json → Option Text
no_json j = none

render_without_cert_example :
    (render_gost no_json (https_rule ∷ []) none
      ≡ render_gost no_json (map as_passthrough (https_rule ∷ [])) (some prod))
    × (render_realm (https_rule ∷ []) none
        ≡ render_realm (map as_passthrough (https_rule ∷ [])) (some prod))
render_without_cert_example = render_without_cert no_json (https_rule ∷ []) (some prod)

realm_text :
    render_realm (https_rule ∷ []) none
    ≡ codes
        "[network]\nno_tcp = false\nuse_udp = true\n\n[[endpoints]]\nlisten = \"0.0.0.0:443\"\nremote = \"10.0.0.1:8096\"\n"
unfolding render_realm decimal
realm_text = refl
