-- ===== src/Relaycfg/Gating.antt =====
-- crates/relaycfg/src/lib.rs: TLS is rendered only where there is a certificate and a rule wants it.
use multi_proxy.Prelude.{◌≡◌, refl, ap, ◌∙◌, List, [], ◌∷◌, Option, none, some, Text, map, ◌++◌}
use multi_proxy.Contract.Model.{ForwardRule, passthrough}
use multi_proxy.Relaycfg.{
  Json, TlsPaths, listener, service, gost_doc, items, render_gost, endpoint_block, push_endpoints,
  render_realm,
}

-- The rule as a TCP passthrough.
abbrev pub as_passthrough : ForwardRule → ForwardRule
as_passthrough r = record r { tls_mode = passthrough }

listener_gate :
    (r : ForwardRule) (tls : Option TlsPaths) → listener (as_passthrough r) tls ≡ listener r none
unfolding listener
listener_gate r none = refl
listener_gate r (some tls) = refl

block_gate :
    (r : ForwardRule) (tls : Option TlsPaths)
    → endpoint_block (as_passthrough r) tls ≡ endpoint_block r none
unfolding endpoint_block
block_gate r none = refl
block_gate r (some tls) = refl

services_gate :
    (rules : List ForwardRule) (tls : Option TlsPaths)
    → items (map (service tls) (map as_passthrough rules)) ≡ items (map (service none) rules)
unfolding service items
services_gate [] tls = refl
services_gate (r ∷ rules) tls = rw (listener_gate r tls, services_gate rules tls)

endpoints_gate :
    (out : Text) (rules : List ForwardRule) (tls : Option TlsPaths)
    → push_endpoints out (map as_passthrough rules) tls ≡ push_endpoints out rules none
unfolding push_endpoints
endpoints_gate out [] tls = refl
endpoints_gate out (r ∷ rules) tls =
    ap (λ b. push_endpoints (out ++ b) (map as_passthrough rules) tls) (block_gate r tls)
    ∙ endpoints_gate (out ++ endpoint_block r none) rules tls

-- With no certificate every rule is rendered, in both formats, as the passthrough rule that it
-- would be, whatever certificate paths such a passthrough rule is rendered with.
pub render_without_cert :
    (to_string_pretty : Json → Option Text) (rules : List ForwardRule) (tls : Option TlsPaths)
    → (render_gost to_string_pretty rules none
        ≡ render_gost to_string_pretty (map as_passthrough rules) tls)
      × (render_realm rules none ≡ render_realm (map as_passthrough rules) tls)
unfolding render_gost gost_doc render_realm
render_without_cert to_string_pretty rules tls =
    (rw (services_gate rules tls), rw (endpoints_gate _ rules tls))
