-- ===== src/Configgen.antt =====
-- crates/panel/src/configgen.rs: the configurations and the backends of a node, from its rules.
pub mod Backends
mod Tests
use multi_proxy.Prelude.{
  ℕ, Bool, true, false, List, [], ◌∷◌, Option, none, some, Text, text_leb, leb, ◌==◌, nat_eq,
  list_eq, if◌then◌else◌, map, filter,
}
use multi_proxy.Prelude.Sort.{sort_by}
use multi_proxy.Contract.Model.{ForwardRule, BackendEndpoint, Tool, gost, realm, tool_eq}
use multi_proxy.Contract.Protocol.{endpoint_eq}
use multi_proxy.Relaycfg.{TlsPaths, Json, render_gost, render_realm}

pub record RenderedConfig : Type 0 where
  pub gost_config : Option Text
  pub realm_config : Option Text
  pub backends : List BackendEndpoint

abbrev pub backend_of : ForwardRule → BackendEndpoint
backend_of r = record { host = r.backend_host; port = r.backend_port }

-- The order of the pairs of host and port.
unfoldable pub endpoint_leb : BackendEndpoint → BackendEndpoint → Bool
endpoint_leb a b =
    if text_leb a.host b.host
    then (if text_leb b.host a.host then leb a.port b.port else true)
    else false

-- `Vec::dedup`: of neighbours that are equal, one.
abbrev pub unless_equal : BackendEndpoint → List BackendEndpoint → List BackendEndpoint
unless_equal x [] = x ∷ []
unless_equal x (y ∷ ys) = if x == y then y ∷ ys else x ∷ y ∷ ys

unfoldable pub dedup : List BackendEndpoint → List BackendEndpoint
dedup [] = []
dedup (x ∷ xs) = unless_equal x (dedup xs)

unfoldable pub collect_backends : List ForwardRule → List BackendEndpoint
unfolding endpoint_leb dedup
collect_backends rules = dedup (sort_by endpoint_leb (map backend_of rules))

-- The rules of a tool, by listen port.
unfoldable pub rules_for : Tool → List ForwardRule → List ForwardRule
rules_for tool rules =
    sort_by (λ (a b : ForwardRule). leb a.listen_port b.listen_port)
      (filter (λ (r : ForwardRule). r.tool == tool) rules)

abbrev pub unless_none : List ForwardRule → Text → Option Text
unless_none [] text = none
unless_none (r ∷ rules) text = some text

module _ (to_string_pretty : Json → Option Text) where
  unfoldable pub render_node_with_tls : List ForwardRule → Option TlsPaths → RenderedConfig
  unfolding rules_for collect_backends
  render_node_with_tls rules tls = record {
    gost_config =
        unless_none (rules_for gost rules)
          (render_gost to_string_pretty (rules_for gost rules) tls);
    realm_config = unless_none (rules_for realm rules) (render_realm (rules_for realm rules) tls);
    backends = collect_backends rules;
  }

  unfoldable pub render_node : List ForwardRule → RenderedConfig
  unfolding render_node_with_tls
  render_node rules = render_node_with_tls rules none
