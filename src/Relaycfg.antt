-- ===== src/Relaycfg.antt =====
-- crates/relaycfg/src/lib.rs: rendering of forward rules as gost JSON and realm TOML.
-- `serde_json` is not part of the repository: its `to_string_pretty` is a parameter.
pub mod Gating
use multi_proxy.Prelude.{
  ℕ, Bool, true, false, List, [], ◌∷◌, ◌++◌, Option, none, some, Text, codes, decimal, ◌&&◌,
  if◌then◌else◌, map,
}
use multi_proxy.Contract.Model.{ForwardRule, Protocol, tcp, udp, is_udp, is_terminate}

pub record TlsPaths : Type 0 where
  pub cert : Text
  pub key : Text

abbrev pub prod_tls_cert_path : Text
prod_tls_cert_path = codes "/etc/multiproxy/tls.crt"

abbrev pub prod_tls_key_path : Text
prod_tls_key_path = codes "/etc/multiproxy/tls.key"

unfoldable pub prod : TlsPaths
prod = record { cert = prod_tls_cert_path; key = prod_tls_key_path }

unfoldable pub proto_token : Protocol → Text
proto_token tcp = codes "tcp"
proto_token udp = codes "udp"

-- `serde_json::Value`, as far as the renderer builds it.
mutual
  pub data Json : Type 0 where
    str : Text → Json
    arr : Items → Json
    obj : Fields → Json

  pub data Items : Type 0 where
    nil : Items
    cons : Json → Items → Items

  pub data Fields : Type 0 where
    end : Fields
    field : Text → Json → Fields → Fields

unfoldable pub items : List Json → Items
items [] = nil
items (j ∷ js) = cons j (items js)

-- `format!("{}:{}", host, port)`.
unfoldable pub host_port : Text → ℕ → Text
host_port host port = host ++ (codes ":" ++ decimal port)

unfoldable pub plain_listener : Protocol → Json
unfolding proto_token
plain_listener p = obj (field (codes "type") (str (proto_token p)) end)

unfoldable pub tls_listener : TlsPaths → Json
tls_listener tls = obj (
    field (codes "type") (str (codes "tls")) (
      field (codes "tls")
        (obj (field (codes "certFile") (str tls.cert) (field (codes "keyFile") (str tls.key) end)))
        end))

unfoldable pub listener : ForwardRule → Option TlsPaths → Json
unfolding plain_listener tls_listener
listener r none = plain_listener r.protocol
listener r (some tls) =
    if is_terminate r.tls_mode then tls_listener tls else plain_listener r.protocol

unfoldable pub service : Option TlsPaths → ForwardRule → Json
unfolding listener host_port proto_token
service tls r =
    let proto = proto_token r.protocol in
    obj (
      field (codes "name") (str (codes "svc-" ++ (proto ++ (codes "-" ++ decimal r.listen_port)))) (
        field (codes "addr") (str (codes ":" ++ decimal r.listen_port)) (
          field (codes "handler") (obj (field (codes "type") (str proto) end)) (
            field (codes "listener") (listener r tls) (
              field (codes "forwarder")
                (obj (
                  field (codes "nodes")
                    (arr (
                      cons
                        (obj (
                          field (codes "name") (str (codes "target")) (
                            field (codes "addr") (str (host_port r.backend_host r.backend_port))
                              end)))
                        nil))
                    end))
                end)))))

unfoldable pub gost_doc : List ForwardRule → Option TlsPaths → Json
unfolding service items
gost_doc rules tls = obj (field (codes "services") (arr (items (map (service tls) rules))) end)

-- `unwrap_or_default` on a text.
abbrev pub or_empty : Option Text → Text
or_empty none = []
or_empty (some s) = s

unfoldable pub render_gost : (Json → Option Text) → List ForwardRule → Option TlsPaths → Text
unfolding gost_doc
render_gost to_string_pretty rules tls = or_empty (to_string_pretty (gost_doc rules tls))

abbrev pub transport : ForwardRule → Option TlsPaths → Text
transport r none = []
transport r (some tls) =
    if is_terminate r.tls_mode
    then codes "listen_transport = \"tls;cert="
      ++ (tls.cert ++ (codes ";key=" ++ (tls.key ++ codes "\"\n")))
    else []

-- What one round of the loop appends.
unfoldable pub endpoint_block : ForwardRule → Option TlsPaths → Text
unfolding host_port
endpoint_block r tls =
    codes "\n[[endpoints]]\n"
    ++ (codes "listen = \"0.0.0.0:"
        ++ (decimal r.listen_port
            ++ (codes "\"\n"
                ++ (codes "remote = \""
                    ++ (host_port r.backend_host r.backend_port
                        ++ (codes "\"\n"
                            ++ ((if is_udp r.protocol then codes "udp = true\n" else [])
                                ++ transport r tls)))))))

unfoldable pub push_endpoints : Text → List ForwardRule → Option TlsPaths → Text
push_endpoints out [] tls = out
push_endpoints out (r ∷ rules) tls = push_endpoints (out ++ endpoint_block r tls) rules tls

unfoldable pub render_realm : List ForwardRule → Option TlsPaths → Text
unfolding push_endpoints endpoint_block
render_realm rules tls =
    push_endpoints (codes "[network]\nno_tcp = false\nuse_udp = true\n") rules tls
