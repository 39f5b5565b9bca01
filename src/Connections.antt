-- ===== src/Connections.antt =====
-- crates/panel/src/ws_server.rs: the registry of live agent connections and the structured rules of a
-- push. A channel to an agent's socket is a number.
pub mod Supersede
pub mod Versions
pub mod Pushes
pub mod Halting
mod Tests
use multi_proxy.Prelude.{
  ℕ, Bool, true, false, List, [], ◌∷◌, Option, none, some, Text, ◌==◌, nat_eq, list_eq, get, insert,
  erase, if◌then◌else◌, map,
}
use multi_proxy.Scheduler.Health.{NodeRuntime}
use multi_proxy.Scheduler.Build.{runtime_or_default}
use multi_proxy.Contract.Model.{ForwardRule, BackendEndpoint}
use multi_proxy.Contract.Protocol.{RuleSpec}

pub record AgentConn : Type 0 where
  pub session : Text
  pub tx : ℕ

-- The connections, the runtimes of the nodes, and the channels told to close.
pub record Registry : Type 0 where
  pub conns : List (Text × AgentConn)
  pub runtimes : List (Text × NodeRuntime)
  pub superseded : List ℕ

abbrev pub close_prev : Option AgentConn → List ℕ → List ℕ
close_prev none closed = closed
close_prev (some prev) closed = prev.tx ∷ closed

-- The session token is the argument `session`.
unfoldable pub supersede_register : Registry → Text → Text → ℕ → Registry
supersede_register r node_id session tx = record r {
  conns = insert node_id (record { session = session; tx = tx }) (erase node_id r.conns);
  superseded = close_prev (get node_id r.conns) r.superseded;
}

unfoldable pub touch_runtime : Registry → Text → ℕ → Registry
touch_runtime r node_id now = record r {
  runtimes =
      insert node_id
        (record (runtime_or_default (get node_id r.runtimes)) {
          last_contact_ms = now;
          connected = true;
        })
        r.runtimes;
}

-- `get_mut`: a node with no runtime is left alone.
abbrev pub clear_connected :
    Text → Option NodeRuntime → List (Text × NodeRuntime) → List (Text × NodeRuntime)
clear_connected node_id none runtimes = runtimes
clear_connected node_id (some rt) runtimes =
    insert node_id (record rt { connected = false }) runtimes

abbrev pub drop_conn : Registry → Text → Text → Option AgentConn → Registry
drop_conn r node_id session none = r
drop_conn r node_id session (some conn) =
    if conn.session == session
    then record r {
      conns = erase node_id r.conns;
      runtimes = clear_connected node_id (get node_id r.runtimes) r.runtimes;
    }
    else r

-- The registry's part of the teardown of a connection, as one step; the source lets the registry go before
-- it clears the flag.
unfoldable pub disconnect : Registry → Text → Text → Registry
disconnect r node_id session = drop_conn r node_id session (get node_id r.conns)

unfoldable pub rule_spec : ForwardRule → RuleSpec
rule_spec r = record {
  rule_id = r.id;
  listen_port = r.listen_port;
  protocol = r.protocol;
  tls_mode = r.tls_mode;
  tool = r.tool;
  backends = record { host = r.backend_host; port = r.backend_port } ∷ r.extra_backends;
}

unfoldable pub build_rule_specs : List ForwardRule → List RuleSpec
unfolding rule_spec
build_rule_specs rules = map rule_spec rules
