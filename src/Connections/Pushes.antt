-- ===== src/Connections/Pushes.antt =====
-- crates/panel/src/ws_server.rs: the greeting of an agent, the push of its configuration, its reports, and the drift.
-- The database is given by what it holds; `verify_token`, a hash of another package, is a parameter.
use multi_proxy.Prelude.{
  ℕ, Bool, not, List, [], ◌∷◌, Option, none, some, Text, codes, ◌==◌, nat_eq, nat_beq, list_eq,
  if◌then◌else◌, any, filter, filter_map, find, get, text_leb,
}
use multi_proxy.Prelude.Sort.{sort_by}
use multi_proxy.Contract.Model.{
  ForwardRule, LineGroup, DnsZone, FrontNode, AvailabilityState, SaturationState,
}
use multi_proxy.Contract.Protocol.{RuleSpec, StatusReport, HelloOk, Capacity}
use multi_proxy.Contract.Messages.{
  ConfigPush, Message, hello, Envelope, AuthRejectReason, bad_token, protocol_mismatch,
  other_reason,
}
use multi_proxy.Contract.Version.{is_accepted}
use multi_proxy.Relaycfg.{Json, TlsPaths, prod}
use multi_proxy.Configgen.{render_node_with_tls}
use multi_proxy.Scheduler.Capacity.{CapacityState, CapacityOutcome, apply_capacity}
use multi_proxy.Scheduler.Health.{
  NodeRuntime, apply_status_report, classify_node, availability_state_for,
}
use multi_proxy.Connections.{build_rule_specs}
use multi_proxy.Connections.Versions.{agent_is_new}

pub record FailoverParams : Type 0 where
  pub probe_interval_secs : ℕ
  pub probe_timeout_ms : ℕ
  pub max_fails : ℕ
  pub recovery_checks : ℕ
  pub min_dwell_secs : ℕ

unfoldable pub hello_ok_of : Text → ℕ → FailoverParams → HelloOk
hello_ok_of session heartbeat params = record {
  session = session;
  heartbeat_interval_secs = heartbeat;
  probe_interval_secs = params.probe_interval_secs;
  probe_timeout_ms = params.probe_timeout_ms;
  failover_max_fails = params.max_fails;
  failover_recovery_checks = params.recovery_checks;
  min_dwell_secs = params.min_dwell_secs;
}

-- The node that is greeted, or the reason of the rejection.
pub data Greeting : Type 0 where
  greeted : Text → Greeting
  rejected : AuthRejectReason → Greeting

-- The token hashes are by node, as the database has them.
module _ (verify_token : Text → Text → Bool) where
  abbrev verify_hash : Text → Text → Option Text → Greeting
  verify_hash node_id token none = rejected bad_token
  verify_hash node_id token (some hash) =
      if verify_token token hash then greeted node_id else rejected bad_token

  abbrev greet : {F : Type 0} → List (Text × Text) → Message F → Greeting
  greet hashes (hello h) = verify_hash h.node_id h.token (get h.node_id hashes)
  greet hashes m = rejected (other_reason (codes "expected_hello"))

  unfoldable pub check_hello : {F : Type 0} → List (Text × Text) → Envelope F → Greeting
  unfolding is_accepted get
  check_hello hashes env =
      if is_accepted env.protocol_version
      then greet hashes env.message
      else rejected protocol_mismatch

abbrev unless_same : Text → List Text → List Text
unless_same x [] = x ∷ []
unless_same x (y ∷ ys) = if x == y then y ∷ ys else x ∷ y ∷ ys

abbrev dedup_ids : List Text → List Text
dedup_ids [] = []
dedup_ids (x ∷ xs) = unless_same x (dedup_ids xs)

abbrev apex_of_found : Option DnsZone → Option Text
apex_of_found none = none
apex_of_found (some z) = some z.apex_domain

unfoldable pub domains_for_node_in : List LineGroup → List DnsZone → Text → List Text
unfolding filter filter_map any find text_leb
domains_for_node_in groups zones node_id =
    let ids =
      filter_map (λ (g : LineGroup). g.zone_id)
        (filter (λ (g : LineGroup). any (λ m. m == node_id) g.member_node_ids) groups) in
    filter_map (λ zid. apex_of_found (find (λ (z : DnsZone). z.id == zid) zones))
      (dedup_ids (sort_by text_leb ids))

-- The certificate and the key of the first domain that has them.
abbrev or_later : Option (Text × Text) → Option (Text × Text) → Option (Text × Text)
or_later none later = later
or_later (some pair) later = some pair

unfoldable pub choose_cert : List (Text × (Text × Text)) → List Text → Option (Text × Text)
unfolding get
choose_cert certs [] = none
choose_cert certs (d ∷ domains) = or_later (get d certs) (choose_cert certs domains)

abbrev cert_of : Option (Text × Text) → Option Text
cert_of none = none
cert_of (some (cert, key)) = some cert

abbrev key_of : Option (Text × Text) → Option Text
key_of none = none
key_of (some (cert, key)) = some key

abbrev tls_for : Option (Text × Text) → Option TlsPaths
tls_for none = none
tls_for (some pair) = some prod

abbrev pub version_or_default : Option Text → Text
version_or_default none = []
version_or_default (some version) = version

-- The structured rules: none under the kill-switch, and none for an old agent.
unfoldable pub rules_field : Bool → Option Text → List ForwardRule → List RuleSpec
unfolding agent_is_new build_rule_specs
rules_field killswitch version rules =
    if killswitch
    then []
    else (if agent_is_new (version_or_default version) then build_rule_specs rules else [])

module _ (to_string_pretty : Json → Option Text) where
  -- The push of a node, from its rules, the certificate chosen for it, the kill-switch and the agent's version.
  unfoldable pub push_of :
      List ForwardRule → Option (Text × Text) → Bool → Option Text → ℕ → ConfigPush
  unfolding render_node_with_tls rules_field prod
  push_of rules chosen killswitch version desired_gen =
      let rendered = render_node_with_tls to_string_pretty rules (tls_for chosen) in
      record {
        desired_gen = desired_gen;
        gost_config = rendered.gost_config;
        realm_config = rendered.realm_config;
        tls_cert_pem = cert_of chosen;
        tls_key_pem = key_of chosen;
        backends = rendered.backends;
        rules = rules_field killswitch version rules;
      }

-- What is stored on a report with counters.
pub record Persisted : Type 0 where
  pub state : CapacityState
  pub throughput_bps : ℕ
  pub saturation : SaturationState
  pub availability : AvailabilityState
  pub last_seen : ℕ

abbrev with_outcome : NodeRuntime → CapacityOutcome → NodeRuntime
with_outcome rt o = record rt {
  capacity = o.state;
  throughput_bps = o.throughput_bps;
  saturation = o.saturation.state;
  sat_enter_windows = o.saturation.enter_windows;
  sat_exit_windows = o.saturation.exit_windows;
}

-- The baseline in memory, or on a cold start the stored one.
abbrev prior_of : CapacityState → CapacityState → CapacityState
prior_of in_memory stored = if in_memory.has_counter_baseline then in_memory else stored

abbrev apply_cap : FrontNode → CapacityState → NodeRuntime → Capacity → CapacityOutcome
apply_cap node stored rt cap =
    apply_capacity (prior_of rt.capacity stored)
      (record {
        state = rt.saturation;
        enter_windows = rt.sat_enter_windows;
        exit_windows = rt.sat_exit_windows;
      })
      node.bandwidth_cap_mbps cap node.quota_direction

abbrev capacity_reported :
    FrontNode
    → CapacityState
    → ℕ
    → ℕ
    → NodeRuntime
    → Option Capacity
    → NodeRuntime × Option Persisted
capacity_reported node stored now heartbeat rt none = (rt, none)
capacity_reported node stored now heartbeat rt (some cap) =
    let o = apply_cap node stored rt cap in
    let rt' = with_outcome rt o in
    (
      rt',
      some (record {
        state = o.state;
        throughput_bps = o.throughput_bps;
        saturation = o.saturation.state;
        availability = availability_state_for (classify_node node rt' now heartbeat);
        last_seen = now;
      }),
    )

-- The runtime of the node after a report, and what is stored of it.
unfoldable pub handle_status_report :
    {F : Type 0}
    → FrontNode
    → CapacityState
    → ℕ
    → ℕ
    → NodeRuntime
    → StatusReport F
    → NodeRuntime × Option Persisted
unfolding apply_status_report apply_capacity classify_node availability_state_for
handle_status_report node stored now heartbeat rt report =
    capacity_reported node stored now heartbeat (apply_status_report rt report now) report.capacity

-- Whether the watchdog pushes again.
unfoldable pub has_drifted : FrontNode → Bool
has_drifted node = not (nat_beq node.applied_config_gen node.desired_config_gen)
