-- ===== src/Contract/Protocol.antt =====
-- crates/contract/src/protocol.rs: the messages between panel and agent that the models use.
use multi_proxy.Prelude.{
  ℕ, ◌≡◌, ◌↔◌, Bool, true, ◌&&◌, List, Option, Text, arith, nat_eq, nat_beq, list_beq, list_eq,
}
use multi_proxy.Prelude.Equality.{PartialEq, list_beq_iff}
use multi_proxy.Contract.Model.{BackendEndpoint, Protocol, TlsMode, Tool}

abbrev pub endpoint_beq : BackendEndpoint → BackendEndpoint → Bool
endpoint_beq a b = list_beq a.host b.host && nat_beq a.port b.port

pub endpoint_beq_iff : (a b : BackendEndpoint) → (endpoint_beq a b ≡ true) ↔ (a ≡ b)
endpoint_beq_iff a b = ground (arith, list_beq_iff a.host b.host)

instance abbrev pub endpoint_eq : PartialEq BackendEndpoint
endpoint_eq = record { eq_iff = endpoint_beq_iff; eq = endpoint_beq }

pub record BackendHealth : Type 0 where
  pub host : Text
  pub port : ℕ
  pub reachable : Bool

pub record ActiveBackend : Type 0 where
  pub rule_id : Text
  pub host : Text
  pub port : ℕ

-- `F` stands for the type f32.
pub record Metrics (F : Type 0) : Type 0 where
  pub gost_realm_pids : Option (List ℕ)
  pub last_backend_rtt_ms : Option ℕ
  pub restart_count : Option ℕ
  pub cpu_pct : Option F
  pub mem_mb : Option ℕ

pub data CapacitySource : Type 0 where
  forward_bytes nic_delta : CapacitySource

pub record Capacity : Type 0 where
  pub counter_epoch : ℕ
  pub source : CapacitySource
  pub tx_bytes_total : ℕ
  pub rx_bytes_total : ℕ
  pub throughput_bps : ℕ

pub record StatusReport (F : Type 0) : Type 0 where
  pub forwarding_up : Bool
  pub backend_reachable : Bool
  pub applied_config_gen : ℕ
  pub metrics : Option (Metrics F)
  pub capacity : Option Capacity
  pub backend_health : Option (List BackendHealth)
  pub active_backends : Option (List ActiveBackend)

pub record HelloOk : Type 0 where
  pub session : Text
  pub heartbeat_interval_secs : ℕ
  pub probe_interval_secs : ℕ
  pub probe_timeout_ms : ℕ
  pub failover_max_fails : ℕ
  pub failover_recovery_checks : ℕ
  pub min_dwell_secs : ℕ

pub record RuleSpec : Type 0 where
  pub rule_id : Text
  pub listen_port : ℕ
  pub protocol : Protocol
  pub tls_mode : TlsMode
  pub tool : Tool
  pub backends : List BackendEndpoint
