-- ===== src/Contract/Messages.antt =====
-- crates/contract/src/protocol.rs: the envelope, the messages, and the push of a configuration.
-- The wire format is serde's; the defaults that it fills in for missing fields are functions here.
use multi_proxy.Prelude.{ℕ, Bool, List, Option, Text, codes}
use multi_proxy.Contract.Model.{BackendEndpoint}
use multi_proxy.Contract.Protocol.{HelloOk, RuleSpec, StatusReport}
use multi_proxy.Contract.Version.{protocol_version}

abbrev pub default_heartbeat_interval_secs : ℕ
default_heartbeat_interval_secs = 20

abbrev pub t_ack_secs : ℕ
t_ack_secs = 15

pub record Hello : Type 0 where
  pub node_id : Text
  pub token : Text
  pub agent_version : Text
  pub platform : Text

abbrev pub default_platform : Text
default_platform = codes "x86_64-linux"

pub record Heartbeat : Type 0 where
  pub ts : ℕ

pub record ConfigAck : Type 0 where
  pub applied_gen : ℕ
  pub ok : Bool
  pub err : Option Text

abbrev pub default_probe_interval_secs : ℕ
default_probe_interval_secs = 5

abbrev pub default_probe_timeout_ms : ℕ
default_probe_timeout_ms = 1000

abbrev pub default_failover_max_fails : ℕ
default_failover_max_fails = 3

abbrev pub default_failover_recovery_checks : ℕ
default_failover_recovery_checks = 6

abbrev pub default_min_dwell_secs : ℕ
default_min_dwell_secs = 60

pub data AuthRejectReason : Type 0 where
  bad_token protocol_mismatch : AuthRejectReason
  other_reason : Text → AuthRejectReason

pub record ConfigPush : Type 0 where
  pub desired_gen : ℕ
  pub gost_config : Option Text
  pub realm_config : Option Text
  pub tls_cert_pem : Option Text
  pub tls_key_pem : Option Text
  pub backends : List BackendEndpoint
  pub rules : List RuleSpec

pub data CloseReason : Type 0 where
  superseded token_rotated shutdown : CloseReason

-- `F` stands for the type f32 of the metrics. `auth_reject` and `close` hold their reason.
pub data Message (F : Type 0) : Type 0 where
  hello : Hello → Message F
  heartbeat : Heartbeat → Message F
  status_report : StatusReport F → Message F
  config_ack : ConfigAck → Message F
  hello_ok : HelloOk → Message F
  auth_reject : AuthRejectReason → Message F
  config_push : ConfigPush → Message F
  ping : Message F
  close : CloseReason → Message F
  update_agent : Message F

pub record Envelope (F : Type 0) : Type 0 where
  pub protocol_version : ℕ
  pub msg_id : Text
  pub message : Message F

unfoldable pub envelope : {F : Type 0} → Text → Message F → Envelope F
envelope msg_id message = record {
  protocol_version = protocol_version;
  msg_id = msg_id;
  message = message;
}
