-- ===== src/Contract/Model.antt =====
-- crates/contract/src/model.rs: the data model. Ids and names are texts; u8 to u64 are numbers.
use multi_proxy.Prelude.{
  ℕ, ◌%◌, ◌≡◌, ◌↔◌, Bool, true, false, ◌&&◌, ◌||◌, List, Option, Text, arith, leb, ltb,
  if◌then◌else◌,
}
use multi_proxy.Prelude.Equality.{PartialEq}
use multi_proxy.Prelude.Int.{ℤ}
use multi_proxy.Contract.Isp.{Isp}

-- `std::net::IpAddr`, by the number that the address is.
pub data IpAddr : Type 0 where
  v4 : ℕ → IpAddr
  v6 : ℕ → IpAddr

pub data QuotaDirection : Type 0 where
  both tx_only rx_only : QuotaDirection

pub record Region : Type 0 where
  pub division_code : ℕ
  pub province_code : ℕ

unfoldable pub unknown_region : Region
unknown_region = record { division_code = 0; province_code = 0 }

pub data NodeStatus : Type 0 where
  online offline unknown : NodeStatus

pub data SaturationState : Type 0 where
  normal saturated : SaturationState

pub data AvailabilityState : Type 0 where
  available soft_excluded hard_excluded : AvailabilityState

pub record FrontNode : Type 0 where
  pub id : Text
  pub name : Text
  pub public_ip : Text
  pub region : Region
  pub isp : Isp
  pub status : NodeStatus
  pub last_seen : ℕ
  pub desired_config_gen : ℕ
  pub applied_config_gen : ℕ
  pub bandwidth_cap_mbps : Option ℕ
  pub traffic_quota_bytes : Option ℕ
  pub quota_direction : QuotaDirection
  pub quota_reset_day : Option ℕ
  pub soft_quota_pct : ℕ
  pub hard_quota_pct : ℕ
  pub accumulated_usage_bytes : ℕ
  pub current_throughput_bps : ℕ
  pub saturation_state : SaturationState
  pub availability_state : AvailabilityState

pub data TlsMode : Type 0 where
  passthrough terminate : TlsMode

pub data Protocol : Type 0 where
  tcp udp : Protocol

pub data Tool : Type 0 where
  gost realm : Tool

abbrev pub is_terminate : TlsMode → Bool
is_terminate passthrough = false
is_terminate terminate = true

abbrev pub is_udp : Protocol → Bool
is_udp tcp = false
is_udp udp = true

abbrev pub tool_beq : Tool → Tool → Bool
tool_beq gost gost = true
tool_beq realm realm = true
tool_beq _ _ = false

pub tool_beq_iff : (a b : Tool) → (tool_beq a b ≡ true) ↔ (a ≡ b)
tool_beq_iff a b = grind arith

instance abbrev pub tool_eq : PartialEq Tool
tool_eq = record { eq_iff = tool_beq_iff; eq = tool_beq }

-- crates/contract/src/protocol.rs declares it; `ForwardRule` holds some.
pub record BackendEndpoint : Type 0 where
  pub host : Text
  pub port : ℕ

pub record ForwardRule : Type 0 where
  pub id : Text
  pub node_id : Text
  pub listen_port : ℕ
  pub protocol : Protocol
  pub backend_host : Text
  pub backend_port : ℕ
  pub tool : Tool
  pub tls_mode : TlsMode
  pub extra_backends : List BackendEndpoint

pub record TimeWindow : Type 0 where
  pub start_min : ℕ
  pub end_min : ℕ

-- `TimeWindow::contains`.
unfoldable pub window_contains : TimeWindow → ℕ → Bool
window_contains w t =
    let m = t % 1440 in
    if leb w.start_min w.end_min
    then leb w.start_min m && ltb m w.end_min
    else leb w.start_min m || ltb m w.end_min

pub record LineGroup : Type 0 where
  pub id : Text
  pub name : Text
  pub zone_id : Option Text
  pub match_region : Option ℕ
  pub match_isp : Option Isp
  pub member_node_ids : List Text
  pub priority : ℤ
  pub fallback_group : Option Text
  pub active_window : Option TimeWindow

pub record DnsZone : Type 0 where
  pub id : Text
  pub apex_domain : Text
  pub soa : Text
  pub ns : List Text
  pub default_ttl : ℕ
