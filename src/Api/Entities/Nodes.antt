-- ===== src/Api/Entities/Nodes.antt =====
-- Sites, nodes and their traffic, proxies and service quality:
-- frontend/lib/api.ts, lines 1-173.
use grouproxy.Base.{ℕ, String, Bool, Option, List}
use grouproxy.Api.Calls.Nodes.{QualityWindow}
use grouproxy.Api.Calls.Sites.{ServiceQualityDefinition}

pub record NodeTraffic : Type 0 where
  pub node_id : String
  pub name : String
  pub site_id : String
  pub liveness_status : String
  pub active_connections : ℕ
  pub bytes_up : ℕ
  pub bytes_down : ℕ
  pub rx_bps : ℕ
  pub tx_bps : ℕ

pub record Overview : Type 0 where
  pub sites : ℕ
  pub nodes : ℕ
  pub online_nodes : ℕ
  pub in_sync_nodes : ℕ
  pub drifted_nodes : ℕ
  pub connections : ℕ
  pub bytes_up : Option ℕ
  pub bytes_down : Option ℕ
  pub rx_bps : Option ℕ
  pub tx_bps : Option ℕ
  pub node_traffic : Option (List NodeTraffic)
  pub open_circuits : ℕ
  pub open_alerts : ℕ
  pub http_only : Bool

pub record Site : Type 0 where
  pub id : String
  pub slug : String
  pub name : String
  pub dns_note : String
  pub shutdown : Bool
  pub config_revision : ℕ

pub record Node : Type 0 where
  pub id : String
  pub site_id : String
  pub name : String
  pub agent_id : String
  pub advertise_ip : String
  pub monitor_version : String
  pub singbox_version : String
  pub last_seen_at : Option String
  pub desired_version : ℕ
  pub applied_version : ℕ
  pub applied_hash : String
  pub liveness_status : String
  pub config_status : String
  pub service_status : String
  pub subscription_status : String
  pub probe_status : String
  pub active_connections : Option ℕ
  pub bytes_up : Option ℕ
  pub bytes_down : Option ℕ
  pub rx_bps : Option ℕ
  pub tx_bps : Option ℕ
  pub last_error : String

pub record ProxyHistoryPoint : Type 0 where
  pub at : Option String
  pub delay_ms : Option ℕ

pub record ProxyEndpoint : Type 0 where
  pub name : String
  pub type : String
  pub udp : Bool
  pub alive : Option Bool
  pub delay_ms : Option ℕ
  pub history : List ProxyHistoryPoint

pub record ProxyGroup : Type 0 where
  pub name : String
  pub type : String
  pub now : String
  pub all : List String
  pub nodes : List ProxyEndpoint
  pub udp : Bool
  pub delay_ms : Option ℕ
  pub history : List ProxyHistoryPoint

pub record ProxyConfigSnapshot : Type 0 where
  pub id : String
  pub node_id : String
  pub site_id : String
  pub sampled_at : String
  pub api_available : Bool
  pub groups : List ProxyGroup
  pub error : String
  pub received_at : String

pub record ServiceQualityStat (N : Type 0) : Type 0 where
  pub node_id : String
  pub node_name : String
  pub site_id : String
  pub site_name : String
  pub service : String
  pub outbound_tag : String
  pub average_latency_ms : Option N
  pub min_latency_ms : Option ℕ
  pub max_latency_ms : Option ℕ
  pub success_rate : Option N
  pub sample_count : ℕ
  pub successful_samples : ℕ
  pub failed_samples : ℕ
  pub last_latency_ms : Option ℕ
  pub last_success : Option Bool
  pub last_sampled_at : Option String

pub record ServiceQualityResponse (N : Type 0) : Type 0 where
  pub window : QualityWindow
  pub from_at : String
  pub until : String
  pub service : String
  pub samples : ℕ
  pub entries : List (ServiceQualityStat N)

pub record SystemSettings : Type 0 where
  pub settings_id : String
  pub service_quality : ServiceQualityDefinition
  pub default_probe_url : String
  pub updated_at : String
  pub updated_by : String
