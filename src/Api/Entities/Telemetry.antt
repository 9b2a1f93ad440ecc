-- ===== src/Api/Entities/Telemetry.antt =====
-- Access logs, connections, probes and alerts:
-- frontend/lib/api.ts, lines 431-543.
use grouproxy.Base.{ℕ, String, Bool, Option, List}
use grouproxy.Api.Calls.Access.{AccessMode}

pub record AccessLog : Type 0 where
  pub id : String
  pub ts : String
  pub site_id : String
  pub node_id : String
  pub policy_version : ℕ
  pub src_ip : String
  pub src_cidr_match : String
  pub username : String
  pub cert_fp : String
  pub dst_host : String
  pub dst_port : ℕ
  pub action : AccessMode
  pub deny_reason : String
  pub bytes_up : ℕ
  pub bytes_down : ℕ
  pub duration_ms : ℕ

pub record ConnectionTopItem : Type 0 where
  pub label : String
  pub connections : ℕ
  pub bytes_up : ℕ
  pub bytes_down : ℕ

pub record ConnectionLiveItem : Type 0 where
  pub id : String
  pub src_ip : String
  pub src_port : String
  pub dst_host : String
  pub dst_ip : String
  pub dst_port : String
  pub network : String
  pub inbound : String
  pub outbound_chain : List String
  pub bytes_up : ℕ
  pub bytes_down : ℕ
  pub start : String
  pub rule : String

pub record ConnectionSnapshot : Type 0 where
  pub id : String
  pub node_id : String
  pub site_id : String
  pub sampled_at : String
  pub active_connections : ℕ
  pub bytes_up : ℕ
  pub bytes_down : ℕ
  pub rx_bps : Option ℕ
  pub tx_bps : Option ℕ
  pub top_sources : List ConnectionTopItem
  pub top_destinations : List ConnectionTopItem
  pub top_users : List ConnectionTopItem
  pub connections : Option (List ConnectionLiveItem)
  pub api_available : Bool
  pub received_at : String

pub record ConnectionHistoryResponse : Type 0 where
  pub items : List ConnectionSnapshot
  pub total : ℕ
  pub limit : ℕ
  pub offset : ℕ
  pub has_more : Bool

pub record ProbeHistory : Type 0 where
  pub id : String
  pub node_id : String
  pub site_id : String
  pub outbound_tag : String
  pub target_url : String
  pub success : Bool
  pub latency_ms : ℕ
  pub error_class : String
  pub sampled_at : String

pub record ProbeCircuit : Type 0 where
  pub node_id : String
  pub site_id : String
  pub outbound_tag : String
  pub state : String
  pub consecutive_failures : ℕ
  pub consecutive_successes : ℕ
  pub opened_at : Option String
  pub half_open_at : Option String
  pub last_success_at : Option String
  pub last_failure_at : Option String
  pub last_latency_ms : ℕ
  pub last_error_class : String
  pub reason : String
  pub updated_at : String

pub record ProbeOverview : Type 0 where
  pub node_id : String
  pub history : List ProbeHistory
  pub circuits : List ProbeCircuit

pub record Alert : Type 0 where
  pub id : String
  pub fingerprint : String
  pub category : String
  pub severity : String
  pub site_id : String
  pub node_id : String
  pub title : String
  pub detail : String
  pub status : String
  pub first_seen_at : String
  pub last_seen_at : String
  pub resolved_at : Option String
