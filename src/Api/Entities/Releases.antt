-- ===== src/Api/Entities/Releases.antt =====
-- Drafts, releases, tasks, acknowledgements and release events:
-- frontend/lib/api.ts, lines 319-411.
use grouproxy.Base.{ℕ, String, Bool, Option, List}
use grouproxy.Api.Json.{Fields}
use grouproxy.Api.Entities.Policy.{SourceBlacklistRule}

pub record Validation : Type 0 where
  pub valid : Option Bool
  pub errors : Option (List String)
  pub blacklist : Option (List SourceBlacklistRule)
  pub source_blacklist : Option (List SourceBlacklistRule)

pub record Draft : Type 0 where
  pub id : String
  pub site_id : String
  pub node_ids : List String
  pub source_revision : ℕ
  pub diff : Fields
  pub validation : Validation
  pub risk_level : String
  pub status : String
  pub expires_at : String
  pub created_at : String
  pub updated_at : String

pub record Release : Type 0 where
  pub release_id : String
  pub site_id : String
  pub node_ids : List String
  pub desired_release_id : String
  pub previous_release_id : Option String
  pub task_id : Option String
  pub status : String
  pub stage : String
  pub progress : ℕ
  pub error : String
  pub rollback_reason : String
  pub started_at : Option String
  pub finished_at : Option String
  pub created_at : String
  pub subscription_name : String
  pub subscription_source_id : String
  pub change_categories : Option (List String)

pub record Task : Type 0 where
  pub task_id : String
  pub task_type : String
  pub target_type : String
  pub target_id : String
  pub status : String
  pub progress : ℕ
  pub stage : String
  pub progress_message : String
  pub retry_count : ℕ
  pub max_retries : ℕ
  pub error : String
  pub result : Fields
  pub created_at : String
  pub finished_at : Option String
  pub next_run_at : String
  pub locked_by : String
  pub lease_expires_at : Option String

pub record AgentAck : Type 0 where
  pub node_id : String
  pub release_id : String
  pub desired_version : ℕ
  pub applied_version : ℕ
  pub bundle_hash : String
  pub applied_hash : String
  pub ok : Bool
  pub singbox_ok : Bool
  pub nft_ok : Bool
  pub health_ok : Bool
  pub rollback_attempted : Bool
  pub rollback_ok : Bool
  pub last_good_version : ℕ
  pub stage : String
  pub error_code : String
  pub error_message : String
  pub sequence : ℕ
  pub received_at : String

pub data EventLevel : Type 0 where
  info success warning failure : EventLevel

pub record ReleaseEvent : Type 0 where
  pub timestamp : String
  pub source : String
  pub message : String
  pub level : EventLevel

pub record ReleaseDetail : Type 0 where
  pub release : Release
  pub task : Option Task
  pub acknowledgements : List AgentAck
  pub events : List ReleaseEvent
