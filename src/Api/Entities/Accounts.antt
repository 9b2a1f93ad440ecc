-- ===== src/Api/Entities/Accounts.antt =====
-- Sessions, employees, the audit trail, access assets and backups:
-- frontend/lib/api.ts, lines 32-584.
use grouproxy.Base.{ℕ, String, Bool, Option, List}
use grouproxy.Api.Json.{Fields}
use grouproxy.Api.Entities.Releases.{Task}
use grouproxy.Api.Session.{SessionRole}

pub record AuthSession : Type 0 where
  pub access_token : String
  pub itcode : String
  pub role : SessionRole
  pub expires_at : String

pub record VerificationChallenge : Type 0 where
  pub challenge_id : String
  pub expires_at : String
  pub resend_available_at : String

pub record Employee : Type 0 where
  pub itcode : String
  pub role : SessionRole
  pub auth_source : String
  pub is_active : Bool
  pub created_at : String
  pub password_changed_at : Option String
  pub last_login_at : Option String

pub record AuditEvent : Type 0 where
  pub event_id : String
  pub actor : String
  pub actor_role : String
  pub request_id : String
  pub source_ip : String
  pub action : String
  pub target_type : String
  pub target_id : String
  pub before : Fields
  pub after : Fields
  pub result : String
  pub error : String
  pub immutable_hash : String
  pub previous_hash : String
  pub at : String

pub data Environment : Type 0 where
  test production : Environment

pub record AccessConfig : Type 0 where
  pub environment : Environment
  pub fqdn : String
  pub port : ℕ
  pub macos_shortcut_url : String

pub data BackupOrigin : Type 0 where
  manual scheduled : BackupOrigin

pub record BackupRecord : Type 0 where
  pub backup_id : String
  pub scope : String
  pub origin : BackupOrigin
  pub artifact_paths : List String
  pub format : String
  pub checksum : String
  pub encrypted : Bool
  pub storage_ref : String
  pub status : String
  pub created_by : String
  pub created_at : String
  pub verified_at : Option String
  pub last_rehearsed_at : Option String
  pub restore_task_id : Option String
  pub error : String
  pub size_bytes : ℕ
  pub manifest : Fields

pub record BackupCreateResponse : Type 0 where
  pub backup : BackupRecord
  pub task : Task

pub record BackupRestoreResponse : Type 0 where
  pub backup : BackupRecord
  pub task : Task
