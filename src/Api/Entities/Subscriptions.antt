-- ===== src/Api/Entities/Subscriptions.antt =====
-- Subscription sources, their versions and what the sites use:
-- frontend/lib/api.ts, lines 251-317.
use grouproxy.Base.{ℕ, String, Bool, Option, List}
use grouproxy.Api.Entities.Releases.{Release, Task}

pub data SourceType : Type 0 where
  http upload single_node : SourceType

pub record SubscriptionSource : Type 0 where
  pub id : String
  pub name : String
  pub source_type : SourceType
  pub url_hint : String
  pub fetch_interval_sec : ℕ
  pub max_body_bytes : ℕ
  pub redirect_limit : ℕ
  pub enabled : Bool
  pub refreshable : Bool
  pub last_refresh_at : Option String
  pub last_refresh_attempt_at : Option String
  pub last_refresh_error : String
  pub consecutive_failures : ℕ
  pub created_at : String
  pub updated_at : String

pub data SubscriptionFormat : Type 0 where
  clash sip008 sing_box unknown : SubscriptionFormat

pub record SubscriptionVersion : Type 0 where
  pub id : String
  pub source_id : String
  pub version : ℕ
  pub content_hash : String
  pub size_bytes : ℕ
  pub format : SubscriptionFormat
  pub fetched_at : String
  pub parse_ok : Bool
  pub parse_error : String
  pub node_count : ℕ
  pub published : Bool
  pub created_at : String

pub record SubscriptionVersionContent : Type 0 where
  pub version_info : SubscriptionVersion
  pub content : String

pub record SiteSubscription : Type 0 where
  pub site_id : String
  pub source_id : String
  pub subscription_version_id : String
  pub previous_subscription_version_id : Option String
  pub updated_at : String

pub record SubscriptionCatalog : Type 0 where
  pub sources : List SubscriptionSource
  pub versions : List SubscriptionVersion
  pub site_subscriptions : List SiteSubscription

pub record SubscriptionRefreshResponse : Type 0 where
  pub source : SubscriptionSource
  pub task : Task
  pub merged : Bool

pub record SubscriptionUploadResponse : Type 0 where
  pub source : SubscriptionSource
  pub version : SubscriptionVersion

pub record SubscriptionPublishResponse : Type 0 where
  pub version : SubscriptionVersion
  pub releases : List Release
