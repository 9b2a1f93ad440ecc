-- ===== src/Api/Entities/Policy.antt =====
-- Network groups, access rules and the older blacklist:
-- frontend/lib/api.ts, lines 182-249.
use grouproxy.Base.{ℕ, String, Bool, Option, List}
use grouproxy.Api.Calls.Access.{AccessDirection, AccessMode, EntryKind, NetworkGroupEntry}

pub record NetworkGroup : Type 0 where
  pub id : String
  pub name : String
  pub entries : List NetworkGroupEntry
  pub created_by : String
  pub created_at : String
  pub updated_at : String

pub record AccessControlRule : Type 0 where
  pub id : String
  pub node_ids : List String
  pub network_group_ids : List String
  pub network_group_names : List String
  pub mode : AccessMode
  pub direction : AccessDirection
  pub reason : String
  pub enabled : Bool
  pub created_by : String
  pub created_at : String
  pub updated_at : String

pub record SourceBlacklistRule : Type 0 where
  pub id : Option String
  pub node_id : Option String
  pub direction : AccessDirection
  pub kind : EntryKind
  pub pattern : String

pub record SourceBlacklist : Type 0 where
  pub id : String
  pub node_id : String
  pub direction : AccessDirection
  pub kind : EntryKind
  pub pattern : String
  pub comment : String
  pub enabled : Bool
  pub created_by : String
  pub created_at : String

pub record ListPage (T : Type 0) : Type 0 where
  pub items : List T
  pub total : ℕ
  pub limit : ℕ
  pub offset : ℕ
  pub has_more : Bool
