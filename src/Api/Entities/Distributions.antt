-- ===== src/Api/Entities/Distributions.antt =====
-- The answers to changes of access rules, with their releases:
-- frontend/lib/api.ts, lines 202-242.
use grouproxy.Base.{String, Option, List}
use grouproxy.Api.Entities.Policy.{AccessControlRule, SourceBlacklist}
use grouproxy.Api.Entities.Releases.{Release}

pub data DistributionState : Type 0 where
  released no_nodes no_effect : DistributionState

pub record SourceBlacklistDistribution : Type 0 where
  pub site_id : String
  pub node_ids : List String
  pub state : DistributionState
  pub release : Option Release

pub data BlacklistOperation : Type 0 where
  was_created was_deleted : BlacklistOperation

pub record SourceBlacklistMutation : Type 0 where
  pub rule : SourceBlacklist
  pub rules : Option (List SourceBlacklist)
  pub operation : BlacklistOperation
  pub distribution : List SourceBlacklistDistribution

pub data RuleOperation : Type 0 where
  created updated deleted : RuleOperation

pub record AccessControlMutation : Type 0 where
  pub rules : List AccessControlRule
  pub operation : RuleOperation
  pub distribution : List SourceBlacklistDistribution
