-- ===== src/Api/Calls/Sites.antt =====
-- Sites, routing policies and system settings: frontend/lib/api.ts, lines 46-60, 162-165, 868-899,
-- 943-949 and 977-979.
use grouproxy.Base.{ℕ, String, ◌<>◌, Bool, List, [], ◌∷◌}
use grouproxy.Api.Json.{Json, bool, num, str, arr, obj, Items, nil, cons, end, field}
use grouproxy.Api.Calls.{Call, get_call, send_call, seg, one_text}

pub data RuleKind : Type 0 where
  domain domain_suffix ip_cidr : RuleKind

pub data RuleAction : Type 0 where
  direct proxy reject : RuleAction

pub data FinalOutbound : Type 0 where
  proxy direct : FinalOutbound

pub record RoutingRule : Type 0 where
  pub kind : RuleKind
  pub pattern : String
  pub action : RuleAction

-- `mode` is always "rule".
pub record RoutingPolicy : Type 0 where
  pub private_direct : Bool
  pub cn_direct : Bool
  pub final : FinalOutbound
  pub rules : List RoutingRule

pub record RoutingPolicyResponse : Type 0 where
  pub site_id : String
  pub revision : ℕ
  pub policy : RoutingPolicy

pub data ImportMode : Type 0 where
  append replace : ImportMode

abbrev pub kind_name : RuleKind → String
kind_name domain = "domain"
kind_name domain_suffix = "domain_suffix"
kind_name ip_cidr = "ip_cidr"

abbrev pub action_name : RuleAction → String
action_name RuleAction.direct = "direct"
action_name RuleAction.proxy = "proxy"
action_name reject = "reject"

abbrev pub final_name : FinalOutbound → String
final_name FinalOutbound.proxy = "proxy"
final_name FinalOutbound.direct = "direct"

abbrev pub mode_name : ImportMode → String
mode_name append = "append"
mode_name replace = "replace"

unfoldable pub rules_json : List RoutingRule → Items
rules_json [] = nil
rules_json (r ∷ rs) =
    cons
      (obj (
        field "kind" (str (kind_name r.kind))
          (field "pattern" (str r.pattern) (field "action" (str (action_name r.action)) end))))
      (rules_json rs)

unfoldable pub policy_json : RoutingPolicy → Json
unfolding rules_json
policy_json p = obj (
    field "mode" (str "rule") (
      field "private_direct" (bool p.private_direct) (
        field "cn_direct" (bool p.cn_direct) (
          field "final" (str (final_name p.final))
            (field "rules" (arr (rules_json p.rules)) end)))))

unfoldable pub get_overview : Call
get_overview = get_call "/api/v1/overview"

unfoldable pub get_sites : Call
get_sites = get_call "/api/v1/sites"

unfoldable pub get_routing_policy : String → Call
get_routing_policy site_id = get_call ("/api/v1/sites/" <> (seg site_id <> "/routing"))

unfoldable pub preview_routing_import : String → ImportMode → RoutingPolicy → Call
preview_routing_import content mode policy = send_call "POST" "/api/v1/routing/import" (
    obj (
      field "content" (str content)
        (field "mode" (str (mode_name mode)) (field "policy" (policy_json policy) end))))

unfoldable pub save_routing_policy : String → ℕ → RoutingPolicy → Call
save_routing_policy site_id expected_revision policy =
    send_call "PUT" ("/api/v1/sites/" <> (seg site_id <> "/routing")) (
      obj (
        field "expected_revision" (num expected_revision)
          (field "policy" (policy_json policy) end)))

unfoldable pub publish_routing_policy : String → ℕ → Call
publish_routing_policy site_id expected_revision =
    send_call "POST" ("/api/v1/sites/" <> (seg site_id <> "/routing/publish"))
      (obj (field "expected_revision" (num expected_revision) end))

unfoldable pub update_site_name : String → String → Call
update_site_name site_id name =
    send_call "PATCH" ("/api/v1/sites/" <> seg site_id) (one_text "name" name)

unfoldable pub set_site_shutdown : String → Bool → Call
set_site_shutdown site_id shutdown =
    send_call "POST" ("/api/v1/sites/" <> (site_id <> "/shutdown"))
      (obj (field "shutdown" (bool shutdown) end))

pub record ServiceQualityDefinition : Type 0 where
  pub green_max_ms : ℕ
  pub yellow_max_ms : ℕ

unfoldable pub get_system_settings : Call
get_system_settings = get_call "/api/v1/system-settings"

unfoldable pub update_system_settings : ServiceQualityDefinition → String → Call
update_system_settings quality default_probe_url = send_call "PATCH" "/api/v1/system-settings" (
    obj (
      field "service_quality"
        (obj (
          field "green_max_ms" (num quality.green_max_ms)
            (field "yellow_max_ms" (num quality.yellow_max_ms) end)))
        (field "default_probe_url" (str default_probe_url) end)))
