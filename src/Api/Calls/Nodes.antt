-- ===== src/Api/Calls/Nodes.antt =====
-- Nodes, their proxies, quality and probes: frontend/lib/api.ts, lines 132, 175-180, 912-975,
-- 951-975 and 1268-1280.
use grouproxy.Base.{ℕ, String, ◌<>◌, Option, none, some, List, [], ◌∷◌}
use grouproxy.Api.Url.{encode_uri_component, show, trim}
use grouproxy.Api.Json.{Json, null, num, str, arr, obj, end, field, strings, optional}
use grouproxy.Api.Query.{Params, set_text, to_string, with_query}
use grouproxy.Api.Transport.{Entropy, create_idempotency_key}
use grouproxy.Api.Calls.{Call, get_call, send_call, keyed_call, seg, one_text}

unfoldable pub get_nodes : Call
get_nodes = get_call "/api/v1/nodes"

unfoldable pub update_node_name : String → String → Call
update_node_name node_id name =
    send_call "PATCH" ("/api/v1/nodes/" <> seg node_id) (one_text "name" name)

-- `{ siteId?: string; nodeId?: string }`
pub record SiteNodeFilters : Type 0 where
  pub site_id : Option String
  pub node_id : Option String

unfoldable pub site_node_query : SiteNodeFilters → Params
site_node_query f = set_text "node_id" f.node_id (set_text "site_id" f.site_id [])

unfoldable pub get_proxy_configs : SiteNodeFilters → Call
unfolding site_node_query
get_proxy_configs f = get_call (with_query "/api/v1/proxy-configs" (site_node_query f))

pub data QualityWindow : Type 0 where
  hour day week month : QualityWindow

abbrev pub window_name : QualityWindow → String
window_name hour = "1h"
window_name day = "24h"
window_name week = "7d"
window_name month = "30d"

abbrev window_or_day : Option QualityWindow → QualityWindow
window_or_day none = day
window_or_day (some w) = w

unfoldable pub service_quality_query : Option QualityWindow → SiteNodeFilters → Params
service_quality_query window f =
    set_text "node_id" f.node_id
      (set_text "site_id" f.site_id (("window", window_name (window_or_day window)) ∷ []))

unfoldable pub get_service_quality : Option QualityWindow → SiteNodeFilters → Call
unfolding service_quality_query
get_service_quality window f =
    get_call ("/api/v1/service-quality?" <> to_string (service_quality_query window f))

unfoldable pub get_node_proxy_config : String → Call
get_node_proxy_config node_id = get_call ("/api/v1/nodes/" <> (seg node_id <> "/proxy-config"))

-- `expected_current_version?: number | null`
pub data ExpectedVersion : Type 0 where
  undefined none_yet : ExpectedVersion
  version : ℕ → ExpectedVersion

pub record ProxySelectionRequest : Type 0 where
  pub group : String
  pub outbound : String
  pub expected_current_version : ExpectedVersion
  pub note : Option String

abbrev pub version_json : ExpectedVersion → Option Json
version_json undefined = none
version_json none_yet = some null
version_json (version n) = some (num n)

-- `String(value.expected_current_version ?? "latest")`
abbrev pub version_text : ExpectedVersion → String
version_text undefined = "latest"
version_text none_yet = "latest"
version_text (version n) = show n

abbrev pub text_json : Option String → Option Json
text_json none = none
text_json (some s) = some (str s)

unfoldable pub selection_json : ProxySelectionRequest → Json
selection_json v = obj (
    field "group" (str v.group) (
      field "outbound" (str v.outbound) (
        optional "expected_current_version" (version_json v.expected_current_version)
          (optional "note" (text_json v.note) end))))

-- `[…].join(":")`
unfoldable pub selection_key : String → ProxySelectionRequest → String
selection_key node_id v =
    "proxy-selection:"
    <> (encode_uri_component node_id
        <> (":"
            <> (encode_uri_component (trim v.group)
                <> (":"
                    <> (encode_uri_component (trim v.outbound)
                        <> (":"
                            <> encode_uri_component (version_text v.expected_current_version)))))))

unfoldable pub select_node_proxy : String → ProxySelectionRequest → Call
unfolding selection_key
select_node_proxy node_id v =
    keyed_call ("/api/v1/nodes/" <> (seg node_id <> "/proxy-selection")) (selection_key node_id v)
      (selection_json v)

unfoldable pub get_node_probes : String → Call
get_node_probes node_id = get_call ("/api/v1/nodes/" <> (seg node_id <> "/probes"))

abbrev strings_json : Option (List String) → Option Json
strings_json none = none
strings_json (some ss) = some (arr (strings ss))

unfoldable pub create_node_probe : Entropy → String → Option String → Option (List String) → Call
create_node_probe e node_id target_url outbound_tags =
    keyed_call ("/api/v1/nodes/" <> (seg node_id <> "/probes"))
      (create_idempotency_key e ("node.probe:" <> node_id))
      (obj (
        optional "target_url" (text_json target_url)
          (optional "outbound_tags" (strings_json outbound_tags) end)))
