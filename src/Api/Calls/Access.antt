-- ===== src/Api/Calls/Access.antt =====
-- Network groups, access rules and the older blacklist: frontend/lib/api.ts, lines 216-237 and
-- 981-1071.
use grouproxy.Base.{ℕ, String, ◌<>◌, Bool, Option, none, some, List, [], ◌∷◌}
use grouproxy.Api.Json.{Json, bool, str, arr, obj, Items, nil, cons, end, field, strings, optional}
use grouproxy.Api.Query.{Params, set_text, set_number, with_query}
use grouproxy.Api.Calls.{Call, get_call, send_call, empty_call, seg}
use grouproxy.Api.Calls.Nodes.{text_json}

pub data EntryKind : Type 0 where
  ip cidr domain : EntryKind

abbrev pub kind_name : EntryKind → String
kind_name ip = "ip"
kind_name cidr = "cidr"
kind_name domain = "domain"

pub data AccessMode : Type 0 where
  deny allow : AccessMode

abbrev pub mode_name : AccessMode → String
mode_name deny = "deny"
mode_name allow = "allow"

pub data AccessDirection : Type 0 where
  source destination : AccessDirection

abbrev pub direction_name : AccessDirection → String
direction_name source = "source"
direction_name destination = "destination"

abbrev pub named : {A : Type 0} → (A → String) → Option A → Option String
named name none = none
named name (some a) = some (name a)

pub record NetworkGroupEntry : Type 0 where
  pub kind : EntryKind
  pub pattern : String

unfoldable pub get_source_blacklist : Call
get_source_blacklist = get_call "/api/v1/blacklist"

pub record GroupFilters : Type 0 where
  pub search : Option String
  pub kind : Option EntryKind
  pub limit : Option ℕ
  pub offset : Option ℕ

unfoldable pub group_query : GroupFilters → Params
group_query f = set_number "offset" f.offset (
    set_number "limit" f.limit
      (set_text "kind" (named kind_name f.kind) (set_text "search" f.search [])))

unfoldable pub get_network_groups : GroupFilters → Call
unfolding group_query
get_network_groups f = get_call (with_query "/api/v1/network-groups" (group_query f))

entries_json : List NetworkGroupEntry → Items
entries_json [] = nil
entries_json (e ∷ es) =
    cons (obj (field "kind" (str (kind_name e.kind)) (field "pattern" (str e.pattern) end)))
      (entries_json es)

unfoldable pub group_json : String → List NetworkGroupEntry → Json
unfolding entries_json
group_json name entries =
    obj (field "name" (str name) (field "entries" (arr (entries_json entries)) end))

unfoldable pub create_network_group : String → List NetworkGroupEntry → Call
create_network_group name entries =
    send_call "POST" "/api/v1/network-groups" (group_json name entries)

unfoldable pub update_network_group : String → String → List NetworkGroupEntry → Call
update_network_group group_id name entries =
    send_call "PATCH" ("/api/v1/network-groups/" <> seg group_id) (group_json name entries)

unfoldable pub delete_network_group : String → Call
delete_network_group group_id = empty_call "DELETE" ("/api/v1/network-groups/" <> seg group_id)

pub record AccessFilters : Type 0 where
  pub search : Option String
  pub node_id : Option String
  pub network_group_id : Option String
  pub mode : Option AccessMode
  pub direction : Option AccessDirection
  pub limit : Option ℕ
  pub offset : Option ℕ

unfoldable pub access_query : AccessFilters → Params
access_query f = set_number "offset" f.offset (
    set_number "limit" f.limit (
      set_text "direction" (named direction_name f.direction) (
        set_text "mode" (named mode_name f.mode) (
          set_text "network_group_id" f.network_group_id
            (set_text "node_id" f.node_id (set_text "search" f.search []))))))

unfoldable pub get_access_control : AccessFilters → Call
unfolding access_query
get_access_control f = get_call (with_query "/api/v1/access-control" (access_query f))

-- The value of `createAccessControl` and of `updateAccessControl`.
pub record AccessInput : Type 0 where
  pub node_ids : List String
  pub network_group_ids : List String
  pub mode : AccessMode
  pub direction : AccessDirection
  pub reason : String
  pub enabled : Option Bool

abbrev bool_json : Option Bool → Option Json
bool_json none = none
bool_json (some b) = some (bool b)

unfoldable pub access_json : AccessInput → Json
access_json v = obj (
    field "node_ids" (arr (strings v.node_ids)) (
      field "network_group_ids" (arr (strings v.network_group_ids)) (
        field "mode" (str (mode_name v.mode)) (
          field "direction" (str (direction_name v.direction))
            (field "reason" (str v.reason) (optional "enabled" (bool_json v.enabled) end))))))

unfoldable pub create_access_control : AccessInput → Call
create_access_control value = send_call "POST" "/api/v1/access-control" (access_json value)

unfoldable pub update_access_control : String → AccessInput → Call
update_access_control rule_id value =
    send_call "PATCH" ("/api/v1/access-control/" <> seg rule_id) (access_json value)

unfoldable pub delete_access_control : String → Call
delete_access_control rule_id = empty_call "DELETE" ("/api/v1/access-control/" <> seg rule_id)

pub record BlacklistInput : Type 0 where
  pub node_ids : List String
  pub direction : AccessDirection
  pub kind : EntryKind
  pub pattern : String
  pub comment : Option String
  pub enabled : Option Bool

unfoldable pub create_source_blacklist : BlacklistInput → Call
create_source_blacklist v = send_call "POST" "/api/v1/blacklist" (
    obj (
      field "node_ids" (arr (strings v.node_ids)) (
        field "direction" (str (direction_name v.direction)) (
          field "kind" (str (kind_name v.kind)) (
            field "pattern" (str v.pattern) (
              optional "comment" (text_json v.comment)
                (optional "enabled" (bool_json v.enabled) end)))))))

unfoldable pub delete_source_blacklist : String → Call
delete_source_blacklist entry_id = empty_call "DELETE" ("/api/v1/blacklist/" <> seg entry_id)
