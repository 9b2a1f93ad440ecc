-- ===== src/Policy.antt =====
-- The pages of access rules and of access groups, frontend/app/access-control/, with the controls of
-- their lists (list-controls.tsx).
pub mod Paging
pub mod Rules
pub mod Groups
pub mod Keys
use grouproxy.Base.{
  ℕ, ◌+◌, ◌-◌, min, String, ◌<>◌, Bool, true, false, not, ◌&&◌, ◌||◌, Option, none, some, List, [],
  ◌∷◌, ◌++◌, all, any, map, length, leb, ◌==◌, if◌then◌else◌, str_eq,
}
use grouproxy.Api.Url.{trim}
use grouproxy.Api.Session.{is_truthy}
use grouproxy.Api.Calls.{Call}
use grouproxy.Api.Calls.Access.{
  EntryKind, ip, cidr, domain, AccessMode, deny, allow, AccessDirection, source, destination,
  NetworkGroupEntry, AccessInput, AccessFilters, create_access_control, update_access_control,
  create_network_group, update_network_group,
}
use grouproxy.Api.Entities.Nodes.{Node}
use grouproxy.Api.Entities.Policy.{NetworkGroup, AccessControlRule}
use grouproxy.Subscriptions.{keep}
use grouproxy.Subscriptions.Publish.{find}

abbrev pub access_page_size : ℕ
access_page_size = 50

-- `from`, `to` and the disabled buttons of `ListPagination`.
unfoldable pub shown_from : ℕ → ℕ → ℕ
shown_from offset total = if total == 0 then 0 else offset + 1

unfoldable pub shown_to : ℕ → ℕ → ℕ → ℕ
shown_to offset page_count total = min (offset + page_count) total

unfoldable pub previous_disabled : ℕ → Bool → Bool
previous_disabled offset fetching = offset == 0 || fetching

unfoldable pub next_disabled : ℕ → ℕ → ℕ → Bool → Bool
next_disabled offset page_count total fetching = leb total (offset + page_count) || fetching

-- The filters of the rules; a field that is `""` does not filter.
pub record RuleFilters : Type 0 where
  pub search : String
  pub node_id : String
  pub group_id : String
  pub mode : String
  pub direction : String

abbrev pub barred : String → String → String
barred a b = a <> ("|" <> b)

-- The text that names the filters.
unfoldable pub filter_key : RuleFilters → String
filter_key f = barred (barred (barred (barred f.search f.node_id) f.group_id) f.mode) f.direction

pub record PageState : Type 0 where
  pub shown_key : String
  pub offset : ℕ

-- What a render makes of the state: a page of other filters is the first one.
unfoldable pub rendered : String → PageState → PageState
rendered key s = if str_eq s.shown_key key then s else record { shown_key = key; offset = 0 }

unfoldable pub previous_page : PageState → PageState
previous_page s = record s { offset = s.offset - access_page_size }

unfoldable pub next_page : PageState → PageState
next_page s = record s { offset = s.offset + access_page_size }

-- `value || undefined`
abbrev pub given : String → Option String
given s = if is_truthy s then some s else none

abbrev pub given_mode : String → Option AccessMode
given_mode s = if str_eq s "allow" then some allow else if str_eq s "deny" then some deny else none

abbrev pub given_direction : String → Option AccessDirection
given_direction s =
    if str_eq s "source"
    then some source
    else if str_eq s "destination"
    then some destination
    else none

-- What `getAccessControl` is asked for; the options of the two selects are the names of their values.
unfoldable pub access_filters : RuleFilters → PageState → AccessFilters
access_filters f s = record {
  search = given f.search;
  node_id = given f.node_id;
  network_group_id = given f.group_id;
  mode = given_mode f.mode;
  direction = given_direction f.direction;
  limit = some access_page_size;
  offset = some s.offset;
}

-- `id` is there where a rule is edited.
pub record RuleDraft : Type 0 where
  pub id : Option String
  pub node_ids : List String
  pub group_ids : List String
  pub group_names : List String
  pub mode : AccessMode
  pub direction : AccessDirection
  pub reason : String

unfoldable pub open_editor : Option AccessControlRule → RuleDraft
open_editor none = record {
  id = none;
  node_ids = [];
  group_ids = [];
  group_names = [];
  mode = deny;
  direction = source;
  reason = "";
}
open_editor (some rule) = record {
  id = some rule.id;
  node_ids = rule.node_ids;
  group_ids = rule.network_group_ids;
  group_names = rule.network_group_names;
  mode = rule.mode;
  direction = rule.direction;
  reason = rule.reason;
}

-- The box of a node or of a group in `RuleForm`.
unfoldable pub toggle_item : String → List String → List String
toggle_item id items =
    if any (λ item. str_eq item id) items
    then keep (λ item. not (str_eq item id)) items
    else items ++ (id ∷ [])

unfoldable pub rule_payload : RuleDraft → AccessInput
rule_payload d = record {
  node_ids = d.node_ids;
  network_group_ids = d.group_ids;
  mode = d.mode;
  direction = d.direction;
  reason = trim d.reason;
  enabled = some true;
}

unfoldable pub save_rule : RuleDraft → Call
save_rule d = elim d.id [
  | none ↦ create_access_control (rule_payload d)
  | some id ↦
      if is_truthy id
      then update_access_control id (rule_payload d)
      else create_access_control (rule_payload d)
]

abbrev pub is_some_item : {A : Type 0} → List A → Bool
is_some_item [] = false
is_some_item (_ ∷ _) = true

unfoldable pub rule_complete : RuleDraft → Bool
rule_complete d = is_some_item d.group_ids && (is_some_item d.node_ids && is_truthy (trim d.reason))

-- `submit`: the call, if the form is complete and no call is on its way.
unfoldable pub submit_rule : Bool → RuleDraft → Option Call
submit_rule saving d = if rule_complete d && not saving then some (save_rule d) else none
