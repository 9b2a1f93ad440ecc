-- ===== src/Proxies.antt =====
-- frontend/app/proxies/page.tsx: the status of endpoints and groups, the endpoints that are shown, and
-- the chosen site and node.
pub mod Selection
pub mod Endpoints
use grouproxy.Base.{
  ℕ, String, Bool, true, false, not, ◌&&◌, ◌||◌, Option, none, some, List, [], ◌∷◌, any, all, map,
  leb, ◌==◌, if◌then◌else◌, str_eq,
}
use grouproxy.Base.Dict.{lookup}
use grouproxy.Api.Url.{trim}
use grouproxy.Api.Entities.Nodes.{Site, Node, ProxyEndpoint, ProxyGroup}
use grouproxy.Api.Calls.{Call}
use grouproxy.Api.Calls.Nodes.{
  ProxySelectionRequest, ExpectedVersion, none_yet, version, select_node_proxy,
}

abbrev pub is_dead : Option Bool → Bool
is_dead (some false) = true
is_dead _ = false

unfoldable pub endpoint_status : ProxyEndpoint → String
endpoint_status endpoint = if is_dead endpoint.alive then "offline" else elim endpoint.delay_ms [
  | none ↦ "pending"
  | some delay ↦
      if leb delay 250 then "online" else if leb delay 800 then "degraded" else "attention"
]

-- Whether the endpoint's status is the given one.
abbrev pub has_status : String → ProxyEndpoint → Bool
has_status status endpoint = str_eq (endpoint_status endpoint) status

unfoldable pub group_status : ProxyGroup → String
group_status group = elim group.nodes [
  | [] ↦ "pending"
  | first ∷ more ↦
      if all (has_status "offline") (first ∷ more)
      then "offline"
      else if any (has_status "online") (first ∷ more)
      then "online"
      else "degraded"
]

abbrev pub latency_history_tone : Option ℕ → String
latency_history_tone none = "unknown"
latency_history_tone (some delay) =
    if leb delay 250 then "good" else if leb delay 800 then "slow" else "bad"

-- An endpoint that the group names and the monitor did not describe.
abbrev pub unknown_endpoint : String → ProxyEndpoint
unknown_endpoint name = record {
  name = name;
  type = "unknown";
  udp = false;
  alive = none;
  delay_ms = none;
  history = [];
}

-- `endpointByName.get(name)`: of two endpoints with the name, the later one is in the map.
unfoldable pub endpoint_by_name : String → List ProxyEndpoint → Option ProxyEndpoint
endpoint_by_name name [] = none
endpoint_by_name name (endpoint ∷ more) = elim (endpoint_by_name name more) [
  | some later ↦ some later
  | none ↦ if str_eq endpoint.name name then some endpoint else none
]

abbrev or_unknown : String → Option ProxyEndpoint → ProxyEndpoint
or_unknown name none = unknown_endpoint name
or_unknown name (some endpoint) = endpoint

unfoldable pub endpoints_of : List ProxyEndpoint → List String → List ProxyEndpoint
unfolding endpoint_by_name
endpoints_of nodes [] = []
endpoints_of nodes (name ∷ names) =
    or_unknown name (endpoint_by_name name nodes) ∷ endpoints_of nodes names

-- `lower` is `toLocaleLowerCase` and `includes` is `String.prototype.includes`.
module _ (lower : String → String) (includes : String → String → Bool) where
  abbrev pub is_shown : String → String → ProxyEndpoint → Bool
  is_shown search status endpoint =
      let wanted = lower (trim search) in
      (str_eq wanted "" || includes (lower endpoint.name) wanted)
      && (str_eq status "" || str_eq (endpoint_status endpoint) status)

  unfoldable pub filtered_endpoints : String → String → List ProxyEndpoint → List ProxyEndpoint
  filtered_endpoints search status [] = []
  filtered_endpoints search status (endpoint ∷ more) =
      let rest = filtered_endpoints search status more in
      if is_shown search status endpoint then endpoint ∷ rest else rest

pub record PendingSelection : Type 0 where
  pub node : Node
  pub endpoint : ProxyEndpoint

-- `desired_version || null`
abbrev pub version_or_null : ℕ → ExpectedVersion
version_or_null n = if n == 0 then none_yet else version n

-- The call of `selectMutation`.
unfoldable pub select_mutation : PendingSelection → Call
select_mutation s = select_node_proxy s.node.id (record {
  group = "subscription";
  outbound = s.endpoint.name;
  expected_current_version = version_or_null s.node.desired_version;
  note = some "Selected from proxy operations view";
})

pub record PageState : Type 0 where
  pub site_id : String
  pub node_id : String
  pub search : String
  pub status : String
  pub pending : Option PendingSelection

abbrev pub knows_site : List Site → String → Bool
knows_site sites id = any (λ (site : Site). str_eq site.id id) sites

abbrev pub knows_node : List Node → String → Bool
knows_node nodes id = any (λ (node : Node). str_eq node.id id) nodes

-- `siteNodes`
unfoldable pub site_nodes : String → List Node → List Node
site_nodes site_id [] = []
site_nodes site_id (node ∷ nodes) =
    let rest = site_nodes site_id nodes in if str_eq node.site_id site_id then node ∷ rest else rest

-- The first site with a node.
unfoldable pub enrolled_site : List Site → List Node → Option String
enrolled_site [] nodes = none
enrolled_site (site ∷ sites) nodes =
    let rest = enrolled_site sites nodes in
    if any (λ (node : Node). str_eq node.site_id site.id) nodes then some site.id else rest

abbrev pub first_site : List Site → String
first_site [] = ""
first_site (site ∷ sites) = site.id

-- `enrolledSite?.id || siteItems[0]?.id || ""`
unfoldable pub initial_site_id : List Site → List Node → String
unfolding enrolled_site
initial_site_id sites nodes = elim (enrolled_site sites nodes) [
  | none ↦ first_site sites
  | some id ↦ if str_eq id "" then first_site sites else id
]

-- The first effect, with the inventory there: the new value of the chosen site.
unfoldable pub next_site : List Site → List Node → String → String
unfolding initial_site_id
next_site sites nodes chosen =
    if str_eq chosen ""
    then initial_site_id sites nodes
    else if knows_site sites chosen
    then chosen
    else initial_site_id sites nodes

abbrev pub first_node : List Node → String
first_node [] = ""
first_node (node ∷ nodes) = node.id

-- The second effect, on the nodes of the chosen site.
unfoldable pub keep_node : List Node → PageState → PageState
keep_node nodes s =
    if str_eq s.node_id "" || not (knows_node nodes s.node_id)
    then record s { node_id = first_node nodes; search = ""; status = "" }
    else s

-- Both effects after a render, each reading what was rendered.
unfoldable pub run_effects : Bool → List Site → List Node → PageState → PageState
unfolding next_site keep_node site_nodes
run_effects ready sites nodes s = record (keep_node (site_nodes s.site_id nodes) s) {
  site_id = if ready then next_site sites nodes s.site_id else s.site_id;
}

-- The choice of a site and of a node by their tabs.
unfoldable pub choose_site : String → PageState → PageState
choose_site id s = record s { site_id = id; node_id = ""; search = ""; status = "" }

unfoldable pub choose_node : String → PageState → PageState
choose_node id s = record s { node_id = id; search = ""; status = "" }
