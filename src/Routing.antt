-- ===== src/Routing.antt =====
-- frontend/app/routing/page.tsx: the site whose routing policy is edited.
pub mod Sameness
pub mod Importer
pub mod Editor
pub mod Machine
pub mod Answers
pub mod Published
pub mod Switching
use grouproxy.Base.{
  ℕ, zero, String, Bool, true, false, not, ◌&&◌, ◌||◌, Option, none, some, List, [], ◌∷◌, ltb, ◌==◌,
  any, if◌then◌else◌, str_eq,
}
use grouproxy.Api.Settled.{Settled, fulfilled, rejected}
use grouproxy.Api.Session.{is_truthy}
use grouproxy.Api.Url.{trim}
use grouproxy.Api.Calls.{Call}
use grouproxy.Api.Calls.Sites.{
  RoutingRule, RoutingPolicy, RoutingPolicyResponse, FinalOutbound, ImportMode, append, kind_name,
  action_name, final_name, mode_name, preview_routing_import, save_routing_policy,
  publish_routing_policy,
}
use grouproxy.Api.Entities.Nodes.{Node, Site}

-- `siteId` of the page: the chosen site, the site of the first node, or the first site.
abbrev pub first_node_site : List Node → String
first_node_site [] = ""
first_node_site (n ∷ ns) = n.site_id

abbrev pub first_site : List Site → String
first_site [] = ""
first_site (s ∷ ss) = s.id

unfoldable pub shown_site : String → List Node → List Site → String
shown_site selected nodes sites =
    if is_truthy selected
    then selected
    else if is_truthy (first_node_site nodes)
    then first_node_site nodes
    else first_site sites

unfoldable pub has_nodes : String → List Node → Bool
has_nodes site_id nodes = any (λ n. str_eq (Node.site_id n) site_id) nodes
