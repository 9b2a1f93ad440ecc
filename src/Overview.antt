-- ===== src/Overview.antt =====
-- frontend/app/overview/page.tsx: the state of a site, the site that is selected, the message on
-- drift, and the totals of its traffic.
pub mod Traffic
pub mod Selected
pub mod Buckets
pub mod Latest
use grouproxy.Base.{
  ℕ, ◌+◌, String, ◌<>◌, Bool, true, false, not, ◌&&◌, ◌||◌, Option, none, some, List, [], ◌∷◌, map,
  any, length, ltb, ◌==◌, if◌then◌else◌, str_eq,
}
use grouproxy.Api.Session.{is_truthy}
use grouproxy.Api.Entities.Nodes.{Site, Node}
use grouproxy.Topology.{TopologySite}
use grouproxy.Toast.{ToastInput, destructive}
use grouproxy.Subscriptions.{keep}
use grouproxy.Subscriptions.Publish.{find, head, or_else}

abbrev is_broken : Node → Bool
is_broken n = str_eq n.config_status "rollback_failed" || str_eq n.service_status "unhealthy"

abbrev is_behind : Node → Bool
is_behind n = not (str_eq n.liveness_status "online") || not (str_eq n.config_status "in_sync")

unfoldable pub site_state : Site → List Node → String
site_state site [] = if site.shutdown then "shutdown" else "not enrolled"
site_state site (node ∷ nodes) =
    if site.shutdown
    then "shutdown"
    else if any is_broken (node ∷ nodes)
    then "attention"
    else if any is_behind (node ∷ nodes)
    then "degraded"
    else "healthy"

-- `nodesBySite.get(id)`: the map has an entry for each site.
unfoldable pub nodes_of : List Node → String → List Node
nodes_of nodes id = keep (λ n. str_eq (Node.site_id n) id) nodes

unfoldable pub topology_sites : List Node → List Site → List TopologySite
topology_sites nodes [] = []
topology_sites nodes (site ∷ sites) =
    let own = nodes_of nodes (Site.id site) in
    record { site = site; state = site_state site own; node_count = length own }
    ∷ topology_sites nodes sites

unfoldable pub is_active_release : String → Bool
is_active_release status =
    str_eq status "queued"
    || str_eq status "applying"
    || str_eq status "health_check"
    || str_eq status "rolling_back"

abbrev pub has_id : String → Site → Bool
has_id id site = str_eq site.id id

-- The first site with a node, or the first site.
unfoldable pub preferred_site : List Site → List Node → Option Site
preferred_site sites nodes =
    or_else (find (λ site. any (λ n. str_eq (Node.site_id n) (Site.id site)) nodes) sites)
      (head sites)

abbrev pub list_or_none : {A : Type 0} → Option (List A) → List A
list_or_none none = []
list_or_none (some xs) = xs

abbrev pub id_or_none : Option Site → String
id_or_none none = ""
id_or_none (some site) = site.id

abbrev pub is_loaded : {A : Type 0} → Option A → Bool
is_loaded none = false
is_loaded (some _) = true

-- The effect that keeps a site selected; the data are `none` until they are loaded.
unfoldable pub select_site : Option (List Site) → Option (List Node) → String → String
select_site sites nodes selected =
    let preferred = preferred_site (list_or_none sites) (list_or_none nodes) in
    if is_truthy selected
    then (if any (has_id selected) (list_or_none sites) then selected else id_or_none preferred)
    else if is_loaded sites && is_loaded nodes
    then id_or_none preferred
    else selected

-- `value || 0`
abbrev pub or_zero : Option ℕ → ℕ
or_zero none = 0
or_zero (some n) = n

abbrev pub was_seen : ℕ → Option ℕ → Bool
was_seen count none = false
was_seen count (some last) = last == count

-- The effect that reports drift: the message, if one is sent, and what it remembers.
-- `format_number` is a formatter of the browser, and `t` puts the count into the text.
unfoldable pub report_drift :
    (String → String → String) → (ℕ → String) → Option ℕ → Option ℕ → Option ToastInput × Option ℕ
report_drift t format_number drifted last = (
  if ltb 0 (or_zero drifted) && not (was_seen (or_zero drifted) last)
      then some (record {
        title = t "{count} nodes need attention" (format_number (or_zero drifted));
        description =
            some (t "Configuration or service state differs from the desired release." "");
        variant = some destructive;
        duration = none;
      })
      else none,
  some (or_zero drifted),
)
