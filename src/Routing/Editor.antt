-- ===== src/Routing/Editor.antt =====
-- The editor of one site's policy: `RoutingEditor` of frontend/app/routing/page.tsx.
use grouproxy.Base.{
  Option, none, some, String, Bool, true, false, not, ◌&&◌, ◌||◌, ltb, ◌==◌, any, if◌then◌else◌,
  str_eq,
}
use grouproxy.Api.Settled.{Settled, fulfilled, rejected}
use grouproxy.Api.Session.{is_truthy}
use grouproxy.Api.Url.{trim}
use grouproxy.Api.Calls.{Call}
use grouproxy.Api.Calls.Sites.{
  RoutingRule, RoutingPolicy, RoutingPolicyResponse, FinalOutbound, save_routing_policy,
  publish_routing_policy,
}
use grouproxy.Routing.Sameness.{same_policy}
use grouproxy.Routing.Importer.{Importer, first_importer, apply_import}

-- A mutation of the query library: `mutate` makes it pending, and `reset` idle.
pub data Mutation (A : Type 0) : Type 0 where
  idle pending : Mutation A
  failed : String → Mutation A
  succeeded : A → Mutation A

abbrev pub is_pending : {A : Type 0} → Mutation A → Bool
is_pending idle = false
is_pending pending = true
is_pending (failed _) = false
is_pending (succeeded _) = false

-- What the editor remembers: `site` is the page's site, which with the revision is its key, and
-- `loaded` the answer that the query of policies has.
pub record Editor : Type 0 where
  pub site : String
  pub loaded : RoutingPolicyResponse
  pub policy : RoutingPolicy
  pub confirm : Bool
  pub release_id : String
  pub save : Mutation RoutingPolicyResponse
  pub publish : Mutation String
  pub importer : Importer

unfoldable pub opened : String → RoutingPolicyResponse → Editor
opened site loaded = record {
  site = site;
  loaded = loaded;
  policy = loaded.policy;
  confirm = false;
  release_id = "";
  save = idle;
  publish = idle;
  importer = first_importer;
}

unfoldable pub is_dirty : Editor → Bool
unfolding same_policy
is_dirty e = not (same_policy e.policy e.loaded.policy)

unfoldable pub editor_busy : Editor → Bool
editor_busy e = is_pending e.save || is_pending e.publish

abbrev pub has_no_pattern : RoutingRule → Bool
has_no_pattern r = not (is_truthy (trim r.pattern))

unfoldable pub save_disabled : Editor → Bool
unfolding is_dirty editor_busy
save_disabled e =
    editor_busy e
    || (not (is_dirty e) && ltb 0 e.loaded.revision)
    || any has_no_pattern e.policy.rules

unfoldable pub publish_disabled : Bool → Editor → Bool
unfolding is_dirty editor_busy
publish_disabled has_nodes e =
    editor_busy e || is_dirty e || e.loaded.revision == 0 || not has_nodes

-- What the two mutations send.
unfoldable pub save_call : Editor → Call
save_call e = save_routing_policy e.loaded.site_id e.loaded.revision e.policy

unfoldable pub publish_call : Editor → Call
publish_call e = publish_routing_policy e.loaded.site_id e.loaded.revision

-- The policy of the page's site has arrived: another revision has another key and begins a new editor.
unfoldable pub receive : RoutingPolicyResponse → Editor → Editor
unfolding opened
receive loaded e =
    if loaded.revision == e.loaded.revision
    then record e { loaded = loaded }
    else opened e.site loaded

-- Another site is chosen, and the query has what the cache holds for it. Without such an answer it
-- keeps the last one, which is `placeholderData` of frontend/app/providers.tsx.
unfoldable pub choose_site : String → Option RoutingPolicyResponse → Editor → Editor
unfolding opened
choose_site id cached e =
    if str_eq id e.site
    then e
    else (elim cached [ none ↦ opened id e.loaded | some loaded ↦ opened id loaded ])

-- A save stores its answer under the site that it was made for.
unfoldable pub save_settled : Settled RoutingPolicyResponse → Editor → Editor
unfolding receive
save_settled (fulfilled loaded) e =
    if str_eq e.loaded.site_id e.site
    then receive loaded (record e { save = succeeded loaded })
    else record e { save = succeeded loaded }
save_settled (rejected message) e = record e { save = failed message }

unfoldable pub publish_settled : Settled String → Editor → Editor
publish_settled (fulfilled release_id) e = record e {
  publish = succeeded release_id;
  release_id = release_id;
  confirm = false;
}
publish_settled (rejected message) e = record e { publish = failed message }

-- The controls of the policy.
pub data Edit : Type 0 where
  private_direct cn_direct : Bool → Edit
  final : FinalOutbound → Edit

unfoldable pub edit_policy : Edit → RoutingPolicy → RoutingPolicy
edit_policy (private_direct checked) p = record p { private_direct = checked }
edit_policy (cn_direct checked) p = record p { cn_direct = checked }
edit_policy (final outbound) p = record p { final = outbound }

-- `onApply` is `setPolicy`.
unfoldable pub apply_to_editor : Editor → Editor
unfolding apply_import
apply_to_editor e =
    let (policy, importer) = apply_import e.policy e.importer in
    record e { policy = policy; importer = importer }
