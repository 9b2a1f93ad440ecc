-- ===== src/Routing/Switching.antt =====
-- What the page of frontend/app/routing/page.tsx shows after another site is chosen.
use grouproxy.Base.{test_of_ne, false, ◌≡◌, ◌≢◌, refl, none, ==_iff, String, any}
use grouproxy.Api.Calls.Sites.{RoutingPolicyResponse, save_routing_policy}
use grouproxy.Routing.Sameness.{same_policy}
use grouproxy.Routing.Editor.{
  opened, receive, choose_site, save_disabled, save_call, has_no_pattern,
}

-- When another site is chosen whose policy is not in the cache, and then arrives with the number of
-- revision that the policy of the first site has, the editor goes on showing the policy of the first
-- site, as a change of the second one: its button saves it there. The two policies differ, and every
-- rule of the first one has a pattern.
pub choose_site-saves :
    (first second : RoutingPolicyResponse) (site other : String)
    → other ≢ site
    → second.revision ≡ first.revision
    → same_policy first.policy second.policy ≡ false
    → any has_no_pattern first.policy.rules ≡ false
    → let e = receive second (choose_site other none (opened site first)) in
      (e.policy ≡ first.policy)
      × (e.site ≡ other)
      × (save_disabled e ≡ false)
      × (save_call e ≡ save_routing_policy second.site_id second.revision first.policy)
unfolding receive choose_site save_disabled save_call
choose_site-saves first second site other apart same differ given =
    rw (test_of_ne other site apart, (==_iff second.revision first.revision).1 same, differ, given)
      (refl, refl, refl, refl)
