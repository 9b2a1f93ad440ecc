-- ===== src/Proxies/Selection.antt =====
-- The chosen site and node settle.
use grouproxy.Base.{
  String, true, not, ◌||◌, ◌≡◌, refl, ap, sym, ◌∙◌, some, List, [], ◌∷◌, arith, str_eq, eq_iff,
  eq_refl, Bool-cases, Option-cases, ◌⊎◌, inl, inr,
}
use grouproxy.Api.Entities.Nodes.{Site, Node}
use grouproxy.Proxies.{
  PageState, knows_site, knows_node, site_nodes, enrolled_site, first_site, initial_site_id,
  next_site, first_node, keep_node, run_effects,
}

knows-first_site :
    (sites : List Site) → (first_site sites ≡ "") ⊎ (knows_site sites (first_site sites) ≡ true)
knows-first_site [] = inl refl
knows-first_site (site ∷ sites) = inr (ground (arith, eq_refl site.id))

knows-enrolled_site :
    (sites : List Site) (nodes : List Node) (id : String)
    → enrolled_site sites nodes ≡ some id
    → knows_site sites id ≡ true
unfolding enrolled_site
knows-enrolled_site [] nodes id e = absurd (cc e)
knows-enrolled_site (site ∷ sites) nodes id e =
    ground (arith, eq_iff site.id id, knows-enrolled_site sites nodes id)

-- The site that is chosen first is a site, or there is none.
initial_site_id-cases :
    (sites : List Site) (nodes : List Node)
    → (initial_site_id sites nodes ≡ "") ⊎ (knows_site sites (initial_site_id sites nodes) ≡ true)
unfolding initial_site_id
initial_site_id-cases sites nodes = elim (Option-cases (enrolled_site sites nodes)) [
  | inl missing ↦ rw (missing, initial_site_id) (knows-first_site sites)
  | inr (id, found) ↦
      ground (
        arith,
        found,
        eq_iff id "",
        knows-first_site sites,
        knows-enrolled_site sites nodes id found,
      )
]

next_site_idempotent :
    (sites : List Site) (nodes : List Node) (chosen : String)
    → next_site sites nodes (next_site sites nodes chosen) ≡ next_site sites nodes chosen
unfolding next_site
next_site_idempotent sites nodes chosen = ground (arith, initial_site_id-cases sites nodes)

knows-first_node :
    (nodes : List Node) → (first_node nodes ≡ "") ⊎ (knows_node nodes (first_node nodes) ≡ true)
knows-first_node [] = inl refl
knows-first_node (node ∷ nodes) = inr (ground (arith, eq_refl node.id))

keep_node_idempotent :
    (nodes : List Node) (s : PageState) → keep_node nodes (keep_node nodes s) ≡ keep_node nodes s
unfolding keep_node
keep_node_idempotent nodes s =
    elim (Bool-cases (str_eq s.node_id "" || not (knows_node nodes s.node_id))) [
      | inl reset ↦ rw reset (ground (arith, knows-first_node nodes))
      | inr kept ↦ rw (kept, kept) refl
    ]

next_site-cases :
    (sites : List Site) (nodes : List Node) (chosen : String)
    → (next_site sites nodes chosen ≡ "") ⊎ (knows_site sites (next_site sites nodes chosen) ≡ true)
unfolding next_site
next_site-cases sites nodes chosen = ground (arith, initial_site_id-cases sites nodes)

keep_node-cases :
    (nodes : List Node) (s : PageState)
    → ((keep_node nodes s).node_id ≡ "") ⊎ (knows_node nodes (keep_node nodes s).node_id ≡ true)
unfolding keep_node
keep_node-cases nodes s =
    elim (Bool-cases (str_eq s.node_id "" || not (knows_node nodes s.node_id))) [
      | inl reset ↦ rw reset (knows-first_node nodes)
      | inr kept ↦ rw kept (ground arith)
    ]

site_id-keep_node : (nodes : List Node) (s : PageState) → (keep_node nodes s).site_id ≡ s.site_id
unfolding keep_node
site_id-keep_node nodes s = ground arith

module _ (sites : List Site) (nodes : List Node) where
  abbrev pub after : PageState → PageState
  after = run_effects true sites nodes

  -- The nodes of the chosen site.
  abbrev chosen_nodes : PageState → List Node
  chosen_nodes s = site_nodes s.site_id nodes

  abbrev HasSettledSite : PageState → Type 0
  HasSettledSite s = next_site sites nodes s.site_id ≡ s.site_id

  site_id-after : (s : PageState) → (after s).site_id ≡ next_site sites nodes s.site_id
  unfolding run_effects
  site_id-after s = refl

  after-HasSettledSite : (s : PageState) → HasSettledSite (after s)
  after-HasSettledSite s = rw (site_id-after s) (next_site_idempotent sites nodes s.site_id)

  after_settled : (s : PageState) → HasSettledSite s → after s ≡ keep_node (chosen_nodes s) s
  unfolding run_effects keep_node
  after_settled s h =
      elim (Bool-cases (str_eq s.node_id "" || not (knows_node (chosen_nodes s) s.node_id))) [
        | inl reset ↦ rw (h, reset) refl
        | inr kept ↦ rw (h, kept) refl
      ]

  -- The state after two renders.
  after_twice : (s : PageState) → after (after s) ≡ keep_node (chosen_nodes (after s)) (after s)
  after_twice s = after_settled (after s) (after-HasSettledSite s)

  kept-HasSettledSite :
      (some_nodes : List Node) (s : PageState)
      → HasSettledSite s
      → HasSettledSite (keep_node some_nodes s)
  kept-HasSettledSite some_nodes s h = rw (site_id-keep_node some_nodes s) h

  keep_again :
      (s : PageState)
      → keep_node (chosen_nodes (keep_node (chosen_nodes s) s)) (keep_node (chosen_nodes s) s)
        ≡ keep_node (chosen_nodes s) s
  keep_again s =
      let kept = keep_node (chosen_nodes s) s in
      ap (λ id. keep_node (site_nodes id nodes) kept) (site_id-keep_node (chosen_nodes s) s)
      ∙ keep_node_idempotent (chosen_nodes s) s

  -- The effects of a loaded page end: after two renders a further one changes nothing.
  pub run_effects_settles : (s : PageState) → after (after (after s)) ≡ after (after s)
  run_effects_settles s =
      let u = after s in
      let kept = keep_node (chosen_nodes u) u in
      ap after (after_twice s)
      ∙ after_settled kept (kept-HasSettledSite (chosen_nodes u) u (after-HasSettledSite s))
      ∙ keep_again u
      ∙ sym (after_twice s)

  -- After two renders of a loaded page the chosen site is one of the sites, or there is none, and
  -- the chosen node is a node of that site, or there is none.
  pub run_effects-knows :
      (s : PageState)
      → (((after (after s)).site_id ≡ "") ⊎ (knows_site sites (after (after s)).site_id ≡ true))
        × (((after (after s)).node_id ≡ "")
            ⊎ (knows_node (site_nodes (after (after s)).site_id nodes) (after (after s)).node_id
                ≡ true))
  run_effects-knows s =
      let u = after s in
      let ns = chosen_nodes u in
      (
        rw (site_id-after u) (next_site-cases sites nodes u.site_id),
        rw (after_twice s, site_id-keep_node ns u) (keep_node-cases ns u),
      )
