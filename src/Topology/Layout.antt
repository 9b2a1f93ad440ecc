-- ===== src/Topology/Layout.antt =====
-- Every node has its place in the drawing, and every site its edge.
use grouproxy.Base.{
  ℕ, suc, ◌+◌, ◌*◌, ◌≤◌, String, ◌<>◌, Bool, true, false, ◌≡◌, refl, ap, Option, List, [], ◌∷◌, map,
  length, All, arith,
}
use grouproxy.Release.{Translator}
use grouproxy.Topology.{
  Direction, TopologySite, EdgeSiteNode, Edge, site_step, first_site_y, final_site_y, control_y,
  flow_height, site_node, site_nodes, control_node, edge_to, flow, is_compact, direction_of,
}

-- The site stands in the drawing, at least 94 points above its end.
abbrev pub Fits : ℕ → EdgeSiteNode → Type 0
Fits height node = node.position.y + 94 ≤ height

-- Each site stands at least a step of 92 points below the ones before it.
abbrev pub Spaced : List EdgeSiteNode → Type 0
Spaced [] = Unit
Spaced (n ∷ ns) = All (λ (m : EdgeSiteNode). n.position.y + 92 ≤ m.position.y) ns × Spaced ns

height-room :
    (compact : Bool) (count index : ℕ)
    → suc index ≤ count
    → first_site_y compact + index * site_step compact + 94 ≤ flow_height compact count
unfolding flow_height final_site_y
height-room true count index h = ground arith
height-room false count index h = ground arith

control-room :
    (compact : Bool) (count : ℕ) → control_y compact count + 94 ≤ flow_height compact count
unfolding control_y flow_height final_site_y
control-room true count = ground arith
control-room false count = ground arith

module _ (t : Translator) (format_number : ℕ → String) where
  site_nodes-Fits :
      (compact : Bool) (direction : Direction) (selected : Option String) (count index : ℕ)
      (sites : List TopologySite)
      → index + length sites ≤ count
      → All
          (Fits (flow_height compact count))
          (site_nodes t format_number compact direction selected index sites)
  unfolding site_nodes site_node
  site_nodes-Fits compact direction selected count index [] h = tt
  site_nodes-Fits compact direction selected count index (entry ∷ more) h = (
    omega (arith, height-room compact count index (omega arith)),
    site_nodes-Fits compact direction selected count (suc index) more (omega arith),
  )

  site_nodes-below :
      (compact : Bool) (direction : Direction) (selected : Option String) (y index : ℕ)
      (sites : List TopologySite)
      → y + 92 ≤ first_site_y compact + index * site_step compact
      → All
          (λ (m : EdgeSiteNode). y + 92 ≤ m.position.y)
          (site_nodes t format_number compact direction selected index sites)
  unfolding site_nodes site_node
  site_nodes-below compact direction selected y index [] h = tt
  site_nodes-below true direction selected y index (entry ∷ more) h =
      (h, site_nodes-below true direction selected y (suc index) more (omega arith))
  site_nodes-below false direction selected y index (entry ∷ more) h =
      (h, site_nodes-below false direction selected y (suc index) more (omega arith))

  site_nodes-Spaced :
      (compact : Bool) (direction : Direction) (selected : Option String) (index : ℕ)
      (sites : List TopologySite)
      → Spaced (site_nodes t format_number compact direction selected index sites)
  unfolding site_nodes site_node
  site_nodes-Spaced compact direction selected index [] = tt
  site_nodes-Spaced true direction selected index (entry ∷ more) = (
    site_nodes-below true direction selected _ (suc index) more (omega arith),
    site_nodes-Spaced true direction selected (suc index) more,
  )
  site_nodes-Spaced false direction selected index (entry ∷ more) = (
    site_nodes-below false direction selected _ (suc index) more (omega arith),
    site_nodes-Spaced false direction selected (suc index) more,
  )

  -- Whatever the sites and the orientation, each site stands at least 92 points below the ones
  -- before it, and each site and the control plane stand at least 94 points above the end of the
  -- drawing.
  pub flow-Fits :
      (orientation : Option Direction) (responsive : Bool) (selected : Option String)
      (sites : List TopologySite) (online total : ℕ)
      → let drawn = flow t format_number orientation responsive selected sites online total in
        Spaced drawn.sites
        × All (Fits drawn.height) drawn.sites
        × (drawn.control.position.y + 94 ≤ drawn.height)
  unfolding flow control_node
  flow-Fits orientation responsive selected sites online total =
      let compact = is_compact orientation responsive in
      let direction = direction_of orientation responsive in
      (
        site_nodes-Spaced compact direction selected 0 sites,
        site_nodes-Fits compact direction selected (length sites) 0 sites (omega arith),
        control-room compact (length sites),
      )

  abbrev pub site_key : TopologySite → String
  site_key entry = "site-" <> entry.site.id

  site_nodes-ids :
      (compact : Bool) (direction : Direction) (selected : Option String) (index : ℕ)
      (sites : List TopologySite)
      → map
          (λ (e : Edge). e.target)
          (map
            (edge_to t format_number)
            (site_nodes t format_number compact direction selected index sites))
        ≡ map site_key sites
  unfolding site_nodes site_node edge_to
  site_nodes-ids compact direction selected index [] = refl
  site_nodes-ids compact direction selected index (entry ∷ more) =
      ap (λ l. site_key entry ∷ l) (site_nodes-ids compact direction selected (suc index) more)

  sources :
      (nodes : List EdgeSiteNode)
      → All (λ (e : Edge). e.source ≡ "control-plane") (map (edge_to t format_number) nodes)
  unfolding edge_to
  sources [] = tt
  sources (n ∷ ns) = (refl, sources ns)

  -- The edges lead from the control plane to the sites, one to each, in the order of the sites.
  pub edges-flow :
      (orientation : Option Direction) (responsive : Bool) (selected : Option String)
      (sites : List TopologySite) (online total : ℕ)
      → let drawn = flow t format_number orientation responsive selected sites online total in
        (map (λ (e : Edge). e.target) drawn.edges ≡ map site_key sites)
        × All (λ (e : Edge). e.source ≡ drawn.control.id) drawn.edges
  unfolding flow control_node
  edges-flow orientation responsive selected sites online total = (
    site_nodes-ids (is_compact orientation responsive) (direction_of orientation responsive)
        selected 0 sites,
    sources _,
  )
