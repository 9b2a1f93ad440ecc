-- ===== src/Topology.antt =====
-- frontend/components/control-plane-topology.tsx: where the control plane and the sites stand in the
-- drawing, and the edges between them. `compact` and `direction` come from the orientation.
pub mod Layout
use grouproxy.Base.{
  ℕ, zero, suc, ◌+◌, ◌-◌, ◌*◌, ◌/◌, max, String, ◌<>◌, Bool, true, false, ◌||◌, Option, none, some,
  List, [], ◌∷◌, map, length, ◌==◌, if◌then◌else◌, str_eq,
}
use grouproxy.Release.{Translator}
use grouproxy.Api.Entities.Nodes.{Site}

pub data Direction : Type 0 where
  horizontal vertical : Direction

pub data Tone : Type 0 where
  healthy warning danger neutral : Tone

pub record TopologySite : Type 0 where
  pub site : Site
  pub state : String
  pub node_count : ℕ

pub record Position : Type 0 where
  pub x : ℕ
  pub y : ℕ

pub record ControlPlaneNode : Type 0 where
  pub id : String
  pub position : Position
  pub direction : Direction
  pub eyebrow : String
  pub title : String
  pub detail : String
  pub status : String
  pub width : ℕ

pub record EdgeSiteNode : Type 0 where
  pub id : String
  pub position : Position
  pub direction : Direction
  pub site_id : String
  pub name : String
  pub detail : String
  pub status : String
  pub tone : Tone
  pub selected : Bool
  pub width : ℕ

pub record Edge : Type 0 where
  pub id : String
  pub source : String
  pub target : String
  pub animated : Bool
  pub color : String

pub record Flow : Type 0 where
  pub control : ControlPlaneNode
  pub sites : List EdgeSiteNode
  pub edges : List Edge
  pub height : ℕ

unfoldable pub tone_for_state : String → Tone
tone_for_state state =
    if str_eq state "healthy"
    then healthy
    else if str_eq state "degraded"
    then warning
    else if str_eq state "attention" || str_eq state "shutdown"
    then danger
    else neutral

abbrev pub edge_color : Tone → String
edge_color healthy = "var(--gp-green-dark)"
edge_color warning = "var(--gp-warning)"
edge_color danger = "var(--gp-danger)"
edge_color neutral = "var(--gp-line-strong)"

abbrev pub is_animated : Tone → Bool
is_animated healthy = true
is_animated warning = true
is_animated danger = false
is_animated neutral = false

-- `orientation ? orientation === "vertical" : responsiveCompact`
abbrev pub is_compact : Option Direction → Bool → Bool
is_compact none responsive = responsive
is_compact (some vertical) responsive = true
is_compact (some horizontal) responsive = false

abbrev pub direction_of : Option Direction → Bool → Direction
direction_of none responsive = if responsive then vertical else horizontal
direction_of (some d) responsive = d

abbrev pub site_step : Bool → ℕ
site_step compact = if compact then 92 else 94

abbrev pub first_site_y : Bool → ℕ
first_site_y compact = if compact then 124 else 12

-- `Math.max(0, sites.length - 1)` is the subtraction that stops at 0.
unfoldable pub final_site_y : Bool → ℕ → ℕ
final_site_y compact count = first_site_y compact + (count - 1) * site_step compact

-- The half is whole: without compactness the last site stands at 12 + 94 k.
unfoldable pub control_y : Bool → ℕ → ℕ
control_y compact count = if compact then 12 else max 12 (final_site_y compact count / 2)

unfoldable pub flow_height : Bool → ℕ → ℕ
flow_height compact count =
    if compact
    then max 430 (final_site_y compact count + 94)
    else max 360 (final_site_y compact count + 94)

-- `selectedSiteId === site.id`
abbrev is_selected : Option String → String → Bool
is_selected none id = false
is_selected (some chosen) id = str_eq chosen id

module _ (t : Translator) (format_number : ℕ → String) where
  abbrev node_detail : ℕ → String
  node_detail count =
      if count == 0
      then t "No node enrolled" []
      else format_number count <> (" " <> t (if count == 1 then "node" else "nodes") [])

  unfoldable pub site_node : Bool → Direction → Option String → TopologySite → ℕ → EdgeSiteNode
  site_node compact direction selected entry index = record {
    id = "site-" <> entry.site.id;
    position = record {
      x = if compact then 54 else 288;
      y = first_site_y compact + index * site_step compact;
    };
    direction = direction;
    site_id = entry.site.id;
    name = t entry.site.name [];
    detail = node_detail entry.node_count;
    status = t entry.state [];
    tone = tone_for_state entry.state;
    selected = is_selected selected entry.site.id;
    width = if compact then 228 else 238;
  }

  -- `sites.map((…, index) => …)`, from an index on.
  unfoldable pub site_nodes :
      Bool → Direction → Option String → ℕ → List TopologySite → List EdgeSiteNode
  unfolding site_node
  site_nodes compact direction selected index [] = []
  site_nodes compact direction selected index (entry ∷ more) =
      site_node compact direction selected entry index
      ∷ site_nodes compact direction selected (suc index) more

  unfoldable pub control_node : Bool → Direction → ℕ → ℕ → ℕ → ControlPlaneNode
  unfolding control_y
  control_node compact direction count online total = record {
    id = "control-plane";
    position = record { x = if compact then 54 else 18; y = control_y compact count };
    direction = direction;
    eyebrow = t "CONTROL PLANE" [];
    title = t "Control plane" [];
    detail =
        format_number online <> (" / " <> (format_number total <> (" " <> t "Nodes online" [])));
    status = t "online" [];
    width = if compact then 228 else 198;
  }

  unfoldable pub edge_to : EdgeSiteNode → Edge
  edge_to node = record {
    id = "control-plane-" <> node.id;
    source = "control-plane";
    target = node.id;
    animated = is_animated node.tone;
    color = edge_color node.tone;
  }

  unfoldable pub flow : Option Direction → Bool → Option String → List TopologySite → ℕ → ℕ → Flow
  unfolding site_nodes control_node edge_to flow_height
  flow orientation responsive selected sites online total =
      let compact = is_compact orientation responsive in
      let direction = direction_of orientation responsive in
      let nodes = site_nodes compact direction selected 0 sites in
      record {
        control = control_node compact direction (length sites) online total;
        sites = nodes;
        edges = map edge_to nodes;
        height = flow_height compact (length sites);
      }
