-- ===== src/Releases.antt =====
-- frontend/app/releases/page.tsx: the pipeline of a release and the names in its heading.
pub mod Pipeline
pub mod Page
pub mod Selection
use grouproxy.Base.{
  ℕ, zero, suc, ◌+◌, ◌-◌, ◌*◌, ◌/◌, ◌==◌, ltb, leb, String, ◌<>◌, Bool, true, false, not, ◌&&◌,
  ◌||◌, ◌≡◌, Option, none, some, List, [], ◌∷◌, map, length, if◌then◌else◌, str_eq,
}
use grouproxy.Base.Int.{ℤ}
use grouproxy.Base.Dict.{Dict, lookup, insert}
use grouproxy.Api.Session.{is_truthy}
use grouproxy.Api.Url.{trim}
use grouproxy.Api.Transport.{Entropy}
use grouproxy.Api.Calls.{Call}
use grouproxy.Api.Calls.Releases.{ReleaseFilters, PublishInput, publish_release}
use grouproxy.Api.Entities.Nodes.{Node}
use grouproxy.Api.Entities.Releases.{Draft, Release, AgentAck}
use grouproxy.Connections.{before}
use grouproxy.Controls.{with_dashes}
use grouproxy.Names.{name_of}
use grouproxy.Release.{Translator}

abbrev pub release_stages : List String
release_stages = "draft" ∷ "validated" ∷ "queued" ∷ "applying" ∷ "health_check" ∷ "succeeded" ∷ []

-- `indexOf`, with the index of the first element.
unfoldable pub index_of : String → ℕ → List String → Option ℕ
index_of stage i [] = none
index_of stage i (s ∷ ss) =
    let rest = index_of stage (suc i) ss in if str_eq s stage then some i else rest

abbrev pub or_first : Option ℕ → ℕ
or_first none = 0
or_first (some i) = i

unfoldable pub stage_position : String → ℕ
unfolding index_of
stage_position stage = or_first (index_of stage 0 release_stages)

-- `position`
unfoldable pub position_of : Release → ℕ
unfolding stage_position
position_of r =
    if str_eq r.status "failed" then length release_stages - 2 else stage_position r.stage

-- An item of the pipeline; its mark is its number where it is not complete.
pub record StageItem : Type 0 where
  pub stage : String
  pub complete : Bool
  pub current : Bool
  pub mark : Option ℕ

unfoldable pub stage_item : Bool → ℕ → ℕ → String → StageItem
stage_item succeeded position index stage =
    let complete = if succeeded then leb index position else ltb index position in
    record {
      stage = stage;
      complete = complete;
      current = not complete && index == position;
      mark = if complete then none else some (index + 1);
    }

unfoldable pub stage_items : Bool → ℕ → ℕ → List String → List StageItem
unfolding stage_item
stage_items succeeded position index [] = []
stage_items succeeded position index (stage ∷ more) =
    stage_item succeeded position index stage ∷ stage_items succeeded position (suc index) more

unfoldable pub pipeline : Release → List StageItem
unfolding stage_items position_of
pipeline r = stage_items (str_eq r.status "succeeded") (position_of r) 0 release_stages

-- `nodeLabels`: each node under its identifier and that of its agent.
unfoldable pub add_labels : List Node → Dict String → Dict String
add_labels [] labels = labels
add_labels (n ∷ ns) labels = add_labels ns (insert n.agent_id n.name (insert n.id n.name labels))

unfoldable pub node_labels : List Node → Dict String
unfolding add_labels
node_labels nodes = add_labels nodes []

-- `join(", ")`
unfoldable pub join_names : List String → String
join_names [] = ""
join_names (s ∷ []) = s
join_names (s ∷ t ∷ more) = s <> (", " <> join_names (t ∷ more))

unfoldable pub release_node_names : Release → Dict String → String
unfolding join_names name_of
release_node_names r labels = join_names (map (name_of labels) r.node_ids)

abbrev pub given_or : String → String → String
given_or s other = if is_truthy s then s else other

unfoldable pub release_path_label : Release → Dict String → Translator → String
unfolding release_node_names trim
release_path_label r labels t = t "{subscription} → {node}" (
    ("subscription", given_or (trim r.subscription_name) (t "No subscription" []))
    ∷ ("node", given_or (release_node_names r labels) (t "No nodes" []))
    ∷ [])

-- What the table of nodes shows of a node's acknowledgement.
unfoldable pub ack_outcome : Option AgentAck → String
ack_outcome none = "pending"
ack_outcome (some a) = if a.ok && a.health_ok then "succeeded" else "failed"

pub data RangeFilter : Type 0 where
  one_day one_week one_month all_time : RangeFilter

abbrev pub range_hours : RangeFilter → Option ℕ
range_hours one_day = some 24
range_hours one_week = some (24 * 7)
range_hours one_month = some (24 * 30)
range_hours all_time = none

unfoldable pub range_start : (ℤ → String) → ℤ → RangeFilter → Option String
range_start iso now range = elim (range_hours range) [
  | none ↦ none
  | some h ↦ some (iso (before now (h * 60 * 60 * 1000)))
]
