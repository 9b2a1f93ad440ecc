-- ===== src/Quality.antt =====
-- frontend/app/service-quality/page.tsx: the status and the latency band of a sample, the order of
-- the table, and the node that is chosen.
pub mod Sorting
pub mod Ranking
pub mod Bands
use grouproxy.Base.{
  ℕ, String, Bool, true, false, not, ◌&&◌, ◌||◌, Option, none, some, List, [], ◌∷◌, any, leb, ◌==◌,
  if◌then◌else◌, str_eq,
}
use grouproxy.Api.Entities.Nodes.{Node, ServiceQualityStat}
use grouproxy.Api.Calls.Sites.{ServiceQualityDefinition}

pub data SortKey : Type 0 where
  by_node_name by_outbound_tag by_average_latency by_success_rate by_sample_count by_last_sampled :
      SortKey

pub data SortDirection : Type 0 where
  asc desc : SortDirection

pub data LatencyBand : Type 0 where
  good acceptable high unknown : LatencyBand

-- The sign of a comparator's result.
pub data Sign : Type 0 where
  lesser same greater : Sign

abbrev pub flip : Sign → Sign
flip lesser = greater
flip same = same
flip greater = lesser

abbrev pub is_greater : Sign → Bool
is_greater greater = true
is_greater _ = false

abbrev pub default_definition : ServiceQualityDefinition
default_definition = record { green_max_ms = 100; yellow_max_ms = 200 }

-- The sign of `Number(a) - Number(b)`, where the values differ or not.
abbrev pub compare_by : {A : Type 0} → (A → A → Bool) → A → A → Sign
compare_by leq a b = if leq a b then (if leq b a then same else lesser) else greater

-- A missing value counts as the greater one.
abbrev pub compare_present : {A : Type 0} → (A → A → Sign) → Option A → Option A → Sign
compare_present cmp none none = same
compare_present cmp none (some b) = greater
compare_present cmp (some a) none = lesser
compare_present cmp (some a) (some b) = cmp a b

-- `leftValue === rightValue` comes first.
abbrev pub compare_text : (String → String → Sign) → String → String → Sign
compare_text collate a b = if str_eq a b then same else collate a b

abbrev pub directed : SortDirection → Sign → Sign
directed asc s = s
directed desc s = flip s

-- Equal rows are in the order of their tags, whatever the direction.
abbrev pub tie_broken : Sign → SortDirection → Sign → Sign
tie_broken tie direction same = tie
tie_broken tie direction lesser = directed direction lesser
tie_broken tie direction greater = directed direction greater

-- The numbers `N` can have a fraction; `of_ms` takes a whole number of milliseconds to them, and
-- `collate` is `localeCompare`.
module _ {N : Type 0} (leq : N → N → Bool) (of_ms : ℕ → N) where
  unfoldable pub quality_status : ServiceQualityStat N → ServiceQualityDefinition → String
  quality_status entry definition =
      if entry.sample_count == 0 then "pending" else elim entry.last_success [
        | none ↦ "pending"
        | some success ↦ if not success then "offline" else elim entry.average_latency_ms [
          | none ↦ "healthy"
          | some average ↦
              if not (leq average (of_ms definition.yellow_max_ms))
              then "attention"
              else if not (leq average (of_ms definition.green_max_ms))
              then "degraded"
              else "healthy"
        ]
      ]

  abbrev pub has_failed : Option Bool → Bool
  has_failed (some false) = true
  has_failed _ = false

  unfoldable pub latency_band : ServiceQualityStat N → ServiceQualityDefinition → LatencyBand
  latency_band entry definition = elim entry.average_latency_ms [
    | none ↦ unknown
    | some average ↦
        if has_failed entry.last_success
        then high
        else if leq average (of_ms definition.green_max_ms)
        then good
        else if leq average (of_ms definition.yellow_max_ms)
        then acceptable
        else high
  ]

module _ {N : Type 0} (leq : N → N → Bool) (collate : String → String → Sign) where
  unfoldable pub compare_values : SortKey → ServiceQualityStat N → ServiceQualityStat N → Sign
  compare_values by_node_name l r = compare_text collate l.node_name r.node_name
  compare_values by_outbound_tag l r = compare_text collate l.outbound_tag r.outbound_tag
  compare_values by_average_latency l r =
      compare_present (compare_by leq) l.average_latency_ms r.average_latency_ms
  compare_values by_success_rate l r =
      compare_present (compare_by leq) l.success_rate r.success_rate
  compare_values by_sample_count l r = compare_by leb l.sample_count r.sample_count
  compare_values by_last_sampled l r =
      compare_present (compare_text collate) l.last_sampled_at r.last_sampled_at

  unfoldable pub compare_rows :
      SortKey → SortDirection → ServiceQualityStat N → ServiceQualityStat N → Sign
  unfolding compare_values
  compare_rows key direction l r =
      tie_broken (collate l.outbound_tag r.outbound_tag) direction (compare_values key l r)

-- `Array.prototype.sort`, which is stable: a row goes before the first one that is not less.
module _ {A : Type 0} (cmp : A → A → Sign) where
  unfoldable pub place : A → List A → List A
  place x [] = x ∷ []
  place x (y ∷ ys) = let rest = place x ys in if is_greater (cmp x y) then y ∷ rest else x ∷ y ∷ ys

  unfoldable pub sort : List A → List A
  unfolding place
  sort [] = []
  sort (x ∷ xs) = place x (sort xs)

-- `entries`
unfoldable pub sorted_entries :
    {N : Type 0}
    → (N → N → Bool)
    → (String → String → Sign)
    → SortKey
    → SortDirection
    → List (ServiceQualityStat N)
    → List (ServiceQualityStat N)
unfolding sort compare_rows
sorted_entries leq collate key direction rows = sort (compare_rows leq collate key direction) rows

pub record PageState : Type 0 where
  pub site_id : String
  pub node_id : String
  pub sort_key : SortKey
  pub sort_direction : SortDirection

abbrev key_number : SortKey → ℕ
key_number by_node_name = 0
key_number by_outbound_tag = 1
key_number by_average_latency = 2
key_number by_success_rate = 3
key_number by_sample_count = 4
key_number by_last_sampled = 5

abbrev toggled : SortDirection → SortDirection
toggled asc = desc
toggled desc = asc

unfoldable pub select_sort : SortKey → PageState → PageState
select_sort next_key s =
    if key_number s.sort_key == key_number next_key
    then record s { sort_direction = toggled s.sort_direction }
    else record s { sort_key = next_key; sort_direction = asc }

-- `nodeItems`: the nodes of the chosen site, or all.
unfoldable pub node_items : String → List Node → List Node
node_items site_id [] = []
node_items site_id (node ∷ nodes) =
    let rest = node_items site_id nodes in
    if str_eq site_id "" || str_eq node.site_id site_id then node ∷ rest else rest

-- The effect on the chosen node.
unfoldable pub keep_node : List Node → PageState → PageState
unfolding node_items
keep_node nodes s =
    if not (str_eq s.node_id "")
      && not (any (λ (node : Node). str_eq node.id s.node_id) (node_items s.site_id nodes))
    then record s { node_id = "" }
    else s
