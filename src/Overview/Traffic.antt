-- ===== src/Overview/Traffic.antt =====
-- `buildSiteTrafficSeries` and the totals of frontend/app/overview/page.tsx (lines 105-112 and
-- 251-278).
use grouproxy.Base.{
  ℕ, ◌+◌, ◌-◌, ◌*◌, ◌/◌, String, Bool, true, false, not, ◌&&◌, Option, none, some, List, [], ◌∷◌,
  map, if◌then◌else◌, str_eq,
}
use grouproxy.Base.Int.{ℤ, pos, negsuc, leb_ℤ}
use grouproxy.Base.Dict.{Dict, lookup, insert}
use grouproxy.Api.Entities.Telemetry.{ConnectionSnapshot}
use grouproxy.Api.Entities.Nodes.{Node}
use grouproxy.Overview.{or_zero}
use grouproxy.Quality.{Sign, lesser, same, greater, sort}

pub record Totals : Type 0 where
  pub tx_bps : ℕ
  pub rx_bps : ℕ
  pub active_connections : ℕ

abbrev pub no_traffic : Totals
no_traffic = record { tx_bps = 0; rx_bps = 0; active_connections = 0 }

abbrev pub add_snapshot : Totals → ConnectionSnapshot → Totals
add_snapshot t s = record {
  tx_bps = t.tx_bps + or_zero s.tx_bps;
  rx_bps = t.rx_bps + or_zero s.rx_bps;
  active_connections = t.active_connections + s.active_connections;
}

abbrev pub add_node : Totals → Node → Totals
add_node t n = record {
  tx_bps = t.tx_bps + or_zero n.tx_bps;
  rx_bps = t.rx_bps + or_zero n.rx_bps;
  active_connections = t.active_connections + or_zero n.active_connections;
}

-- `xs.reduce(f, start)`
unfoldable pub reduce : {A B : Type 0} → (B → A → B) → B → List A → B
reduce f start [] = start
reduce f start (x ∷ xs) = reduce f (f start x) xs

unfoldable pub fallback_traffic : List Node → Totals
fallback_traffic nodes = reduce add_node no_traffic nodes

-- `Math.floor(timestamp / 60_000) * 60_000`
unfoldable pub bucket_at : ℤ → ℤ
bucket_at (pos n) = pos (n / 60000 * 60000)
bucket_at (negsuc n) = negsuc ((n / 60000 + 1) * 60000 - 1)

unfoldable pub eq_ℤ : ℤ → ℤ → Bool
eq_ℤ a b = leb_ℤ a b && leb_ℤ b a

-- `Map<number, Map<string, ConnectionSnapshot>>`
abbrev pub Buckets : Type 0
Buckets = List (ℤ × Dict ConnectionSnapshot)

-- `buckets.get(at) || new Map()`
unfoldable pub bucket : ℤ → Buckets → Dict ConnectionSnapshot
bucket at [] = []
bucket at ((b, snapshots) ∷ more) = if eq_ℤ b at then snapshots else bucket at more

unfoldable pub set_bucket : ℤ → Dict ConnectionSnapshot → Buckets → Buckets
set_bucket at new [] = (at, new) ∷ []
set_bucket at new ((b, snapshots) ∷ more) =
    if eq_ℤ b at then (b, new) ∷ more else (b, snapshots) ∷ set_bucket at new more

module _ (date_parse : String → Option ℤ) where
  -- Whether a snapshot was sampled after another one.
  abbrev pub is_later : ConnectionSnapshot → ConnectionSnapshot → Bool
  is_later s previous = elim (date_parse s.sampled_at) [
    | none ↦ false
    | some t ↦ elim (date_parse previous.sampled_at) [ none ↦ false | some u ↦ not (leb_ℤ t u) ]
  ]

  -- Whether a snapshot takes the place of the one that its node has.
  abbrev pub replaces : ConnectionSnapshot → Option ConnectionSnapshot → Bool
  replaces s none = true
  replaces s (some previous) = is_later s previous

  -- One turn of the loop, for a snapshot of the site with a time.
  unfoldable pub put : ℤ → ConnectionSnapshot → Buckets → Buckets
  put at s buckets =
      let nodes = bucket (bucket_at at) buckets in
      set_bucket (bucket_at at)
        (if replaces s (lookup s.node_id nodes) then insert s.node_id s nodes else nodes) buckets

  abbrev pub put_timed : Option ℤ → ConnectionSnapshot → Buckets → Buckets
  put_timed none s buckets = buckets
  put_timed (some at) s buckets = put at s buckets

  unfoldable pub collect : String → List ConnectionSnapshot → Buckets → Buckets
  collect site_id [] buckets = buckets
  collect site_id (s ∷ entries) buckets =
      collect site_id entries (
        if str_eq s.site_id site_id then put_timed (date_parse s.sampled_at) s buckets else buckets)

  abbrev pub by_time : ℤ × Dict ConnectionSnapshot → ℤ × Dict ConnectionSnapshot → Sign
  by_time left right =
      if leb_ℤ left.0 right.0 then (if leb_ℤ right.0 left.0 then same else lesser) else greater

  abbrev pub values : {A : Type 0} → Dict A → List A
  values [] = []
  values ((key, value) ∷ more) = value ∷ values more

  -- A point of the series: its time, which the source prints, and the totals.
  abbrev pub point : ℤ × Dict ConnectionSnapshot → ℤ × Totals
  point (at, snapshots) = (at, reduce add_snapshot no_traffic (values snapshots))

  unfoldable pub build_site_traffic_series : List ConnectionSnapshot → String → List (ℤ × Totals)
  build_site_traffic_series entries site_id = map point (sort by_time (collect site_id entries []))
