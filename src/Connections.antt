-- ===== src/Connections.antt =====
-- frontend/app/connections/page.tsx: the rows of both tables, and the filters and pages of the
-- history; `timeRangeStart` of frontend/components/list-filters.tsx.
pub mod History
pub mod Rows
use grouproxy.Base.{
  ℕ, zero, suc, ◌+◌, ◌-◌, ◌*◌, min, String, ◌<>◌, Bool, true, false, not, ◌||◌, Option, none, some,
  List, [], ◌∷◌, ◌++◌, map, leb, ◌==◌, if◌then◌else◌,
}
use grouproxy.Base.Int.{ℤ, pos, negsuc}
use grouproxy.Api.Url.{trim, show}
use grouproxy.Api.Session.{is_truthy}
use grouproxy.Api.Calls.Telemetry.{HistoryFilters}
use grouproxy.Api.Entities.Telemetry.{ConnectionLiveItem, ConnectionSnapshot}

pub data TimeRange : Type 0 where
  one_hour one_day one_week one_month all_time : TimeRange

abbrev pub hours : TimeRange → Option ℕ
hours one_hour = some 1
hours one_day = some 24
hours one_week = some (24 * 7)
hours one_month = some (24 * 30)
hours all_time = none

abbrev pub before : ℤ → ℕ → ℤ
before (pos n) k = if leb k n then pos (n - k) else negsuc (k - n - 1)
before (negsuc n) k = negsuc (n + k)

-- `toISOString` is the argument `iso`.
unfoldable pub time_range_start : (ℤ → String) → ℤ → TimeRange → Option String
time_range_start iso now range = elim (hours range) [
  | none ↦ none
  | some h ↦ some (iso (before now (h * 60 * 60 * 1000)))
]

-- What the page remembers of the history.
pub record HistoryState : Type 0 where
  pub site_id : String
  pub node_id : String
  pub time_range : TimeRange
  pub network : String
  pub search : String
  pub source_ip : String
  pub destination : String
  pub outbound : String
  pub offset : ℕ

-- `value || undefined`
abbrev pub or_undefined : String → Option String
or_undefined s = if is_truthy s then some s else none

-- What `getConnectionHistory` is called with; `since` is the start of the time range.
unfoldable pub history_filters : Option String → HistoryState → HistoryFilters
history_filters since s = record {
  site_id = or_undefined s.site_id;
  node_id = or_undefined s.node_id;
  since = since;
  until = none;
  source_ip = or_undefined (trim s.source_ip);
  destination = or_undefined (trim s.destination);
  network = or_undefined s.network;
  outbound = or_undefined (trim s.outbound);
  search = or_undefined (trim s.search);
  limit = some 100;
  offset = some s.offset;
}

-- The changes that the controls of the history make.
pub data FilterChange : Type 0 where
  site node network search source_ip destination outbound : String → FilterChange
  time_range : TimeRange → FilterChange

unfoldable pub change : FilterChange → HistoryState → HistoryState
change (site value) s = record s { site_id = value; node_id = ""; offset = 0 }
change (node value) s = record s { node_id = value; offset = 0 }
change (network value) s = record s { network = value; offset = 0 }
change (search value) s = record s { search = value; offset = 0 }
change (source_ip value) s = record s { source_ip = value; offset = 0 }
change (destination value) s = record s { destination = value; offset = 0 }
change (outbound value) s = record s { outbound = value; offset = 0 }
change (time_range value) s = record s { time_range = value; offset = 0 }

unfoldable pub previous : HistoryState → HistoryState
previous s = record s { offset = s.offset - 100 }

unfoldable pub following : HistoryState → HistoryState
following s = record s { offset = s.offset + 100 }

abbrev pub with_port : String → String → String
with_port host port = host <> (if is_truthy port then ":" <> port else "")

unfoldable pub destination_label : Option ConnectionLiveItem → String
destination_label none = ""
destination_label (some c) =
    with_port (if is_truthy c.dst_host then c.dst_host else c.dst_ip) c.dst_port

unfoldable pub source_label : Option ConnectionLiveItem → String
source_label none = ""
source_label (some c) = with_port c.src_ip c.src_port

-- A connection with the node and the time of its snapshot.
pub record LiveRow : Type 0 where
  pub connection : ConnectionLiveItem
  pub node_id : String
  pub sampled_at : String

pub record HistoryRow : Type 0 where
  pub snapshot : ConnectionSnapshot
  pub connection : Option ConnectionLiveItem
  pub key : String

abbrev pub connections_of : ConnectionSnapshot → List ConnectionLiveItem
connections_of s = elim s.connections [ none ↦ [] | some cs ↦ cs ]

abbrev pub live_row : ConnectionSnapshot → ConnectionLiveItem → LiveRow
live_row s c = record { connection = c; node_id = s.node_id; sampled_at = s.sampled_at }

unfoldable pub live_rows_from_snapshots : List ConnectionSnapshot → List LiveRow
live_rows_from_snapshots [] = []
live_rows_from_snapshots (s ∷ more) =
    map (live_row s) (connections_of s) ++ live_rows_from_snapshots more

-- The rows of the connections of one snapshot, from a place on.
unfoldable pub rows_from : ConnectionSnapshot → ℕ → List ConnectionLiveItem → List HistoryRow
rows_from s index [] = []
rows_from s index (c ∷ cs) =
    record {
      snapshot = s;
      connection = some c;
      key = s.id <> (":" <> (if is_truthy c.id then c.id else show index));
    }
    ∷ rows_from s (suc index) cs

abbrev pub rows_or_summary : ConnectionSnapshot → List ConnectionLiveItem → List HistoryRow
rows_or_summary s [] = record { snapshot = s; connection = none; key = s.id <> ":summary" } ∷ []
rows_or_summary s (c ∷ cs) = rows_from s zero (c ∷ cs)

unfoldable pub history_rows_from_snapshots : List ConnectionSnapshot → List HistoryRow
unfolding rows_from
history_rows_from_snapshots [] = []
history_rows_from_snapshots (s ∷ more) =
    rows_or_summary s (connections_of s) ++ history_rows_from_snapshots more
