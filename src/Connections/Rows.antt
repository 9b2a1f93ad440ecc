-- ===== src/Connections/Rows.antt =====
-- The two tables of the page of connections show the same connections.
use grouproxy.Base.{ℕ, suc, ◌≡◌, refl, ap, ◌∙◌, none, some, List, [], ◌∷◌, ◌++◌, map}
use grouproxy.Api.Entities.Telemetry.{ConnectionLiveItem, ConnectionSnapshot}
use grouproxy.Connections.{
  LiveRow, HistoryRow, connections_of, live_row, live_rows_from_snapshots, rows_from,
  rows_or_summary, history_rows_from_snapshots,
}

-- The live rows among rows of the history: those that have a connection.
unfoldable pub live_of : List HistoryRow → List LiveRow
live_of [] = []
live_of (row ∷ rows) = elim row.connection [
  | none ↦ live_of rows
  | some c ↦ live_row row.snapshot c ∷ live_of rows
]

live_of-rows_from :
    (s : ConnectionSnapshot) (index : ℕ) (cs : List ConnectionLiveItem) (rows : List HistoryRow)
    → live_of (rows_from s index cs ++ rows) ≡ map (live_row s) cs ++ live_of rows
unfolding live_of rows_from
live_of-rows_from s index [] rows = refl
live_of-rows_from s index (c ∷ cs) rows =
    ap (λ rest. live_row s c ∷ rest) (live_of-rows_from s (suc index) cs rows)

live_of-rows_or_summary :
    (s : ConnectionSnapshot) (cs : List ConnectionLiveItem) (rows : List HistoryRow)
    → live_of (rows_or_summary s cs ++ rows) ≡ map (live_row s) cs ++ live_of rows
unfolding live_of
live_of-rows_or_summary s [] rows = refl
live_of-rows_or_summary s (c ∷ cs) rows = live_of-rows_from s 0 (c ∷ cs) rows

-- Of the same snapshots, the rows of the history that have a connection are the rows of the live table:
-- each connection once, and in the same order.
pub live_of-history_rows_from_snapshots :
    (snapshots : List ConnectionSnapshot)
    → live_of (history_rows_from_snapshots snapshots) ≡ live_rows_from_snapshots snapshots
unfolding history_rows_from_snapshots live_rows_from_snapshots live_of
live_of-history_rows_from_snapshots [] = refl
live_of-history_rows_from_snapshots (s ∷ more) =
    live_of-rows_or_summary s (connections_of s) (history_rows_from_snapshots more)
    ∙ ap (λ rest. map (live_row s) (connections_of s) ++ rest)
        (live_of-history_rows_from_snapshots more)
