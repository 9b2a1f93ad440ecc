-- ===== src/Connections/History.antt =====
-- What the page of connections asks the server for.
use grouproxy.Base.{String, ◌≡◌, refl, ◌∙◌, Option, none, some, arith, eq_iff}
use grouproxy.Base.Dict.{lookup}
use grouproxy.Api.Url.{trim, show}
use grouproxy.Api.Query.Filters.{given_text}
use grouproxy.Api.Calls.Telemetry.{history_query}
use grouproxy.Api.Calls.Queries.{history_query-lookup}
use grouproxy.Connections.{
  HistoryState, or_undefined, history_filters, FilterChange, site, node, network, search, source_ip,
  destination, outbound, time_range, change,
}

given_text-or_undefined : (s : String) → given_text (or_undefined s) ≡ given_text (some s)
given_text-or_undefined s = ground (arith, eq_iff s "")

offset-change : (c : FilterChange) (s : HistoryState) → (change c s).offset ≡ 0
unfolding change
offset-change (site value) s = refl
offset-change (node value) s = refl
offset-change (network value) s = refl
offset-change (search value) s = refl
offset-change (source_ip value) s = refl
offset-change (destination value) s = refl
offset-change (outbound value) s = refl
offset-change (time_range value) s = refl

-- After a change of any filter the server is asked for the first page: a hundred entries and no
-- offset, with each filter that is not empty under its name, the typed ones without white space at
-- their ends.
pub history_query-change :
    (c : FilterChange) (before : HistoryState) (since : Option String)
    → let s = change c before in
      let q = history_query (history_filters since s) in
      (lookup "site_id" q ≡ given_text (some s.site_id))
      × (lookup "node_id" q ≡ given_text (some s.node_id))
      × (lookup "since" q ≡ given_text since)
      × (lookup "network" q ≡ given_text (some s.network))
      × (lookup "search" q ≡ given_text (some (trim s.search)))
      × (lookup "source_ip" q ≡ given_text (some (trim s.source_ip)))
      × (lookup "destination" q ≡ given_text (some (trim s.destination)))
      × (lookup "outbound" q ≡ given_text (some (trim s.outbound)))
      × (lookup "limit" q ≡ some (show 100))
      × (lookup "offset" q ≡ none)
unfolding history_filters
history_query-change c before since =
    let s = change c before in
    let asked = history_query-lookup (history_filters since s) in
    (
      asked.0 ∙ given_text-or_undefined s.site_id,
      asked.1 ∙ given_text-or_undefined s.node_id,
      asked.2,
      asked.6 ∙ given_text-or_undefined s.network,
      asked.8 ∙ given_text-or_undefined (trim s.search),
      asked.4 ∙ given_text-or_undefined (trim s.source_ip),
      asked.5 ∙ given_text-or_undefined (trim s.destination),
      asked.7 ∙ given_text-or_undefined (trim s.outbound),
      asked.9,
      asked.10 ∙ rw (offset-change c before) refl,
    )
