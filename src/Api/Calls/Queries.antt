-- ===== src/Api/Calls/Queries.antt =====
-- The query parameters of the filtered lists: each filter is sent under its own name, and no other.
use grouproxy.Base.{◌≡◌}
use grouproxy.Base.Dict.{lookup}
use grouproxy.Api.Query.Filters.{given_text, given_number, query_laws}
use grouproxy.Api.Calls.Access.{AccessFilters, mode_name, direction_name, named, access_query}
use grouproxy.Api.Calls.Telemetry.{HistoryFilters, history_query}

-- The connection history is asked for with each filter that is set, under the server's name for
-- it, and an empty text or a 0 is left out.
pub history_query-lookup :
    (f : HistoryFilters)
    → (lookup "site_id" (history_query f) ≡ given_text f.site_id)
      × (lookup "node_id" (history_query f) ≡ given_text f.node_id)
      × (lookup "since" (history_query f) ≡ given_text f.since)
      × (lookup "until" (history_query f) ≡ given_text f.until)
      × (lookup "source_ip" (history_query f) ≡ given_text f.source_ip)
      × (lookup "destination" (history_query f) ≡ given_text f.destination)
      × (lookup "network" (history_query f) ≡ given_text f.network)
      × (lookup "outbound" (history_query f) ≡ given_text f.outbound)
      × (lookup "search" (history_query f) ≡ given_text f.search)
      × (lookup "limit" (history_query f) ≡ given_number f.limit)
      × (lookup "offset" (history_query f) ≡ given_number f.offset)
unfolding history_query
history_query-lookup f = (
  simp query_laws,
  simp query_laws,
  simp query_laws,
  simp query_laws,
  simp query_laws,
  simp query_laws,
  simp query_laws,
  simp query_laws,
  simp query_laws,
  simp query_laws,
  simp query_laws,
)

-- The list of access rules is asked for with each filter that is set; the page size and the offset
-- are left out when they are 0.
pub access_query-lookup :
    (f : AccessFilters)
    → (lookup "search" (access_query f) ≡ given_text f.search)
      × (lookup "node_id" (access_query f) ≡ given_text f.node_id)
      × (lookup "network_group_id" (access_query f) ≡ given_text f.network_group_id)
      × (lookup "mode" (access_query f) ≡ given_text (named mode_name f.mode))
      × (lookup "direction" (access_query f) ≡ given_text (named direction_name f.direction))
      × (lookup "limit" (access_query f) ≡ given_number f.limit)
      × (lookup "offset" (access_query f) ≡ given_number f.offset)
unfolding access_query
access_query-lookup f = (
  simp query_laws,
  simp query_laws,
  simp query_laws,
  simp query_laws,
  simp query_laws,
  simp query_laws,
  simp query_laws,
)
