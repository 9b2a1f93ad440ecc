-- ===== src/Api/Calls/Telemetry.antt =====
-- Logs and connections: frontend/lib/api.ts, lines 1212-1266.
use grouproxy.Base.{ℕ, String, ◌<>◌, Option, []}
use grouproxy.Api.Query.{Params, set_text, set_number, to_string, with_query}
use grouproxy.Api.Calls.{Call, get_call}
use grouproxy.Api.Calls.Access.{AccessMode, mode_name, named}
use grouproxy.Api.Calls.Nodes.{SiteNodeFilters, site_node_query}

pub record LogFilters : Type 0 where
  pub site_id : Option String
  pub node_id : Option String
  pub action : Option AccessMode
  pub since : Option String
  pub until : Option String
  pub search : Option String

unfoldable pub log_query : LogFilters → Params
log_query f = set_text "search" f.search (
    set_text "until" f.until (
      set_text "since" f.since (
        set_text "action" (named mode_name f.action)
          (set_text "node_id" f.node_id (set_text "site_id" f.site_id [])))))

unfoldable pub get_logs : LogFilters → Call
unfolding log_query
get_logs f = get_call (with_query "/api/v1/logs" (log_query f))

pub record ConnectionFilters : Type 0 where
  pub site_id : Option String
  pub node_id : Option String
  pub since : Option String
  pub until : Option String
  pub limit : Option ℕ

unfoldable pub connection_query : ConnectionFilters → Params
connection_query f = set_number "limit" f.limit (
    set_text "until" f.until
      (set_text "since" f.since (set_text "node_id" f.node_id (set_text "site_id" f.site_id []))))

unfoldable pub get_connections : ConnectionFilters → Call
unfolding connection_query
get_connections f = get_call (with_query "/api/v1/connections" (connection_query f))

unfoldable pub get_live_connections : SiteNodeFilters → Call
unfolding site_node_query
get_live_connections f = get_call (with_query "/api/v1/connections/live" (site_node_query f))

pub record HistoryFilters : Type 0 where
  pub site_id : Option String
  pub node_id : Option String
  pub since : Option String
  pub until : Option String
  pub source_ip : Option String
  pub destination : Option String
  pub network : Option String
  pub outbound : Option String
  pub search : Option String
  pub limit : Option ℕ
  pub offset : Option ℕ

unfoldable pub history_query : HistoryFilters → Params
history_query f = set_number "offset" f.offset (
    set_number "limit" f.limit (
      set_text "search" f.search (
        set_text "outbound" f.outbound (
          set_text "network" f.network (
            set_text "destination" f.destination (
              set_text "source_ip" f.source_ip (
                set_text "until" f.until (
                  set_text "since" f.since
                    (set_text "node_id" f.node_id (set_text "site_id" f.site_id []))))))))))

unfoldable pub get_connection_history : HistoryFilters → Call
unfolding history_query
get_connection_history f = get_call ("/api/v1/connections/history?" <> to_string (history_query f))
