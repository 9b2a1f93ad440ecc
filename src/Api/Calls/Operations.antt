-- ===== src/Api/Calls/Operations.antt =====
-- Alerts, the audit trail and the access assets: frontend/lib/api.ts, lines 1282-1306 and
-- 1332-1346.
use grouproxy.Base.{String, ◌<>◌, Option, none, some, []}
use grouproxy.Api.Query.{Params, set_text, with_query}
use grouproxy.Api.Calls.{Call, get_call, text_call, public_call, public_text_call}

pub data AlertStatus : Type 0 where
  open_alert resolved_alert : AlertStatus

abbrev pub status_name : AlertStatus → String
status_name open_alert = "open"
status_name resolved_alert = "resolved"

abbrev status_suffix : Option AlertStatus → String
status_suffix none = ""
status_suffix (some status) = "?status_filter=" <> status_name status

unfoldable pub get_alerts : Option AlertStatus → Call
get_alerts status = get_call ("/api/v1/alerts" <> status_suffix status)

pub record AuditFilters : Type 0 where
  pub since : Option String
  pub until : Option String
  pub action : Option String
  pub actor : Option String

unfoldable pub audit_query : AuditFilters → Params
audit_query f =
    set_text "actor" f.actor
      (set_text "action" f.action (set_text "until" f.until (set_text "since" f.since [])))

unfoldable pub get_audit : AuditFilters → Call
unfolding audit_query
get_audit f = get_call (with_query "/api/v1/audit" (audit_query f))

unfoldable pub verify_audit : Call
verify_audit = get_call "/api/v1/audit/verify"

pub data ExportFormat : Type 0 where
  json ndjson : ExportFormat

abbrev format_name : ExportFormat → String
format_name json = "json"
format_name ndjson = "ndjson"

unfoldable pub get_audit_export : ExportFormat → Call
get_audit_export export_format =
    text_call ("/api/v1/audit/export?export_format=" <> format_name export_format)

unfoldable pub get_linux_setup_script : Call
get_linux_setup_script = public_text_call "/api/v1/access/linux-setup.sh"

unfoldable pub get_windows_setup_script : Call
get_windows_setup_script = public_text_call "/api/v1/access/windows-setup.ps1"

unfoldable pub get_access_config : Call
get_access_config = public_call "/api/v1/access/config"

unfoldable pub get_proxy_pac : Call
get_proxy_pac = public_text_call "/api/v1/access/proxy.pac"
