-- ===== src/Api/Calls/Releases.antt =====
-- Drafts, releases and tasks: frontend/lib/api.ts, lines 1157-1210 and 1287-1289.
use grouproxy.Base.{String, ◌<>◌, Option, none, some, List, []}
use grouproxy.Api.Json.{Json, str, arr, obj, end, field, strings, optional}
use grouproxy.Api.Query.{Params, set_text, with_query}
use grouproxy.Api.Transport.{Entropy, create_idempotency_key}
use grouproxy.Api.Calls.{Call, get_call, send_call, keyed_call, seg}
use grouproxy.Api.Calls.Nodes.{ExpectedVersion, version_json, text_json}

unfoldable pub get_drafts : Call
get_drafts = get_call "/api/v1/config/drafts"

pub record ReleaseFilters : Type 0 where
  pub site_id : Option String
  pub status : Option String
  pub since : Option String
  pub until : Option String

unfoldable pub release_query : ReleaseFilters → Params
release_query f =
    set_text "until" f.until
      (set_text "since" f.since (set_text "status" f.status (set_text "site_id" f.site_id [])))

unfoldable pub get_releases : ReleaseFilters → Call
unfolding release_query
get_releases f = get_call (with_query "/api/v1/config/releases" (release_query f))

unfoldable pub get_release : String → Call
get_release release_id = get_call ("/api/v1/config/releases/" <> release_id)

unfoldable pub get_release_detail : String → Call
get_release_detail release_id = get_call ("/api/v1/config/releases/" <> (release_id <> "/detail"))

unfoldable pub get_release_acks : String → Call
get_release_acks release_id = get_call ("/api/v1/config/releases/" <> (release_id <> "/acks"))

pub record PublishInput : Type 0 where
  pub draft_id : String
  pub site_id : String
  pub node_ids : Option (List String)
  pub expected_current_version : ExpectedVersion
  pub note : Option String

abbrev strings_json : Option (List String) → Option Json
strings_json none = none
strings_json (some ss) = some (arr (strings ss))

unfoldable pub publish_release : Entropy → PublishInput → Call
publish_release e v =
    keyed_call "/api/v1/config/releases"
      (create_idempotency_key e ("config.publish:" <> v.draft_id))
      (obj (
        field "draft_id" (str v.draft_id) (
          field "site_id" (str v.site_id) (
            optional "node_ids" (strings_json v.node_ids) (
              optional "expected_current_version" (version_json v.expected_current_version)
                (optional "note" (text_json v.note) end))))))

pub record TaskFilters : Type 0 where
  pub status : Option String
  pub task_type : Option String
  pub since : Option String
  pub until : Option String

unfoldable pub task_query : TaskFilters → Params
task_query f =
    set_text "until" f.until
      (set_text "since" f.since (set_text "task_type" f.task_type (set_text "status" f.status [])))

unfoldable pub get_tasks : TaskFilters → Call
unfolding task_query
get_tasks f = get_call (with_query "/api/v1/tasks" (task_query f))

unfoldable pub get_task : String → Call
get_task task_id = get_call ("/api/v1/tasks/" <> seg task_id)

unfoldable pub cancel_task : String → Call
cancel_task task_id = send_call "POST" ("/api/v1/tasks/" <> (task_id <> "/cancel")) (obj end)
