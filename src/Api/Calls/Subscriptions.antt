-- ===== src/Api/Calls/Subscriptions.antt =====
-- Subscriptions and backups: frontend/lib/api.ts, lines 1073-1155 and 1308-1330.
use grouproxy.Base.{ℕ, String, ◌<>◌, Bool, Option, none, some, List, [], ◌∷◌, if◌then◌else◌}
use grouproxy.Api.Json.{Json, bool, num, str, arr, obj, end, field, strings, optional}
use grouproxy.Api.Transport.{Entropy, create_idempotency_key}
use grouproxy.Api.Calls.{Call, get_call, form_call, keyed_call, seg, one_text}
use grouproxy.Api.Calls.Nodes.{text_json}

unfoldable pub get_subscriptions : Call
get_subscriptions = get_call "/api/v1/subscriptions"

unfoldable pub get_subscription_version_content : String → String → Call
get_subscription_version_content source_id version_id = get_call (
    "/api/v1/subscriptions/" <> (seg source_id <> ("/versions/" <> (seg version_id <> "/content"))))

-- `scheme` is "http" or "https".
pub record SubscriptionInput : Type 0 where
  pub name : String
  pub url : String
  pub scheme : Option String
  pub fetch_interval_sec : Option ℕ
  pub max_body_bytes : Option ℕ
  pub redirect_limit : Option ℕ

abbrev number_json : Option ℕ → Option Json
number_json none = none
number_json (some n) = some (num n)

unfoldable pub create_subscription_source : Entropy → SubscriptionInput → Call
create_subscription_source e v =
    keyed_call "/api/v1/subscriptions" (create_idempotency_key e "subscription.create") (
      obj (
        field "name" (str v.name) (
          field "url" (str v.url) (
            optional "scheme" (text_json v.scheme) (
              optional "fetch_interval_sec" (number_json v.fetch_interval_sec) (
                optional "max_body_bytes" (number_json v.max_body_bytes)
                  (optional "redirect_limit" (number_json v.redirect_limit) end)))))))

-- `file` is the text of the file.
unfoldable pub upload_subscription : String → String → Call
upload_subscription name file =
    form_call "/api/v1/subscriptions/upload" (("name", name) ∷ ("file", file) ∷ [])

unfoldable pub create_single_node_subscription : Entropy → String → String → Call
create_single_node_subscription e name uri =
    keyed_call "/api/v1/subscriptions/single-node"
      (create_idempotency_key e "subscription.single-node")
      (obj (field "name" (str name) (field "uri" (str uri) end)))

unfoldable pub refresh_subscription : Entropy → String → Call
refresh_subscription e source_id =
    keyed_call ("/api/v1/subscriptions/" <> (source_id <> "/refresh"))
      (create_idempotency_key e ("subscription.refresh:" <> source_id)) (obj end)

unfoldable pub publish_subscription_version : Entropy → String → String → List String → Call
publish_subscription_version e source_id version_id site_ids =
    keyed_call
      ("/api/v1/subscriptions/" <> (source_id <> ("/versions/" <> (version_id <> "/publish"))))
      (create_idempotency_key e ("subscription.publish:" <> version_id))
      (obj (
        field "site_ids" (arr (strings site_ids))
          (field "note" (str "Published from operations console") end)))

unfoldable pub rollback_site_subscription : Entropy → String → Call
rollback_site_subscription e site_id =
    keyed_call ("/api/v1/subscriptions/sites/" <> (site_id <> "/rollback"))
      (create_idempotency_key e ("subscription.rollback:" <> site_id)) (obj end)

unfoldable pub get_backups : Call
get_backups = get_call "/api/v1/backups"

unfoldable pub create_backup : Entropy → Call
create_backup e =
    keyed_call "/api/v1/backups" (create_idempotency_key e "backup.create")
      (one_text "scope" "control_plane")

unfoldable pub restore_backup : Entropy → String → Bool → Call
restore_backup e backup_id confirm =
    keyed_call ("/api/v1/backups/" <> (seg backup_id <> "/restore"))
      (create_idempotency_key e
        ("backup.restore:" <> (backup_id <> (":" <> (if confirm then "apply" else "rehearsal")))))
      (obj (field "confirm" (bool confirm) end))
