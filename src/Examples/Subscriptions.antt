-- ===== src/Examples/Subscriptions.antt =====
-- The theorems of the subscriptions page at a small catalogue.
use grouproxy.Base.{
  ◌+◌, inl, length, String, ◌≡◌, refl, true, false, ◌||◌, none, some, [], ◌∷◌, ◌++◌, map, All,
}
use grouproxy.Api.Json.{end}
use grouproxy.Api.Transport.{Entropy}
use grouproxy.Api.Settled.{fulfilled, rejected}
use grouproxy.Api.Calls.Subscriptions.{publish_subscription_version}
use grouproxy.Api.Entities.Releases.{Task}
use grouproxy.Api.Entities.Subscriptions.{
  http, upload, sing_box, SubscriptionSource, SubscriptionVersion, SubscriptionCatalog,
}
use grouproxy.Subscriptions.{plain_http, SourceForm, submit_source, submit_disabled, is_missing}
use grouproxy.Subscriptions.Addresses.{submit_disabled-submit_source}
use grouproxy.Subscriptions.Refresh.{
  IsUnderway, unexplained, waiting, ended, wait_for_refresh_task, wait_for_refresh_task-Ends,
}
use grouproxy.Subscriptions.Publish.{
  first_selection, open_publish, toggle_site, continue_publish, current_version, current_versions,
  current_source, publish_call,
}
use grouproxy.Subscriptions.Targets.{publish_call-own}
use grouproxy.Examples.{ne_of_test}
use grouproxy.Subscriptions.Ticking.{
  Publishing, site_of, toggle_tick, fresh, Reach, start, next, publish_opened, site_toggled,
  continued,
}

abbrev pub entropy : Entropy
entropy = record { random_uuid = some "u"; date_now = "0"; random_hex = "0" }

abbrev form : SourceForm
form = record {
  source_type = upload;
  name = "feed";
  scheme = plain_http;
  url = "";
  fetch_interval = 21600;
  uri = "";
  file = none;
}

submit_disabled-submit_source_example :
    submit_disabled false form ≡ (false || is_missing (submit_source entropy form))
submit_disabled-submit_source_example = submit_disabled-submit_source entropy false form

abbrev pub task : String → Task
task status = record {
  task_id = "t";
  task_type = "subscription.refresh";
  target_type = "subscription";
  target_id = "s";
  status = status;
  progress = 0;
  stage = "";
  progress_message = "";
  retry_count = 0;
  max_retries = 3;
  error = "";
  result = end;
  created_at = "";
  finished_at = none;
  next_run_at = "";
  locked_by = "";
  lease_expires_at = none;
}

running-IsUnderway : IsUnderway (fulfilled (task "running"))
running-IsUnderway = (
  ne_of_test "running" "succeeded" refl,
  ne_of_test "running" "failed" refl,
  ne_of_test "running" "cancelled" refl,
  ne_of_test "running" "dead_letter" refl,
)

wait_for_refresh_task-Ends_example :
    (wait_for_refresh_task 0 (
        (fulfilled (task "running") ∷ [])
        ++ (fulfilled (task "failed") ∷ rejected "network_error" ∷ []))
      ≡ ended
          (length (fulfilled (task "running") ∷ []) + 0)
          (rejected "subscription_refresh_failed"))
    × (wait_for_refresh_task 0 (fulfilled (task "running") ∷ [])
        ≡ waiting (length (fulfilled (task "running") ∷ []) + 0))
wait_for_refresh_task-Ends_example =
    wait_for_refresh_task-Ends (fulfilled (task "running") ∷ []) (rejected "network_error" ∷ [])
      (fulfilled (task "failed")) (rejected "subscription_refresh_failed") 0
      (running-IsUnderway, tt) (unexplained (task "failed") (inl refl) refl)

abbrev feed : SubscriptionSource
feed = record {
  id = "s";
  name = "feed";
  source_type = http;
  url_hint = "";
  fetch_interval_sec = 3600;
  max_body_bytes = 0;
  redirect_limit = 0;
  enabled = true;
  refreshable = true;
  last_refresh_at = none;
  last_refresh_attempt_at = none;
  last_refresh_error = "";
  consecutive_failures = 0;
  created_at = "";
  updated_at = "";
}

abbrev version : SubscriptionVersion
version = record {
  id = "v";
  source_id = "s";
  version = 1;
  content_hash = "";
  size_bytes = 0;
  format = sing_box;
  fetched_at = "";
  parse_ok = true;
  parse_error = "";
  node_count = 1;
  published = false;
  created_at = "";
}

abbrev catalog : SubscriptionCatalog
catalog = record { sources = feed ∷ []; versions = version ∷ []; site_subscriptions = [] }

abbrev opened : Publishing
opened = record { selection = open_publish version first_selection; ticked = [] }

abbrev ticked : Publishing
ticked = record {
  selection = record opened.selection { site_ids = toggle_site "a" opened.selection.site_ids };
  ticked = toggle_tick "a" "v" [];
}

abbrev confirming : Publishing
confirming = record ticked { selection = continue_publish ticked.selection }

confirming-Reach : Reach confirming
unfolding current_version current_versions current_source open_publish toggle_site continue_publish
confirming-Reach =
    next
      (next (next start (publish_opened fresh catalog version refl refl refl refl))
        (site_toggled opened version "a" refl))
      (continued ticked (λ e. cc e))

confirming-version : confirming.selection.confirm_target ≡ some version
unfolding continue_publish open_publish
confirming-version = refl

publish_call-own_example :
    (publish_call entropy confirming.selection
      ≡ some (publish_subscription_version entropy "s" "v" (map site_of confirming.ticked)))
    × All (λ c. c.1 ≡ "v") confirming.ticked
publish_call-own_example =
    publish_call-own entropy confirming version confirming-Reach confirming-version
