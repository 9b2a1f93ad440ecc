-- ===== src/Examples/Policy.antt =====
-- The theorems of the overview and of the access pages at small inputs.
use grouproxy.Base.{
  ◌+◌, ◌*◌, ◌++◌, take, drop, String, ◌≡◌, ◌≢◌, refl, true, false, none, some, [], ◌∷◌, get_elem?,
}
use grouproxy.Base.Int.{pos}
use grouproxy.Api.Calls.Access.{domain}
use grouproxy.Api.Entities.Nodes.{Site}
use grouproxy.Api.Entities.Telemetry.{ConnectionSnapshot}
use grouproxy.Overview.Traffic.{collect}
use grouproxy.Overview.Buckets.{kept}
use grouproxy.Overview.Latest.{Holds, kept-collect-Holds}
use grouproxy.Policy.{RuleFilters, filter_key, rendered}
use grouproxy.Policy.Paging.{IsPlain, page_of, rendered-filter_key}
use grouproxy.Policy.Groups.{
  GroupForm, open_form, draft_entries, remove_entry, add_entry, Reach, start, next, added,
}
use grouproxy.Policy.Keys.{remove_entry_lem}
use grouproxy.Examples.{dates}

abbrev site : String → Site
site id = record {
  id = id;
  slug = id;
  name = id;
  dns_note = "";
  shutdown = false;
  config_revision = 1;
}

abbrev pub snapshot : String → ConnectionSnapshot
snapshot id = record {
  id = id;
  node_id = "n";
  site_id = "a";
  sampled_at = "expiry";
  active_connections = 2;
  bytes_up = 0;
  bytes_down = 0;
  rx_bps = none;
  tx_bps = some 8;
  top_sources = [];
  top_destinations = [];
  top_users = [];
  connections = none;
  api_available = true;
  received_at = "";
}

kept-collect-Holds_example :
    Holds dates "a" "n" 0
      (snapshot "1" ∷ snapshot "2" ∷ [])
      (kept (pos (0 * 60000)) "n" (collect dates "a" (snapshot "1" ∷ snapshot "2" ∷ []) []))
kept-collect-Holds_example = kept-collect-Holds dates "a" "n" 0 (snapshot "1" ∷ snapshot "2" ∷ [])

abbrev filters : RuleFilters
filters = record { search = "a|b"; node_id = ""; group_id = ""; mode = ""; direction = "" }

filters-IsPlain : IsPlain filters
filters-IsPlain = record { node = tt; group = tt; mode = tt; direction = tt }

kept-page : (rendered (filter_key filters) (page_of filters 50)).offset ≢ 0
unfolding rendered filter_key
kept-page = λ e. cc e

rendered-filter_key_example :
    (filters ≡ filters) × (rendered (filter_key filters) (page_of filters 50) ≡ page_of filters 50)
rendered-filter_key_example =
    rendered-filter_key filters filters 50 filters-IsPlain filters-IsPlain kept-page

abbrev form : GroupForm
form = add_entry (open_form 0 none)

form-Reach : Reach form
form-Reach = next (start 0 none) (added (open_form 0 none))

form-second : get_elem? form.entries 1 ≡ some (record { key = 2; kind = domain; pattern = "" })
unfolding add_entry open_form draft_entries
form-second = refl

remove_entry_lem_example :
    remove_entry 2 form.entries ≡ take 1 form.entries ++ drop (1 + 1) form.entries
remove_entry_lem_example =
    remove_entry_lem form 1 (record { key = 2; kind = domain; pattern = "" }) form-Reach form-second
