-- ===== src/Examples/Pages.antt =====
-- The theorems on the pages at two sites, one node and three samples.
use mathlib.Core.List.{Perm}
use grouproxy.Base.{
  ℕ, String, true, false, ◌≡◌, ◌+◌, ◌≤◌, Option, some, none, List, [], ◌∷◌, All, leb, arith,
}
use grouproxy.Locale.{size}
use grouproxy.Release.{Translator}
use grouproxy.Api.Url.{show}
use grouproxy.Api.Entities.Nodes.{Node, ServiceQualityStat}
use grouproxy.Topology.{TopologySite, vertical, flow}
use grouproxy.Topology.Layout.{Fits, Spaced, flow-Fits}
use grouproxy.Quality.{Sign, compare_by, by_average_latency, desc, sorted_entries}
use grouproxy.Quality.Sorting.{IsSigned}
use grouproxy.Quality.Ranking.{Ranked, sorted_entries-Ranked}

abbrev collate : String → String → Sign
collate a b = compare_by leb (size a) (size b)

abbrev sample : String → Option ℕ → ServiceQualityStat ℕ
sample tag average = record {
  node_id = "n1";
  node_name = "node";
  site_id = "s1";
  site_name = "site";
  service = "web";
  outbound_tag = tag;
  average_latency_ms = average;
  min_latency_ms = average;
  max_latency_ms = average;
  success_rate = some 100;
  sample_count = 4;
  successful_samples = 4;
  failed_samples = 0;
  last_latency_ms = average;
  last_success = some true;
  last_sampled_at = none;
}

abbrev samples : List (ServiceQualityStat ℕ)
samples = sample "direct" (some 120) ∷ sample "proxy" none ∷ sample "hk" (some 40) ∷ []

leb_total : (a b : ℕ) → leb a b ≡ false → leb b a ≡ true
leb_total a b h = ground arith

collate-IsSigned : IsSigned collate
collate-IsSigned a b = ground arith

sorted_entries-Ranked_example :
    Perm (sorted_entries leb collate by_average_latency desc samples) samples
    × Ranked leb collate by_average_latency desc
        (sorted_entries leb collate by_average_latency desc samples)
sorted_entries-Ranked_example =
    sorted_entries-Ranked leb collate collate-IsSigned leb_total by_average_latency desc samples

abbrev pub node : Node
node = record {
  id = "n1";
  site_id = "s1";
  name = "node";
  agent_id = "a1";
  advertise_ip = "10.0.0.1";
  monitor_version = "1";
  singbox_version = "1";
  last_seen_at = none;
  desired_version = 2;
  applied_version = 2;
  applied_hash = "h";
  liveness_status = "online";
  config_status = "in_sync";
  service_status = "ok";
  subscription_status = "ok";
  probe_status = "ok";
  active_connections = none;
  bytes_up = none;
  bytes_down = none;
  rx_bps = none;
  tx_bps = none;
  last_error = "";
}

abbrev drawn_site : String → TopologySite
drawn_site id = record {
  site = record {
    id = id;
    slug = id;
    name = "site";
    dns_note = "";
    shutdown = false;
    config_revision = 1;
  };
  state = "healthy";
  node_count = 1;
}

abbrev drawn_sites : List TopologySite
drawn_sites = drawn_site "s1" ∷ drawn_site "s2" ∷ []

abbrev untranslated : Translator
untranslated key values = key

flow-Fits_example :
    let drawn = flow untranslated show (some vertical) false none drawn_sites 1 2 in
    Spaced drawn.sites
    × All (Fits drawn.height) drawn.sites
    × (drawn.control.position.y + 94 ≤ drawn.height)
flow-Fits_example = flow-Fits untranslated show (some vertical) false none drawn_sites 1 2
