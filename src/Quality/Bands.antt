-- ===== src/Quality/Bands.antt =====
-- How the status and the band of a sample fit together.
use grouproxy.Base.{ℕ, Bool, true, false, ◌≡◌, ◌≢◌, some, arith, String, if◌then◌else◌, ◌⊎◌}
use grouproxy.Api.Entities.Nodes.{ServiceQualityStat}
use grouproxy.Api.Calls.Sites.{ServiceQualityDefinition}
use grouproxy.Quality.{LatencyBand, good, acceptable, high, unknown, quality_status, latency_band}

-- The status that goes with a band, where the last sample was a success.
abbrev pub status_of_band : LatencyBand → String
status_of_band good = "healthy"
status_of_band acceptable = "degraded"
status_of_band high = "attention"
status_of_band unknown = "healthy"

-- For an outbound with samples whose last one was a success, the status is the one that goes with
-- the colour of its bar, and after a failure the bar is red and the status offline. The green limit
-- lies within the yellow one, and the order of the numbers is transitive.
pub status-band :
    {N : Type 0} (leq : N → N → Bool) (of_ms : ℕ → N)
    → ((a b c : N) → leq a b ≡ true → leq b c ≡ true → leq a c ≡ true)
    → (entry : ServiceQualityStat N) (definition : ServiceQualityDefinition) (average : N)
      (success : Bool)
    → leq (of_ms definition.green_max_ms) (of_ms definition.yellow_max_ms) ≡ true
    → entry.sample_count ≢ 0
    → entry.average_latency_ms ≡ some average
    → entry.last_success ≡ some success
    → (quality_status leq of_ms entry definition
        ≡ (if success then status_of_band (latency_band leq of_ms entry definition) else "offline"))
      × ((success ≡ true) ⊎ (latency_band leq of_ms entry definition ≡ high))
unfolding quality_status latency_band
status-band leq of_ms trans entry definition average true limits sampled measured last =
    ground (arith, trans average (of_ms definition.green_max_ms) (of_ms definition.yellow_max_ms))
status-band leq of_ms trans entry definition average false limits sampled measured last =
    ground arith
