-- ===== src/Examples/Requests.antt =====
-- The theorems on requests and calls at the browser and the servers of the examples.
use grouproxy.Base.{String, ◌≡◌, refl, true, false, some, none, inl, inr, arith}
use grouproxy.Base.Dict.{lookup}
use grouproxy.Api.Session.{management_token, stored_session_expired}
use grouproxy.Api.Session.Lifecycle.{IsSignedOut, HasNotice}
use grouproxy.Api.Json.{get}
use grouproxy.Api.Url.{trim}
use grouproxy.Api.Transport.{
  api_error, read_error, error_detail, ends_session, is_authentication_failure, request,
}
use grouproxy.Api.Transport.Failures.{SessionStays, request-keeps_browser, request-IsSignedOut}
use grouproxy.Api.Calls.{perform}
use grouproxy.Api.Calls.Effects.{perform-lookup}
use grouproxy.Api.Calls.Nodes.{
  ProxySelectionRequest, undefined, none_yet, selection_key, get_node_probes,
}
use grouproxy.Api.Calls.Laws.{expected_number, selection_key_inj}
use grouproxy.Examples.{dates, live, expired, plain_get, revoked, refused, answers}
use grouproxy.Examples.Sessions.{locale-IsForeign}

live-IsLive : stored_session_expired dates live ≡ false
unfolding stored_session_expired lookup
live-IsLive = refl

revoked-ends : ends_session (management_token live) revoked ≡ true
unfolding ends_session management_token lookup is_authentication_failure read_error error_detail get
revoked-ends = refl

-- The refusal has the status 403.
refused-SessionStays : SessionStays (management_token live) (some refused)
refused-SessionStays = inr (inl (λ e. omega arith))

request-IsSignedOut_example :
    ((request "" (answers revoked) dates "/api/v1/nodes" plain_get live).0
      ≡ api_error 401 (read_error revoked))
    × IsSignedOut (request "" (answers revoked) dates "/api/v1/nodes" plain_get live).1
    × HasNotice
        (read_error revoked)
        (request "" (answers revoked) dates "/api/v1/nodes" plain_get live).1
request-IsSignedOut_example =
    request-IsSignedOut "" (answers revoked) dates "/api/v1/nodes" plain_get live revoked refl
      live-IsLive refl revoked-ends

request-keeps_browser_example :
    (request "" (answers refused) dates "/api/v1/nodes" plain_get live).1 ≡ live
request-keeps_browser_example =
    request-keeps_browser "" (answers refused) dates "/api/v1/nodes" plain_get live live-IsLive
      refused-SessionStays

perform-lookup_example :
    lookup "grouproxy.locale"
      (perform "" (answers revoked) dates (get_node_probes "n1") expired).1.local_storage
    ≡ lookup "grouproxy.locale" expired.local_storage
perform-lookup_example =
    perform-lookup "grouproxy.locale" locale-IsForeign "" (answers revoked) dates
      (get_node_probes "n1") expired

abbrev padded : ProxySelectionRequest
padded = record {
  group = " proxy ";
  outbound = "direct";
  expected_current_version = undefined;
  note = none;
}

abbrev bare : ProxySelectionRequest
bare = record {
  group = "proxy";
  outbound = "direct ";
  expected_current_version = none_yet;
  note = some "n";
}

padded-key : selection_key "n1" padded ≡ selection_key "n1" bare
unfolding selection_key trim
padded-key = refl

selection_key_inj_example :
    (◌≡◌ {A = String} "n1" "n1")
    × (trim " proxy " ≡ trim "proxy")
    × (trim "direct" ≡ trim "direct ")
    × (expected_number undefined ≡ expected_number none_yet)
selection_key_inj_example = selection_key_inj "n1" "n1" padded bare padded-key
