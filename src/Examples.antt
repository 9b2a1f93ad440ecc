-- ===== src/Examples.antt =====
-- Concrete inputs for the theorems: a browser with a session, servers that answer in a fixed way,
-- and small messages.
mod Sessions
mod SignIn
mod Subscriptions
mod Policy
mod Requests
mod Messages
mod Pages
mod Routing
mod Guide
mod Settings
mod Controls
mod Probes
mod Alerts
mod Releases
use grouproxy.Base.{
  String, ◌≡◌, ◌≢◌, false, eq_iff, Bool, true, Option, none, some, List, [], ◌∷◌, if◌then◌else◌,
  str_eq,
}
use grouproxy.Base.Int.{ℤ, pos}
use grouproxy.Base.Dict.{Dict}
use grouproxy.Api.Json.{str, obj, end, field}
use grouproxy.Api.Session.{Browser}
use grouproxy.Api.Transport.{RequestInit, Response, Fetch}

ne_of_test : (s t : String) → str_eq s t ≡ false → s ≢ t
ne_of_test s t h e = cc (h, (eq_iff s t).1 e)

-- One date that parses, at 1000 ms.
abbrev dates : String → Option ℤ
dates s = if str_eq s "expiry" then some (pos 1000) else none

abbrev stored : Dict String
stored =
    ("grouproxy.management_token", "secret")
    ∷ ("grouproxy.session_role", "admin")
    ∷ ("grouproxy.session_expires_at", "expiry")
    ∷ ("grouproxy.locale", "es")
    ∷ []

abbrev browser_at : ℤ → Browser
browser_at now = record {
  has_window = true;
  local_storage = stored;
  session_storage = some [];
  pathname = "/nodes";
  replaced = [];
  now = now;
}

-- The session of `stored` has not expired, or has.
abbrev live : Browser
live = browser_at (pos 500)

abbrev expired : Browser
expired = browser_at (pos 2000)

abbrev plain_get : RequestInit
plain_get = record { method = "GET"; headers = []; body = none }

abbrev revoked : Response
revoked = record {
  status = 401;
  status_text = "Unauthorized";
  payload = some (obj (field "detail" (str "management_session_revoked") end));
  text = "";
}

abbrev refused : Response
refused = record {
  status = 403;
  status_text = "Forbidden";
  payload = some (obj (field "detail" (str "forbidden") end));
  text = "";
}

abbrev answers : Response → Fetch
answers r address init = some r

abbrev unreachable : Fetch
unreachable address init = none
