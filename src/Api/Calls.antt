-- ===== src/Api/Calls.antt =====
-- The calls of frontend/lib/api.ts (lines 713-752 and 868-1346), one function for each exported
-- function: which request function it uses, with which path and which `RequestInit`.
pub mod Account
pub mod Sites
pub mod Nodes
pub mod Access
pub mod Subscriptions
pub mod Releases
pub mod Telemetry
pub mod Operations
pub mod Queries
pub mod Effects
pub mod Laws
use grouproxy.Base.{String, ◌<>◌, Option, none, some, List, [], ◌∷◌}
use grouproxy.Base.Int.{ℤ}
use grouproxy.Base.Dict.{Dict}
use grouproxy.Api.Url.{encode_uri_component}
use grouproxy.Api.Json.{Json, Fields, str, obj, end, field}
use grouproxy.Api.Session.{Browser}
use grouproxy.Api.Transport.{
  RequestInit, Outcome, json, Fetch, json_request, request, request_text, request_form,
  request_public, request_public_text,
}

-- The request function that a call goes through, with its arguments.
pub data Call : Type 0 where
  json_call : String → RequestInit → Call
  text_call : String → Call
  form_call : String → Dict String → Call
  public_call : String → Call
  public_text_call : String → Call

pub data Reply : Type 0 where
  json_reply : Outcome (Option Json) → Reply
  text_reply : Outcome String → Reply

-- `request(path)`
abbrev pub get_call : String → Call
get_call path = json_call path (record { method = "GET"; headers = []; body = none })

-- `request(path, jsonRequest(method, value))`
abbrev pub send_call : String → String → Json → Call
send_call method path value = json_call path (json_request method (some value))

-- `request(path, jsonRequest(method))`
abbrev pub empty_call : String → String → Call
empty_call method path = json_call path (json_request method none)

-- `request(path, { ...jsonRequest("POST", value), headers: { …, "Idempotency-Key": key } })`
abbrev pub keyed_call : String → String → Json → Call
keyed_call path key value = json_call path (record {
  method = "POST";
  headers = ("Content-Type", "application/json") ∷ ("Idempotency-Key", key) ∷ [];
  body = some (json value);
})

-- One segment of a path, escaped.
abbrev pub seg : String → String
seg = encode_uri_component

-- An object with one text field.
abbrev pub one_text : String → String → Json
one_text name value = obj (field name (str value) end)

module _ (base : String) (fetch : Fetch) (date_parse : String → Option ℤ) where
  -- What the call returns, and the browser after it.
  unfoldable pub perform : Call → Browser → Reply × Browser
  perform (json_call path init) w =
      let (outcome, w') = request base fetch date_parse path init w in (json_reply outcome, w')
  perform (text_call path) w =
      let (outcome, w') = request_text base fetch date_parse path w in (text_reply outcome, w')
  perform (form_call path fields) w =
      let (outcome, w') = request_form base fetch date_parse path fields w in
      (json_reply outcome, w')
  perform (public_call path) w = (json_reply (request_public base fetch path), w)
  perform (public_text_call path) w = (text_reply (request_public_text base fetch path), w)
