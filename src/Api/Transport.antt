-- ===== src/Api/Transport.antt =====
-- The transport of frontend/lib/api.ts (lines 586-599 and 754-866): error texts, `fetch`, and the
-- five request functions. The server is the argument `fetch`, the clock's text is `date_parse`.
pub mod Failures
pub mod Targets
use grouproxy.Base.{
  ℕ, String, Char, ◌<>◌, Bool, true, false, ◌&&◌, ◌||◌, Option, none, some, List, [], ◌∷◌, leb,
  ◌==◌, if◌then◌else◌, str_eq, starts_with,
}
use grouproxy.Base.Int.{ℤ}
use grouproxy.Base.Dict.{Dict, insert}
use grouproxy.Api.Json.{Json, null, bool, num, str, arr, obj, Fields, get}
use grouproxy.Api.Session.{
  Browser, is_truthy, active_management_token, redirect_for_authentication_failure,
}

-- A body before it is serialised: a JSON value, or the fields of a form, a file by its text.
pub data Body : Type 0 where
  json : Json → Body
  form : Dict String → Body

pub record RequestInit : Type 0 where
  pub method : String
  pub headers : Dict String
  pub body : Option Body

-- `payload` is `none` where `response.json()` rejects.
pub record Response : Type 0 where
  pub status : ℕ
  pub status_text : String
  pub payload : Option Json
  pub text : String

-- How a request ends. `invalid_json` is the exception of `response.json()` on a successful
-- response; a value of `none` is `undefined`.
pub data Outcome (A : Type 0) : Type 0 where
  done : A → Outcome A
  api_error : ℕ → String → Outcome A
  invalid_json : Outcome A

-- Whether one of the five codes says that the session is of no more use.
unfoldable pub is_authentication_failure : String → Bool
is_authentication_failure code =
    str_eq code "management_auth_required"
    || str_eq code "management_session_expired"
    || str_eq code "management_session_revoked"
    || str_eq code "management_session_invalid"
    || str_eq code "management_account_inactive"

-- The code in a structured `detail`, if it is a text.
abbrev code_of : Option Json → String
code_of (some (str code)) = code
code_of _ = "request_failed"

abbrev detail_text : Option Json → String
detail_text (some (str detail)) = detail
detail_text (some (arr _)) = "validation_error"
detail_text (some (obj fs)) = code_of (get "code" fs)
detail_text _ = "request_failed"

unfoldable pub error_detail : Json → String
error_detail (obj fs) = detail_text (get "detail" fs)
error_detail _ = "request_failed"

-- The answer where the body says nothing.
abbrev fallback_error : Response → String
fallback_error r =
    if leb 500 r.status
    then "network_error"
    else if is_truthy r.status_text
    then r.status_text
    else "request_failed"

unfoldable pub read_error : Response → String
unfolding error_detail
read_error r = elim r.payload [
  | none ↦ fallback_error r
  | some body ↦
      if str_eq (error_detail body) "request_failed" then fallback_error r else error_detail body
]

abbrev pub ok : Response → Bool
ok r = leb 200 r.status && leb r.status 299

-- `message` of an `ApiError`; `shown` is the text of its status.
unfoldable pub error_message : String → String → String
error_message shown detail =
    if is_truthy detail then detail else "API request failed (" <> (shown <> ")")

-- The configured address without one slash at its end.
unfoldable pub base_url : String → String
base_url String.[] = String.[]
base_url (String.◌∷◌ c s) = elim s [
  | String.[] ↦ if str_eq (String.◌∷◌ c String.[]) "/" then String.[] else String.◌∷◌ c String.[]
  | String.◌∷◌ _ _ ↦ String.◌∷◌ c (base_url s)
]

-- Where `apiFetch` sends the request for a path: the base address is put before it once.
unfoldable pub target : String → String → String
target base path =
    if is_truthy base && (str_eq path base || starts_with path (base <> "/"))
    then path
    else base <> path

abbrev pub Fetch : Type 0
Fetch = String → RequestInit → Option Response

abbrev bearer : String → Dict String → Dict String
bearer token headers =
    if is_truthy token then insert "Authorization" ("Bearer " <> token) headers else headers

-- `(await response.json()) as T`
abbrev parsed : Response → Outcome (Option Json)
parsed r = elim r.payload [ none ↦ invalid_json | some body ↦ done (some body) ]

-- What `request` reads of a successful response: nothing of a 204.
unfoldable pub read_json : Response → Outcome (Option Json)
read_json r = if r.status == 204 then done none else parsed r

-- The end of a call without a session: `read` takes what a successful response holds.
unfoldable pub public_outcome : {A : Type 0} → (Response → Outcome A) → Option Response → Outcome A
public_outcome read none = api_error 0 "network_error"
public_outcome read (some r) = if ok r then read r else api_error r.status (read_error r)

-- Whether the response ends the session that sent `token`.
unfoldable pub ends_session : String → Response → Bool
ends_session token r =
    r.status == 401 && (is_truthy token && is_authentication_failure (read_error r))

-- The end of a call with the session's token: the outcome, and the browser after it.
unfoldable pub session_outcome :
    {A : Type 0} → (Response → Outcome A) → String → Option Response → Browser → Outcome A × Browser
session_outcome read token none w = (public_outcome read none, w)
session_outcome read token (some r) w = (
  public_outcome read (some r),
  if ok r
      then w
      else if ends_session token r
      then redirect_for_authentication_failure (read_error r) w
      else w,
)

-- `RequestInit` of `requestPublic`, `requestPublicText`, `requestText`, `requestForm`.
unfoldable pub get_init : Dict String → RequestInit
get_init headers = record { method = "GET"; headers = headers; body = none }

unfoldable pub request_init : String → RequestInit → RequestInit
request_init token init = record init {
  headers = bearer token (insert "Accept" "application/json" init.headers);
}

unfoldable pub form_init : String → Dict String → RequestInit
form_init token fields = record {
  method = "POST";
  headers = bearer token [];
  body = some (form fields);
}

module _ (base : String) (fetch : Fetch) where
  -- `none` stands for the `ApiError(0, "network_error")` that is thrown.
  unfoldable pub api_fetch : String → RequestInit → Option Response
  unfolding target
  api_fetch path init = fetch (target base path) init

  unfoldable pub request_public : String → Outcome (Option Json)
  request_public path =
      public_outcome read_json (api_fetch path (get_init (("Accept", "application/json") ∷ [])))

  unfoldable pub request_public_text : String → Outcome String
  request_public_text path =
      public_outcome (λ r. done r.text) (api_fetch path (get_init (("Accept", "text/plain") ∷ [])))

  module _ (date_parse : String → Option ℤ) where
    unfoldable pub request : String → RequestInit → Browser → Outcome (Option Json) × Browser
    request path init w =
        let (token, w') = active_management_token date_parse w in
        session_outcome read_json token (api_fetch path (request_init token init)) w'

    unfoldable pub request_text : String → Browser → Outcome String × Browser
    request_text path w =
        let (token, w') = active_management_token date_parse w in
        session_outcome (λ r. done r.text) token (api_fetch path (get_init (bearer token []))) w'

    unfoldable pub request_form : String → Dict String → Browser → Outcome (Option Json) × Browser
    request_form path fields w =
        let (token, w') = active_management_token date_parse w in
        session_outcome parsed token (api_fetch path (form_init token fields)) w'

-- `jsonRequest(method, body)`; with no body there is no content type.
unfoldable pub json_request : String → Option Json → RequestInit
json_request method none = record { method = method; headers = []; body = none }
json_request method (some value) = record {
  method = method;
  headers = ("Content-Type", "application/json") ∷ [];
  body = some (json value);
}

-- Where the unique part of an idempotency key comes from: `crypto.randomUUID()` if the browser
-- has it, else the time and a random number in hexadecimal.
pub record Entropy : Type 0 where
  pub random_uuid : Option String
  pub date_now : String
  pub random_hex : String

unfoldable pub create_idempotency_key : Entropy → String → String
create_idempotency_key e prefix =
    prefix
    <> (":"
        <> (elim e.random_uuid [ none ↦ e.date_now <> ("-" <> e.random_hex) | some uuid ↦ uuid ]))
