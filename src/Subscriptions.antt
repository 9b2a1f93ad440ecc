-- ===== src/Subscriptions.antt =====
-- frontend/app/subscriptions/page.tsx: the sources of subscriptions, their addresses, and the form
-- that adds one.
pub mod Addresses
pub mod Refresh
pub mod Publish
pub mod Ticking
pub mod Effects
pub mod Targets
use grouproxy.Base.{
  ℕ, ◌+◌, String, Char, code, ◌<>◌, Bool, true, false, not, ◌&&◌, ◌||◌, Option, none, some, List,
  [], ◌∷◌, leb, ◌==◌, if◌then◌else◌, str_eq,
}
use grouproxy.Base.Int.{ℤ, leb_ℤ}
use grouproxy.Api.Url.{trim}
use grouproxy.Api.Session.{is_truthy}
use grouproxy.Api.Transport.{Entropy}
use grouproxy.Api.Calls.{Call}
use grouproxy.Api.Calls.Subscriptions.{
  SubscriptionInput, create_subscription_source, create_single_node_subscription,
  upload_subscription,
}
use grouproxy.Api.Entities.Subscriptions.{
  SourceType, http, upload, single_node, SubscriptionSource, SubscriptionVersion,
}
use grouproxy.Quality.{Sign, lesser, same, greater, sort}

pub data SourceScheme : Type 0 where
  plain_http https : SourceScheme

abbrev pub scheme_name : SourceScheme → String
scheme_name plain_http = "http"
scheme_name https = "https"

-- The code of a letter in lower case.
abbrev pub lower : ℕ → ℕ
lower c = if leb 65 c && leb c 90 then c + 32 else c

-- What follows a prefix that is given in lower case, whatever the case of the text.
unfoldable pub strip_any_case : String → String → Option String
strip_any_case String.[] s = some s
strip_any_case (String.◌∷◌ p ps) String.[] = none
strip_any_case (String.◌∷◌ p ps) (String.◌∷◌ c s) =
    let rest = strip_any_case ps s in if code p == lower (code c) then rest else none

-- The match of `/^(https?):\/\//i`: the scheme, and the text after it.
unfoldable pub match_scheme : String → Option (SourceScheme × String)
match_scheme s = elim (strip_any_case "https://" s) [
  | some rest ↦ some (https, rest)
  | none ↦ elim (strip_any_case "http://" s) [ some rest ↦ some (plain_http, rest) | none ↦ none ]
]

abbrev pub after_scheme : Option (SourceScheme × String) → String → String
after_scheme none s = s
after_scheme (some (scheme, rest)) s = rest

unfoldable pub without_scheme : String → String
without_scheme s = after_scheme (match_scheme s) s

unfoldable pub compose_source_url : SourceScheme → String → String
compose_source_url scheme value = scheme_name scheme <> ("://" <> without_scheme (trim value))

abbrev pub matched_scheme : Option (SourceScheme × String) → Option SourceScheme
matched_scheme none = none
matched_scheme (some (scheme, rest)) = some scheme

unfoldable pub scheme_from_url : String → Option SourceScheme
scheme_from_url value = matched_scheme (match_scheme (trim value))

-- `applySourceURLInput`: the scheme that was typed, if one was, and the text of the field.
unfoldable pub apply_source_url_input : String → Option SourceScheme × String
apply_source_url_input value = elim (scheme_from_url value) [
  | none ↦ (none, value)
  | some detected ↦ (some detected, without_scheme (trim value))
]

pub data RefreshState : Type 0 where
  current failed pending : RefreshState

unfoldable pub source_refresh_state : SubscriptionSource → RefreshState
source_refresh_state s = if is_truthy s.last_refresh_error then failed else elim s.last_refresh_at [
  | none ↦ pending
  | some at ↦ if is_truthy at then current else pending
]

-- The fields of the form; a file by its text, and the interval as the number of its option.
pub record SourceForm : Type 0 where
  pub source_type : SourceType
  pub name : String
  pub scheme : SourceScheme
  pub url : String
  pub fetch_interval : ℕ
  pub uri : String
  pub file : Option String

-- The editing of the address, and the choice of a scheme.
unfoldable pub edit_url : String → SourceForm → SourceForm
edit_url value f =
    let (scheme, url) = apply_source_url_input value in
    elim scheme [
      | none ↦ record f { url = url }
      | some detected ↦ record f { scheme = detected; url = url }
    ]

unfoldable pub choose_scheme : SourceScheme → SourceForm → SourceForm
choose_scheme scheme f = record f { scheme = scheme; url = without_scheme f.url }

abbrev pub source_input : SourceForm → SubscriptionInput
source_input f = record {
  name = trim f.name;
  url = compose_source_url f.scheme f.url;
  scheme = some (scheme_name f.scheme);
  fetch_interval_sec = some f.fetch_interval;
  max_body_bytes = none;
  redirect_limit = none;
}

abbrev pub filled : String → Bool
filled s = is_truthy (trim s)

-- `submitSource`: the call that is made, if one is.
unfoldable pub submit_source : Entropy → SourceForm → Option Call
submit_source e f = elim f.source_type [
  | http ↦
      if filled f.name && filled f.url
      then some (create_subscription_source e (source_input f))
      else none
  | single_node ↦
      if filled f.uri
      then some (create_single_node_subscription e (trim f.name) (trim f.uri))
      else none
  | upload ↦ elim f.file [
    | none ↦ none
    | some file ↦ if filled f.name then some (upload_subscription (trim f.name) file) else none
  ]
]

abbrev pub is_missing : {A : Type 0} → Option A → Bool
is_missing none = true
is_missing (some _) = false

unfoldable pub submit_disabled : Bool → SourceForm → Bool
submit_disabled busy f = busy || (elim f.source_type [
  | http ↦ not (filled f.name) || not (filled f.url)
  | single_node ↦ not (filled f.uri)
  | upload ↦ not (filled f.name) || is_missing f.file
])

abbrev pub is_kind : SourceType → SourceType → Bool
is_kind http http = true
is_kind upload upload = true
is_kind single_node single_node = true
is_kind _ _ = false

abbrev pub is_state : RefreshState → RefreshState → Bool
is_state current current = true
is_state failed failed = true
is_state pending pending = true
is_state _ _ = false

abbrev pub passes : {A : Type 0} → (A → A → Bool) → Option A → A → Bool
passes test none x = true
passes test (some wanted) x = test x wanted

-- Whether a source passes both filters; `none` is the filter `""`.
unfoldable pub is_listed : Option SourceType → Option RefreshState → SubscriptionSource → Bool
is_listed kind state s =
    passes is_kind kind s.source_type && passes is_state state (source_refresh_state s)

abbrev pub keep : {A : Type 0} → (A → Bool) → List A → List A
keep test [] = []
keep test (x ∷ xs) = let rest = keep test xs in if test x then x ∷ rest else rest

-- `Date.parse(right) - Date.parse(left)` as a comparator: `NaN` counts as no difference.
unfoldable pub newest_first : (String → Option ℤ) → SubscriptionSource → SubscriptionSource → Sign
newest_first date_parse left right = elim (date_parse left.created_at) [
  | none ↦ same
  | some l ↦ elim (date_parse right.created_at) [
    | none ↦ same
    | some r ↦ if leb_ℤ l r then (if leb_ℤ r l then same else greater) else lesser
  ]
]

unfoldable pub filtered_source_items :
    (String → Option ℤ)
    → Option SourceType
    → Option RefreshState
    → List SubscriptionSource
    → List SubscriptionSource
filtered_source_items date_parse kind state sources =
    sort (newest_first date_parse) (keep (is_listed kind state) sources)
