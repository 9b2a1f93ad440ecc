-- ===== src/Api/Session.antt =====
-- The session functions of frontend/lib/api.ts (lines 596-711) over the parts of the browser that
-- they read and write.
pub mod Lifecycle
pub mod Store
pub mod Refinement
use grouproxy.Base.{
  String, ◌<>◌, Bool, true, false, not, ◌&&◌, ◌||◌, ◌≡◌, Option, none, some, List, [], ◌∷◌, ◌++◌,
  if◌then◌else◌, str_eq,
}
use grouproxy.Base.Int.{ℤ, leb_ℤ}
use grouproxy.Base.Dict.{Dict, lookup, insert, erase}
use grouproxy.Api.Url.{encode_uri_component}

-- What the code reads and writes of its environment. `has_window` is `typeof window !==
-- "undefined"`. Local storage works; session storage is `none` where every access to it throws.
-- `replaced` lists the targets of `window.location.replace`, the latest last.
pub record Browser : Type 0 where
  pub has_window : Bool
  pub local_storage : Dict String
  pub session_storage : Option (Dict String)
  pub pathname : String
  pub replaced : List String
  pub now : ℤ

pub data SessionRole : Type 0 where
  root admin employee : SessionRole

abbrev pub role_name : SessionRole → String
role_name root = "root"
role_name admin = "admin"
role_name employee = "employee"

abbrev pub token_key : String
token_key = "grouproxy.management_token"

abbrev pub role_key : String
role_key = "grouproxy.session_role"

abbrev pub expires_at_key : String
expires_at_key = "grouproxy.session_expires_at"

abbrev pub auth_notice_key : String
auth_notice_key = "grouproxy.authentication_notice"

abbrev pub login_path : String
login_path = "/login"

-- `value || ""`
abbrev pub text_or_empty : Option String → String
text_or_empty none = ""
text_or_empty (some s) = s

-- `Boolean(text)`
abbrev pub is_truthy : String → Bool
is_truthy s = not (str_eq s "")

unfoldable pub set_session_item : String → String → Browser → Browser
set_session_item key value w = elim w.session_storage [
  | none ↦ w
  | some items ↦ record w { session_storage = some (insert key value items) }
]

unfoldable pub remove_session_item : String → Browser → Browser
remove_session_item key w = elim w.session_storage [
  | none ↦ w
  | some items ↦ record w { session_storage = some (erase key items) }
]

-- `window.sessionStorage.getItem`, with the empty text where it throws or finds nothing.
unfoldable pub session_item : String → Browser → String
session_item key w = elim w.session_storage [
  | none ↦ ""
  | some items ↦ text_or_empty (lookup key items)
]

unfoldable pub clear_management_session : Browser → Browser
clear_management_session w =
    if w.has_window
    then record w {
      local_storage = erase expires_at_key (erase role_key (erase token_key w.local_storage));
    }
    else w

unfoldable pub redirect_for_authentication_failure : String → Browser → Browser
unfolding clear_management_session set_session_item
redirect_for_authentication_failure detail w =
    if w.has_window
    then (let noticed = set_session_item auth_notice_key detail (clear_management_session w) in
        if str_eq w.pathname login_path then noticed else record noticed {
          replaced = noticed.replaced ++ (("/login?reason=" <> encode_uri_component detail) ∷ []);
        })
    else w

unfoldable pub is_public_access_path : Browser → Bool
is_public_access_path w = w.has_window && (str_eq w.pathname "/" || str_eq w.pathname "/access")

unfoldable pub management_token : Browser → String
management_token w = if w.has_window then text_or_empty (lookup token_key w.local_storage) else ""

abbrev parse_role : Option String → Option SessionRole
parse_role none = none
parse_role (some s) =
    if str_eq s "root"
    then some root
    else if str_eq s "admin"
    then some admin
    else if str_eq s "employee"
    then some employee
    else none

unfoldable pub management_session_role : Browser → Option SessionRole
management_session_role w =
    if w.has_window then parse_role (lookup role_key w.local_storage) else none

unfoldable pub save_management_session : String → SessionRole → String → Browser → Browser
unfolding remove_session_item
save_management_session token role expires_at w =
    if w.has_window
    then remove_session_item auth_notice_key (record w {
      local_storage =
          insert expires_at_key expires_at
            (insert role_key (role_name role) (insert token_key token w.local_storage));
    })
    else w

unfoldable pub consume_authentication_notice : Browser → String × Browser
unfolding session_item remove_session_item
consume_authentication_notice w =
    if w.has_window
    then (session_item auth_notice_key w, remove_session_item auth_notice_key w)
    else ("", w)

abbrev pub is_employee : Option SessionRole → Bool
is_employee (some employee) = true
is_employee _ = false

-- `Date.parse`, which reads a text as milliseconds since 1970, or as NaN.
module _ (date_parse : String → Option ℤ) where
  -- Whether an expiry text lies in the past; one that does not parse never does.
  abbrev pub has_passed : ℤ → String → Bool
  has_passed now value = elim (date_parse value) [ none ↦ false | some at ↦ leb_ℤ at now ]

  unfoldable pub stored_session_expired : Browser → Bool
  stored_session_expired w =
      if w.has_window
      then (let value = text_or_empty (lookup expires_at_key w.local_storage) in
          is_truthy value && has_passed w.now value)
      else false

  -- The token, or the empty text; an expired session is cleared on the way.
  unfoldable pub active_management_token : Browser → String × Browser
  active_management_token w =
      let token = management_token w in
      if is_truthy token && stored_session_expired w
      then (if is_public_access_path w
          then (
            "",
            set_session_item auth_notice_key "management_session_expired"
                (clear_management_session w),
          )
          else ("", redirect_for_authentication_failure "management_session_expired" w))
      else (token, w)

  unfoldable pub has_management_session : Browser → Bool × Browser
  has_management_session w =
      let (token, w') = active_management_token w in
      (is_truthy token && not (is_employee (management_session_role w')), w')

  unfoldable pub has_authenticated_session : Browser → Bool × Browser
  has_authenticated_session w = let (token, w') = active_management_token w in (is_truthy token, w')
