-- ===== src/Login/Notices.antt =====
-- The reason that the login page gives when it opens: frontend/app/login/page.tsx, lines 151-164.
use grouproxy.Api.Url.{encode_uri_component}
use grouproxy.Base.{
  ap, test_of_ne, ◌≢◌, ◌<>◌, List, ◌++◌, String, Bool, true, false, ◌≡◌, refl, ◌∙◌, Option, none,
  some, [], ◌∷◌, arith, if◌then◌else◌, eq_iff, eq_refl, Option-cases, inl, inr,
}
use grouproxy.Base.Dict.{Dict, lookup, lookup-erase}
use grouproxy.Api.Session.{
  Browser, is_truthy, login_path, redirect_for_authentication_failure,
  consume_authentication_notice, session_item, auth_notice_key, remove_session_item,
}
use grouproxy.Api.Session.Lifecycle.{as_stored, redirect-HasNotice, redirect-replaced}
use grouproxy.Api.Session.Refinement.{has_window-redirect}
use grouproxy.Api.Transport.{is_authentication_failure}
use grouproxy.Toast.{ToastInput, destructive}

abbrev pub auth_notices : Dict String
auth_notices =
    ("management_auth_required", "Authentication is required. Sign in again.")
    ∷ ("management_session_expired", "Your management session has expired. Sign in again.")
    ∷ ("management_session_revoked", "Your management session was revoked. Sign in again.")
    ∷ ("management_session_invalid", "Your saved management session is invalid. Sign in again.")
    ∷ ("management_account_inactive", "This account is no longer active. Contact an administrator.")
    ∷ []

-- `consumeAuthenticationNotice() || queryReason`, and what is left in the browser.
unfoldable pub notice_reason : String → Browser → String × Browser
notice_reason query_reason w =
    let (notice, after) = consume_authentication_notice w in
    (if is_truthy notice then notice else query_reason, after)

abbrev pub notice_toast : (String → String) → String → ToastInput
notice_toast t text = record {
  title = t text;
  description = none;
  variant = some destructive;
  duration = some 8000;
}

-- The effect at the opening of the page at an address. `URLSearchParams` is the argument `reason_in`,
-- from an address to its parameter `reason`, or to the empty text. The names from an object's prototype
-- are left aside, as in `auth_error_message`.
unfoldable pub show_notice :
    (String → String) → (String → String) → String → Browser → Option ToastInput × Browser
show_notice t reason_in address w =
    let (reason, after) = notice_reason (reason_in address) w in
    elim (lookup reason auth_notices) [
      | none ↦ (none, after)
      | some text ↦ (some (notice_toast t text), record after { pathname = login_path })
    ]

abbrev pub is_there : {A : Type 0} → Option A → Bool
is_there none = false
is_there (some _) = true

auth_notices-lookup :
    (detail : String)
    → is_authentication_failure detail ≡ true
    → (text : String) × (lookup detail auth_notices ≡ some text)
unfolding lookup is_authentication_failure
auth_notices-lookup detail h = elim (Option-cases (lookup detail auth_notices)) [
  | inl e ↦ absurd (
      ground (
        arith,
        eq_iff "management_auth_required" detail,
        eq_iff "management_session_expired" detail,
        eq_iff "management_session_revoked" detail,
        eq_iff "management_session_invalid" detail,
        eq_iff "management_account_inactive" detail,
        eq_iff detail "management_auth_required",
        eq_iff detail "management_session_expired",
        eq_iff detail "management_session_revoked",
        eq_iff detail "management_session_invalid",
        eq_iff detail "management_account_inactive",
      ))
  | inr found ↦ found
]

notice_reason-reads :
    (query : String) (w : Browser)
    → w.has_window ≡ true
    → (notice_reason query w).0 ≡ (
        if is_truthy (session_item auth_notice_key w)
        then session_item auth_notice_key w
        else query)
unfolding notice_reason consume_authentication_notice
notice_reason-reads query w h = rw h refl

as_stored_in :
    (storage : Option (Dict String)) (w : Browser) (detail : String)
    → let read = as_stored (record w { session_storage = storage }) detail in
      (if is_truthy read then read else detail) ≡ detail
as_stored_in none w detail = refl
as_stored_in (some items) w detail = ground arith

as_stored-or :
    (w : Browser) (detail : String)
    → (if is_truthy (as_stored w detail) then as_stored w detail else detail) ≡ detail
as_stored-or w detail = as_stored_in w.session_storage w detail

session_item-moved :
    (key path : String) (w : Browser)
    → session_item key (record w { pathname = path }) ≡ session_item key w
unfolding session_item
session_item-moved key path w = refl

notice_reason-redirect :
    (detail : String) (w : Browser)
    → w.has_window ≡ true
    → (notice_reason detail (redirect_for_authentication_failure detail w)).0 ≡ detail
notice_reason-redirect detail w h =
    let after = redirect_for_authentication_failure detail w in
    notice_reason-reads detail after (has_window-redirect detail w ∙ h)
    ∙ rw (redirect-HasNotice detail w h) (as_stored-or after detail)

-- After this the notice is gone.
session_item-notice_reason :
    (query : String) (w : Browser)
    → w.has_window ≡ true
    → session_item auth_notice_key (notice_reason query w).1 ≡ ""
unfolding notice_reason consume_authentication_notice remove_session_item session_item
session_item-notice_reason query w h = grind (arith, lookup-erase, eq_refl)

has_window-notice_reason :
    (query : String) (w : Browser) → (notice_reason query w).1.has_window ≡ w.has_window
unfolding notice_reason consume_authentication_notice remove_session_item
has_window-notice_reason query w = ground arith

show_notice-shown :
    (t reason_in : String → String) (address text : String) (w : Browser)
    → lookup (notice_reason (reason_in address) w).0 auth_notices ≡ some text
    → show_notice t reason_in address w ≡ (
      some (notice_toast t text),
      record (notice_reason (reason_in address) w).1 { pathname = login_path },
    )
unfolding show_notice
show_notice-shown t reason_in address text w h = rw (show_notice, h) refl

show_notice-silent :
    (t reason_in : String → String) (address : String) (w : Browser)
    → reason_in address ≡ ""
    → w.has_window ≡ true
    → session_item auth_notice_key w ≡ ""
    → (show_notice t reason_in address w).0 ≡ none
unfolding show_notice lookup
show_notice-silent t reason_in address w plain window empty =
    let e : (notice_reason (reason_in address) w).0 ≡ "" =
      notice_reason-reads (reason_in address) w window ∙ rw (empty, plain) refl in
    rw (show_notice, e) refl

-- The address that the browser is sent to, or where it is.
abbrev pub last_or : String → List String → String
last_or here [] = here
last_or here (target ∷ []) = target
last_or here (target ∷ other ∷ more) = last_or here (other ∷ more)

abbrev pub address_of : Browser → String
address_of w = last_or w.pathname w.replaced

last_or-append :
    (here target : String) (targets : List String)
    → last_or here (targets ++ (target ∷ [])) ≡ target
last_or-append here target [] = refl
last_or-append here target (first ∷ []) = refl
last_or-append here target (first ∷ second ∷ more) = last_or-append here target (second ∷ more)

address_of-redirect :
    (detail : String) (w : Browser)
    → w.has_window ≡ true
    → w.pathname ≢ login_path
    → address_of (redirect_for_authentication_failure detail w)
      ≡ "/login?reason=" <> encode_uri_component detail
address_of-redirect detail w window elsewhere =
    let after = redirect_for_authentication_failure detail w in
    let target : String = "/login?reason=" <> encode_uri_component detail in
    let replaced : after.replaced ≡ w.replaced ++ (target ∷ []) =
      redirect-replaced detail w window ∙ rw (test_of_ne w.pathname login_path elsewhere) refl in
    ap (last_or after.pathname) replaced ∙ last_or-append after.pathname target w.replaced

-- After a failure of authentication on another page the login page, opened at the address that the
-- browser is sent to, says what happened, once: the text of the code that the server sent is shown for
-- eight seconds, whether or not session storage can be used, and at the next opening, at the address
-- that the first one leaves, nothing is shown. There is a window, the page is not the login page
-- already, and the code is one that ends a session. The parameter `reason` of an address is read as
-- it was escaped, and the address of the login page itself has none.
pub show_notice-redirect :
    (t reason_in : String → String) (detail : String) (w : Browser)
    → w.has_window ≡ true
    → w.pathname ≢ login_path
    → is_authentication_failure detail ≡ true
    → reason_in ("/login?reason=" <> encode_uri_component detail) ≡ detail
    → reason_in login_path ≡ ""
    → let redirected = redirect_for_authentication_failure detail w in
      let (shown, after) = show_notice t reason_in (address_of redirected) redirected in
      ((text : String) × (lookup detail auth_notices ≡ some text)
        × (shown ≡ some (notice_toast t text)))
      × (after.pathname ≡ login_path)
      × ((show_notice t reason_in after.pathname after).0 ≡ none)
show_notice-redirect t reason_in detail w h elsewhere failure escaped plain =
    let redirected = redirect_for_authentication_failure detail w in
    let address = address_of redirected in
    let window = has_window-redirect detail w ∙ h in
    let found = auth_notices-lookup detail failure in
    let given : reason_in address ≡ detail =
      ap reason_in (address_of-redirect detail w h elsewhere) ∙ escaped in
    let left = (notice_reason (reason_in address) redirected).1 in
    let reads : lookup (notice_reason (reason_in address) redirected).0 auth_notices
        ≡ some found.0 =
      ap (λ reason. lookup (notice_reason reason redirected).0 auth_notices) given
      ∙ rw (notice_reason-redirect detail w h) found.1 in
    let shown = show_notice-shown t reason_in address found.0 redirected reads in
    rw shown (
      (found.0, found.1, refl),
      refl,
      show_notice-silent t reason_in login_path (record left { pathname = login_path }) plain
          (has_window-notice_reason (reason_in address) redirected ∙ window)
          (session_item-moved auth_notice_key login_path left
            ∙ session_item-notice_reason (reason_in address) redirected window),
    )
