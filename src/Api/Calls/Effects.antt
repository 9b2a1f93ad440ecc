-- ===== src/Api/Calls/Effects.antt =====
-- What a call can do to the browser, whatever the server answers.
use grouproxy.Base.{String, ◌≡◌, refl, ◌∙◌, ◌≢◌, Option, none, some, arith}
use grouproxy.Base.Int.{ℤ}
use grouproxy.Base.Dict.{lookup}
use grouproxy.Api.Session.{
  Browser, token_key, role_key, expires_at_key, set_session_item, auth_notice_key,
  clear_management_session, redirect_for_authentication_failure, active_management_token,
}
use grouproxy.Api.Session.Lifecycle.{
  clear_management_session-lookup, local_storage-redirect, local_storage-set_session_item,
}
use grouproxy.Api.Transport.{
  Response, Outcome, Fetch, read_error, session_outcome, request, request_text, request_form,
}
use grouproxy.Api.Calls.{
  Call, json_call, text_call, form_call, public_call, public_text_call, perform,
}

-- A key of local storage that is no part of the session, such as the locale's.
pub record IsForeign (key : String) : Type 0 where
  pub not_token : key ≢ token_key
  pub not_role : key ≢ role_key
  pub not_expiry : key ≢ expires_at_key

module _ (key : String) (h : IsForeign key) where
  -- Two browsers hold the same under the key.
  abbrev Agree : Browser → Browser → Type 0
  Agree w' w = lookup key w'.local_storage ≡ lookup key w.local_storage

  clear-Agree : (w : Browser) → Agree (clear_management_session w) w
  clear-Agree w = clear_management_session-lookup w key h.not_token h.not_role h.not_expiry

  redirect-Agree :
      (detail : String) (w : Browser) → Agree (redirect_for_authentication_failure detail w) w
  redirect-Agree detail w = rw (local_storage-redirect detail w) (clear-Agree w)

  active-Agree :
      (date_parse : String → Option ℤ) (w : Browser)
      → Agree (active_management_token date_parse w).1 w
  unfolding active_management_token
  active-Agree date_parse w = ground (
    arith,
    redirect-Agree "management_session_expired" w,
    local_storage-set_session_item auth_notice_key "management_session_expired"
        (clear_management_session w),
    clear-Agree w,
  )

  outcome-Agree :
      {A : Type 0} (read : Response → Outcome A) (token : String) (reply : Option Response)
      (w : Browser)
      → Agree (session_outcome read token reply w).1 w
  unfolding session_outcome
  outcome-Agree read token none w = refl
  outcome-Agree read token (some r) w = ground (arith, redirect-Agree (read_error r) w)

  module _ (base : String) (fetch : Fetch) (date_parse : String → Option ℤ) where
    -- No call touches what other parts of the console keep in local storage: the locale, the theme
    -- and the sidebar outlive an expired or revoked session.
    pub perform-lookup :
        (c : Call) (w : Browser)
        → lookup key (perform base fetch date_parse c w).1.local_storage
          ≡ lookup key w.local_storage
    unfolding perform request request_text request_form
    perform-lookup (json_call path init) w = outcome-Agree _ _ _ _ ∙ active-Agree date_parse w
    perform-lookup (text_call path) w = outcome-Agree _ _ _ _ ∙ active-Agree date_parse w
    perform-lookup (form_call path fields) w = outcome-Agree _ _ _ _ ∙ active-Agree date_parse w
    perform-lookup (public_call path) w = refl
    perform-lookup (public_text_call path) w = refl

redirect-has_window :
    (detail : String) (w : Browser)
    → (redirect_for_authentication_failure detail w).has_window ≡ w.has_window
unfolding redirect_for_authentication_failure
redirect-has_window detail w = ground arith

active-has_window :
    (date_parse : String → Option ℤ) (w : Browser)
    → (active_management_token date_parse w).1.has_window ≡ w.has_window
unfolding active_management_token clear_management_session set_session_item
active-has_window date_parse w = ground (arith, redirect-has_window "management_session_expired" w)

outcome-has_window :
    {A : Type 0} (read : Response → Outcome A) (token : String) (reply : Option Response)
    (w : Browser)
    → (session_outcome read token reply w).1.has_window ≡ w.has_window
unfolding session_outcome
outcome-has_window read token none w = refl
outcome-has_window read token (some r) w = ground (arith, redirect-has_window (read_error r) w)

module _ (base : String) (fetch : Fetch) (date_parse : String → Option ℤ) where
  pub has_window-perform :
      (c : Call) (w : Browser) → (perform base fetch date_parse c w).1.has_window ≡ w.has_window
  unfolding perform request request_text request_form
  has_window-perform (json_call path init) w =
      outcome-has_window _ _ _ _ ∙ active-has_window date_parse w
  has_window-perform (text_call path) w =
      outcome-has_window _ _ _ _ ∙ active-has_window date_parse w
  has_window-perform (form_call path fields) w =
      outcome-has_window _ _ _ _ ∙ active-has_window date_parse w
  has_window-perform (public_call path) w = refl
  has_window-perform (public_text_call path) w = refl
