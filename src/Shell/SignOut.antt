-- ===== src/Shell/SignOut.antt =====
-- Signing out ends the session here, whatever the server does.
use grouproxy.Base.{String, Bool, true, false, ◌≡◌, ◌∙◌, Option, arith}
use grouproxy.Base.Int.{ℤ}
use grouproxy.Base.Dict.{lookup, lookup-insert}
use grouproxy.Api.Session.{Browser}
use grouproxy.Api.Session.Lifecycle.{
  IsSignedOut, clear_management_session-IsSignedOut, clear_management_session-lookup,
}
use grouproxy.Api.Transport.{Fetch}
use grouproxy.Api.Calls.{perform}
use grouproxy.Api.Calls.Account.{logout_management_session}
use grouproxy.Api.Calls.Effects.{IsForeign, perform-lookup, has_window-perform}
use grouproxy.Shell.{ShellState, sign_out, toggle_sidebar, stored_collapsed, sidebar_key}

module _ (base : String) (fetch : Fetch) (date_parse : String → Option ℤ) where
  module _ (s : ShellState) (w : Browser) (idle : s.signing_out ≡ false) where
    -- The first sign-out since the shell was mounted leaves no session in local storage, whether the
    -- server confirms, refuses or cannot be reached. No sign-out was started before in that shell,
    -- and there is a window.
    pub sign_out-IsSignedOut :
        w.has_window ≡ true → IsSignedOut (sign_out base fetch date_parse s w).1
    unfolding sign_out
    sign_out-IsSignedOut window =
        let told = (perform base fetch date_parse logout_management_session w).1 in
        rw idle (
          clear_management_session-IsSignedOut told
            (has_window-perform base fetch date_parse logout_management_session w ∙ window))

    -- Signing out leaves every key that is no part of the session as it was.
    pub sign_out-lookup :
        (key : String)
        → IsForeign key
        → lookup key (sign_out base fetch date_parse s w).1.local_storage
          ≡ lookup key w.local_storage
    unfolding sign_out
    sign_out-lookup key h =
        let told = (perform base fetch date_parse logout_management_session w).1 in
        rw idle (
          clear_management_session-lookup told key h.not_token h.not_role h.not_expiry
          ∙ perform-lookup key h base fetch date_parse logout_management_session w)

  -- After a first sign-out a second one does nothing: a session that was saved in between stays in
  -- local storage.
  pub sign_out_twice :
      (s : ShellState) (w later : Browser)
      → let after = (sign_out base fetch date_parse s w).0 in
        sign_out base fetch date_parse after later ≡ (after, later)
  unfolding sign_out
  sign_out_twice s w later = ground arith

-- The sidebar comes back as it was left.
pub stored_collapsed-toggle_sidebar :
    (collapsed : Bool) (w : Browser)
    → stored_collapsed (toggle_sidebar collapsed w).1 ≡ (toggle_sidebar collapsed w).0
unfolding stored_collapsed toggle_sidebar
stored_collapsed-toggle_sidebar true w =
    ground (arith, lookup-insert sidebar_key sidebar_key "false" w.local_storage)
stored_collapsed-toggle_sidebar false w =
    ground (arith, lookup-insert sidebar_key sidebar_key "true" w.local_storage)
