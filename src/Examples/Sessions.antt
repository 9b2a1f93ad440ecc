-- ===== src/Examples/Sessions.antt =====
-- The session theorems at the browser of the examples.
use text.Mathlib.TextLemmas.{cons-ne-nil}
use grouproxy.Base.{◌≡◌, ◌≢◌, refl, false, [], true, some}
use grouproxy.Base.Dict.{lookup}
use grouproxy.Api.Session.{
  admin, management_token, stored_session_expired, active_management_token, save_management_session,
  management_session_role, has_management_session, session_item, auth_notice_key,
}
use grouproxy.Api.Session.Lifecycle.{
  IsSignedOut, HasNotice, active_management_token-genuine, active_management_token-IsSignedOut,
  active_management_token-save_management_session,
}
use grouproxy.Shell.{ShellState, sign_out}
use grouproxy.Shell.SignOut.{sign_out-IsSignedOut}
use grouproxy.Api.Calls.Effects.{IsForeign}
use grouproxy.Examples.{ne_of_test, dates, live, expired, unreachable}

live-token : (active_management_token dates live).0 ≡ "secret"
unfolding active_management_token management_token stored_session_expired lookup
live-token = refl

live-token-ne : (active_management_token dates live).0 ≢ ""
unfolding active_management_token management_token stored_session_expired lookup
live-token-ne = cons-ne-nil "s" "ecret"

active_management_token-genuine_example :
    ((active_management_token dates live).0 ≡ management_token live)
    × (stored_session_expired dates live ≡ false)
    × ((active_management_token dates live).1 ≡ live)
active_management_token-genuine_example = active_management_token-genuine dates live live-token-ne

expired-token-ne : management_token expired ≢ ""
unfolding management_token lookup
expired-token-ne = cons-ne-nil "s" "ecret"

expired-IsExpired : stored_session_expired dates expired ≡ true
unfolding stored_session_expired lookup
expired-IsExpired = refl

active_management_token-IsSignedOut_example :
    ((active_management_token dates expired).0 ≡ "")
    × IsSignedOut (active_management_token dates expired).1
    × HasNotice "management_session_expired" (active_management_token dates expired).1
active_management_token-IsSignedOut_example =
    active_management_token-IsSignedOut dates expired expired-token-ne expired-IsExpired

active_management_token-save_management_session_example :
    let saved = save_management_session "new" admin "expiry" live in
    (active_management_token dates saved ≡ ("new", saved))
    × (management_session_role saved ≡ some admin)
    × ((has_management_session dates saved).0 ≡ true)
    × (session_item auth_notice_key saved ≡ "")
active_management_token-save_management_session_example =
    active_management_token-save_management_session dates "new" admin "expiry" live refl
      (cons-ne-nil "n" "ew") refl

abbrev shell : ShellState
shell = record { sign_out_confirm_open = true; signing_out = false; redirects = [] }

sign_out-IsSignedOut_example : IsSignedOut (sign_out "" unreachable dates shell live).1
sign_out-IsSignedOut_example = sign_out-IsSignedOut "" unreachable dates shell live refl refl

pub locale-IsForeign : IsForeign "grouproxy.locale"
locale-IsForeign = record {
  not_token = ne_of_test _ _ refl;
  not_role = ne_of_test _ _ refl;
  not_expiry = ne_of_test _ _ refl;
}
