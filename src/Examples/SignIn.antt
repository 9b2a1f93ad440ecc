-- ===== src/Examples/SignIn.antt =====
-- The theorems of the sign-in page and of the session store at the browser of the examples.
use text.Mathlib.TextLemmas.{cons-ne-nil}
use grouproxy.Base.{String, ◌≡◌, refl, false, true, none, some, [], ◌∷◌, ◌++◌, ◌<>◌, if◌then◌else◌}
use grouproxy.Base.Int.{pos}
use grouproxy.Base.Dict.{lookup}
use grouproxy.Release.{strip_prefix}
use grouproxy.Api.Url.{encode_uri_component, trim, trim_start, trim_end, is_space}
use grouproxy.Api.Session.{
  root, admin, redirect_for_authentication_failure, active_management_token,
  management_session_role, has_management_session, login_path, Browser, is_truthy,
}
use grouproxy.Api.Session.Store.{
  Store, sign_in, fail, read_token, ask_manager, wait, run_store, run_browser,
}
use grouproxy.Api.Session.Refinement.{Represents, run_browser-run_store}
use grouproxy.Api.Transport.{is_authentication_failure}
use grouproxy.Api.Settled.{fulfilled, rejected}
use grouproxy.Api.Entities.Accounts.{AuthSession}
use grouproxy.Login.{gquan, send_disabled, wait_seconds}
use grouproxy.Login.Page.{LoginForm, empty_login, update_login_itcode, select_login_mode}
use grouproxy.Login.Submission.{login_disabled}
use grouproxy.Login.Machine.{
  Page, Server, opened, ask_login_code, session_settled, Reach, start, next, login_itcode_edited,
  mode_selected, login_code_asked,
}
use grouproxy.Login.Forms.{IsConsistent}
use grouproxy.Login.Invariant.{Reach-IsConsistent}
use grouproxy.Login.Settling.{settle_all, settle_all-idle}
use grouproxy.Login.SignIn.{session_settled-active}
use grouproxy.Login.Notices.{
  auth_notices, address_of, notice_toast, show_notice, show_notice-redirect,
}
use grouproxy.Examples.{dates, live, ne_of_test}

abbrev kept : Store
kept = record {
  session = some (record { token = "secret"; role = admin; expires_at = "expiry" });
  now = pos 500;
}

kept-Represents : Represents live kept
unfolding lookup
kept-Represents = (refl, refl, (refl, refl, refl))

run_browser-run_store_example :
    let ops =
      read_token
      ∷ wait (pos 2000)
      ∷ ask_manager
      ∷ sign_in (record { token = "new"; role = root; expires_at = "" })
      ∷ fail "management_session_revoked"
      ∷ read_token
      ∷ [] in
    ((run_browser dates ops live).0 ≡ (run_store dates ops kept).0)
    × Represents (run_browser dates ops live).1 (run_store dates ops kept).1
run_browser-run_store_example =
    run_browser-run_store dates
      (read_token
        ∷ wait (pos 2000)
        ∷ ask_manager
        ∷ sign_in (record { token = "new"; role = root; expires_at = "" })
        ∷ fail "management_session_revoked"
        ∷ read_token
        ∷ [])
      live kept kept-Represents

abbrev same : String → String
same s = s

abbrev named : Page
named = record (opened live) { login = update_login_itcode "ab12" empty_login }

abbrev with_code : Page
with_code = record named { login = select_login_mode gquan named.login }

abbrev asked : Page
asked = ask_login_code dates with_code

asked-IsEnabled :
    send_disabled
      (is_truthy (trim with_code.login.itcode))
      with_code.login.busy
      (wait_seconds dates (pos 0) with_code.login.challenge)
    ≡ false
unfolding send_disabled wait_seconds select_login_mode update_login_itcode trim trim_start trim_end
    is_space
asked-IsEnabled = refl

asked-Reach : Reach same dates asked
asked-Reach =
    next
      (next (next (start live) (login_itcode_edited (opened live) "ab12"))
        (mode_selected named gquan))
      (login_code_asked with_code (pos 0) asked-IsEnabled)

Reach-IsConsistent_example : IsConsistent asked
Reach-IsConsistent_example = Reach-IsConsistent same dates asked asked-Reach

abbrev granted : AuthSession
granted = record { access_token = "new"; itcode = "ab12"; role = root; expires_at = "expiry" }

abbrev server : Server
server = record {
  unauthorized = λ c. true;
  challenge_of = λ c. rejected "gquan_quota_exceeded";
  session_of = λ c. fulfilled granted;
  account_of = λ c. fulfilled "ok";
}

settle_all-idle_example :
    let end = settle_all same server asked in
    Reach same dates end
    × (end.login_requests ≡ [])
    × (end.account_requests ≡ [])
    × (end.login.busy ≡ none)
    × (end.account.busy ≡ none)
settle_all-idle_example = settle_all-idle same server dates asked asked-Reach

session_settled-active_example :
    let after = session_settled same (fulfilled granted) (opened live) in
    (active_management_token dates after.browser ≡ ("new", after.browser))
    × (management_session_role after.browser ≡ some root)
    × (after.targets
        ≡ []
          ++ ((if (has_management_session dates after.browser).0 then "/overview" else "/") ∷ []))
    × (after.login.busy ≡ none)
session_settled-active_example =
    session_settled-active same dates granted (opened live) refl (cons-ne-nil "n" "ew") refl

abbrev ready : LoginForm
ready = record empty_login { itcode = "ab12"; password = "long enough 12" }

ready-IsEnabled : login_disabled ready ≡ false
unfolding login_disabled
ready-IsEnabled = refl

revoked-ends : is_authentication_failure "management_session_revoked" ≡ true
unfolding is_authentication_failure
revoked-ends = refl

-- The parameter of an address that has nothing else.
abbrev reason_in : String → String
reason_in address = elim (strip_prefix "/login?reason=" address) [ none ↦ "" | some rest ↦ rest ]

abbrev on_nodes : Browser
on_nodes = record live { pathname = "/nodes" }

revoked-escaped :
    reason_in ("/login?reason=" <> encode_uri_component "management_session_revoked")
    ≡ "management_session_revoked"
unfolding encode_uri_component strip_prefix
revoked-escaped = refl

login_path-IsPlain : reason_in login_path ≡ ""
unfolding strip_prefix
login_path-IsPlain = refl

show_notice-redirect_example :
    let redirected = redirect_for_authentication_failure "management_session_revoked" on_nodes in
    let (shown, after) = show_notice same reason_in (address_of redirected) redirected in
    ((text : String) × (lookup "management_session_revoked" auth_notices ≡ some text)
      × (shown ≡ some (notice_toast same text)))
    × (after.pathname ≡ login_path)
    × ((show_notice same reason_in after.pathname after).0 ≡ none)
show_notice-redirect_example =
    show_notice-redirect same reason_in "management_session_revoked" on_nodes refl
      (ne_of_test "/nodes" login_path refl) revoked-ends revoked-escaped login_path-IsPlain
