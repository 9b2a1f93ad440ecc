-- ===== src/Login/SignIn.antt =====
-- What a sign-in and the calls of the sign-in page do to the stored session.
use grouproxy.Base.{
  String, true, false, not, ◌≡◌, ◌≢◌, refl, ◌⊎◌, inl, inr, Option, none, some, List, [], ◌∷◌, ◌++◌,
  arith, if◌then◌else◌, Option-cases,
}
use grouproxy.Base.Int.{ℤ}
use grouproxy.Api.Url.{trim}
use grouproxy.Api.Session.{
  is_employee, SessionRole, root, admin, employee, has_passed, active_management_token,
  management_session_role, has_management_session, save_management_session, Browser,
}
use grouproxy.Api.Session.Lifecycle.{
  active_management_token-save_management_session, IsSignedOut, HasNotice,
}
use grouproxy.Api.Transport.{is_authentication_failure}
use grouproxy.Api.Settled.{Settled, fulfilled}
use grouproxy.Api.Entities.Accounts.{AuthSession, VerificationChallenge}
use grouproxy.Api.Calls.{Call}
use grouproxy.Api.Calls.Account.{login_with_gquan, login_with_password}
use grouproxy.Locale.{size}
use grouproxy.Login.{LoginMode, password, gquan}
use grouproxy.Login.Page.{LoginForm}
use grouproxy.Login.Submission.{submit_login, login_disabled, calls, landing}
use grouproxy.Login.Machine.{Page, session_request, session_settled, Removed}

landing_of :
    (role : SessionRole) (targets : List String)
    → targets ++ (landing role ∷ [])
      ≡ targets ++ ((if not (is_employee (some role)) then "/overview" else "/") ∷ [])
landing_of root targets = refl
landing_of admin targets = refl
landing_of employee targets = refl

module _ (t : String → String) (date_parse : String → Option ℤ) where
  -- After a sign-in that the server grants, the session of its answer is the one that is used, and the
  -- console goes to its overview exactly if that session may manage; the form is not busy. There is a
  -- window, the token is not empty, and the session has not expired.
  pub session_settled-active :
      (s : AuthSession) (p : Page)
      → p.browser.has_window ≡ true
      → s.access_token ≢ ""
      → has_passed date_parse p.browser.now s.expires_at ≡ false
      → let after = session_settled t (fulfilled s) p in
        (active_management_token date_parse after.browser ≡ (s.access_token, after.browser))
        × (management_session_role after.browser ≡ some s.role)
        × (after.targets
            ≡ p.targets
              ++ ((if (has_management_session date_parse after.browser).0 then "/overview" else "/")
                  ∷ []))
        × (after.login.busy ≡ none)
  unfolding session_settled
  session_settled-active s p window token live =
      let saved =
        active_management_token-save_management_session date_parse s.access_token s.role
          s.expires_at p.browser window token live in
      (saved.0, saved.1, rw saved.2 (landing_of s.role p.targets), refl)

-- The browser and the place of the page are left as they are.
abbrev pub Stays : Page → Page → Type 0
Stays p q = (q.browser ≡ p.browser) × (q.targets ≡ p.targets)

-- Nothing of a session is left in a browser, and its notice for this page is a code that ends sessions.
abbrev pub Dropped : Browser → Type 0
Dropped w =
    (detail : String) × (is_authentication_failure detail ≡ true)
    × IsSignedOut w
    × HasNotice detail w

-- The stored session is removed, and the page stays where it is.
abbrev pub SignsOut : Page → Page → Type 0
SignsOut p q = Dropped q.browser × (q.targets ≡ p.targets)

-- A sign-in that was on its way is answered: its session is saved, and the page goes where its role
-- belongs.
abbrev pub SignsIn : Page → Page → Type 0
SignsIn p q =
    (c : Call) × (s : AuthSession) × Removed (session_request c) p.login_requests q.login_requests
    × (q.browser ≡ save_management_session s.access_token s.role s.expires_at p.browser)
    × (q.targets ≡ p.targets ++ (landing s.role ∷ []))

abbrev Drops : Page → Page → Type 0
Drops p q = Stays p q ⊎ SignsOut p q

mode-cases : (mode : LoginMode) → (mode ≡ password) ⊎ (mode ≡ gquan)
mode-cases password = inl refl
mode-cases gquan = inr refl

-- The enabled button of the login form calls the server: with the password, or with the code, which
-- has six characters, and the challenge that was answered.
pub submit_login-enabled :
    (f : LoginForm)
    → login_disabled f ≡ false
    → (submit_login f ≡ calls (login_with_password (trim f.itcode) f.password))
      ⊎ ((challenge : VerificationChallenge) × (f.challenge ≡ some challenge)
          × (size f.code ≡ 6)
          × (submit_login f
              ≡ calls (
                  login_with_gquan (record {
                    itcode = trim f.itcode;
                    challenge_id = challenge.challenge_id;
                    verification_code = f.code;
                  }))))
unfolding submit_login login_disabled
submit_login-enabled f h = elim (mode-cases f.mode) [
  | inl e ↦ inl (simp (submit_login, e))
  | inr e ↦ elim (Option-cases f.challenge) [
    | inl missing ↦ absurd (ground arith)
    | inr found ↦ inr (found.0, found.1, ground arith, simp (submit_login, e, found.1))
  ]
]
