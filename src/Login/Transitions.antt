-- ===== src/Login/Transitions.antt =====
-- Each handler of the sign-in page keeps what both forms keep.
use grouproxy.Base.{
  String, ◌≡◌, ◌≢◌, refl, none, some, List, Bool-cases, Option, Option-cases, inl, inr, ◌⊎◌,
}
use grouproxy.Base.Int.{ℤ}
use grouproxy.Api.Url.{trim}
use grouproxy.Api.Session.{is_truthy}
use grouproxy.Api.Calls.{Call}
use grouproxy.Api.Entities.Accounts.{AuthSession, VerificationChallenge}
use grouproxy.Api.Calls.Account.{request_auth_verification_code}
use grouproxy.Api.Settled.{Settled, fulfilled, rejected}
use grouproxy.Login.{AccountAction, send, login_purpose, account_purpose}
use grouproxy.Login.Page.{
  LoginForm, AccountForm, empty_account, send_login_code, send_account_code, login_code_settled,
  account_code_settled, reset_account_form,
}
use grouproxy.Login.Submission.{
  submit_login, submit_account_action, Begun, calls, throws, nothing, account_settled,
}
use grouproxy.Login.Machine.{
  LoginRequest, login_code_request, session_request, AccountRequest, account_code_request,
  account_request, Page, Server, ask_login_code, ask_account_code, begin_login, begin_account,
  begun_login, begun_account, session_settled, answer_login, answer_account, Removed, after_answer,
}
use grouproxy.Login.Forms.{
  LoginHolds, AccountHolds, IsConsistent, begun-LoginHolds, idle-LoginHolds, settled-LoginHolds,
  begun-AccountHolds, idle-AccountHolds, settled-AccountHolds, open_of_busy,
}
use grouproxy.Login.Codes.{empty-IsCode}

send_login_code-cases :
    (f : LoginForm)
    → (send_login_code f ≡ (none, f))
      ⊎ ((c : Call) × (send_login_code f ≡ (some c, record f { busy = some send })))
unfolding send_login_code
send_login_code-cases f = elim (Option-cases (login_purpose f.mode)) [
  | inl silent ↦ inl (rw (send_login_code, silent) refl)
  | inr purpose ↦ elim (Bool-cases (is_truthy (trim f.itcode))) [
    | inl named ↦ inr (
      request_auth_verification_code (trim f.itcode) purpose.0,
      rw (send_login_code, purpose.1, named) refl,
    )
    | inr empty ↦ inl (rw (send_login_code, purpose.1, empty) refl)
  ]
]

pub ask_login_code-IsConsistent :
    (date_parse : String → Option ℤ) (p : Page)
    → IsConsistent p
    → p.login.busy ≡ none
    → IsConsistent (ask_login_code date_parse p)
unfolding ask_login_code
ask_login_code-IsConsistent date_parse p h idle = elim (send_login_code-cases p.login) [
  | inl silent ↦ rw (silent) h
  | inr sent ↦
      rw (sent.1)
        (begun-LoginHolds p.login p.login_requests h.0 (login_code_request sent.0) idle, h.1)
]

send_account_code-cases :
    (f : AccountForm)
    → (send_account_code f ≡ (none, f))
      ⊎ ((c : Call) × (send_account_code f ≡ (some c, record f { busy = some send }))
          × (f.action ≢ none))
unfolding send_account_code
send_account_code-cases f = elim (Option-cases f.action) [
  | inl silent ↦ inl (simp (send_account_code, silent))
  | inr action ↦ elim (Bool-cases (is_truthy (trim f.itcode))) [
    | inl named ↦ inr (
      request_auth_verification_code (trim f.itcode) (account_purpose action.0),
      simp (send_account_code, action.1, named),
      λ e. cc (e, action.1),
    )
    | inr empty ↦ inl (simp (send_account_code, action.1, empty))
  ]
]

pub ask_account_code-IsConsistent :
    (date_parse : String → Option ℤ) (p : Page)
    → IsConsistent p
    → p.account.busy ≡ none
    → IsConsistent (ask_account_code date_parse p)
unfolding ask_account_code
ask_account_code-IsConsistent date_parse p h idle = elim (send_account_code-cases p.account) [
  | inl silent ↦ rw (silent) h
  | inr sent ↦ rw (sent.1) (
    h.0,
    begun-AccountHolds p.account p.account_requests h.1 (account_code_request sent.0) idle sent.2,
  )
]

module _ (t : String → String) (date_parse : String → Option ℤ) where
  begun_login-IsConsistent :
      (b : Begun Call) (p : Page)
      → IsConsistent p
      → p.login.busy ≡ none
      → IsConsistent (begun_login t date_parse b p)
  begun_login-IsConsistent (calls c) p h idle =
      (begun-LoginHolds p.login p.login_requests h.0 (session_request c) idle, h.1)
  begun_login-IsConsistent (throws message) p h idle =
      (idle-LoginHolds p.login p.login_requests h.0 idle, h.1)
  begun_login-IsConsistent nothing p h idle = h

  begun_account-IsConsistent :
      (b : Begun (AccountAction × String × Call)) (p : Page)
      → IsConsistent p
      → p.account.busy ≡ none
      → p.account.action ≢ none
      → IsConsistent (begun_account t date_parse b p)
  begun_account-IsConsistent (calls c) p h idle is_open = (
    h.0,
    begun-AccountHolds p.account p.account_requests h.1 (account_request c.0 c.1 c.2) idle is_open,
  )
  begun_account-IsConsistent (throws message) p h idle is_open =
      (h.0, idle-AccountHolds p.account p.account_requests h.1 idle)
  begun_account-IsConsistent nothing p h idle is_open = h

  pub begin_login-IsConsistent :
      (p : Page) → IsConsistent p → p.login.busy ≡ none → IsConsistent (begin_login t date_parse p)
  unfolding begin_login
  begin_login-IsConsistent p = begun_login-IsConsistent (submit_login p.login) p

  pub begin_account-IsConsistent :
      (p : Page)
      → IsConsistent p
      → p.account.busy ≡ none
      → IsConsistent (begin_account t date_parse p)
  unfolding begin_account submit_account_action
  begin_account-IsConsistent p h idle = elim (Option-cases p.account.action) [
    | inl silent ↦
        let e : submit_account_action p.account ≡ nothing = simp (submit_account_action, silent) in
        rw e h
    | inr action ↦
        begun_account-IsConsistent (submit_account_action p.account) p h idle
          (λ e. cc (e, action.1))
  ]

module _ (t : String → String) where
  module _ {r : LoginRequest} {requests rest : List LoginRequest} (f : LoginForm)
      (h : LoginHolds f requests) (gone : Removed r requests rest) where
    login_code_settled-LoginHolds :
        (reply : Settled VerificationChallenge) → LoginHolds (login_code_settled t reply f).1 rest
    unfolding login_code_settled
    login_code_settled-LoginHolds (fulfilled challenge) =
        let settled = settled-LoginHolds f requests h gone in
        record { waits = settled.waits; is_code = settled.is_code; hidden = settled.hidden }
    login_code_settled-LoginHolds (rejected message) = settled-LoginHolds f requests h gone

  session_settled-LoginHolds :
      {r : LoginRequest} {requests rest : List LoginRequest} (p : Page)
      → LoginHolds p.login requests
      → Removed r requests rest
      → (reply : Settled AuthSession) → LoginHolds (session_settled t reply p).login rest
  unfolding session_settled
  session_settled-LoginHolds p h gone (fulfilled session) = settled-LoginHolds p.login _ h gone
  session_settled-LoginHolds p h gone (rejected message) = settled-LoginHolds p.login _ h gone

  requests-session_settled :
      (reply : Settled AuthSession) (p : Page)
      → (session_settled t reply p).login_requests ≡ p.login_requests
  unfolding session_settled
  requests-session_settled (fulfilled session) p = refl
  requests-session_settled (rejected message) p = refl

  accounts-session_settled :
      (reply : Settled AuthSession) (p : Page)
      → AccountHolds p.account p.account_requests
      → AccountHolds
          (session_settled t reply p).account
          (session_settled t reply p).account_requests
  unfolding session_settled
  accounts-session_settled (fulfilled session) p h = h
  accounts-session_settled (rejected message) p h = h

  pub answer_login-IsConsistent :
      (p : Page) (server : Server) (request : LoginRequest) (rest : List LoginRequest)
      → IsConsistent p
      → Removed request p.login_requests rest
      → IsConsistent (answer_login t server request (record p { login_requests = rest }))
  unfolding answer_login
  answer_login-IsConsistent p server (login_code_request c) rest h gone =
      (login_code_settled-LoginHolds p.login h.0 gone (server.challenge_of c), h.1)
  answer_login-IsConsistent p server (session_request c) rest h gone =
      let after = record p {
        login_requests = rest;
        browser = after_answer (server.unauthorized c) (server.session_of c) p.browser;
      } in
      (
        rw (requests-session_settled (server.session_of c) after)
            (session_settled-LoginHolds after h.0 gone (server.session_of c)),
        accounts-session_settled (server.session_of c) after h.1,
      )

  account_code_settled-AccountHolds :
      {r : AccountRequest} {requests rest : List AccountRequest} (f : AccountForm)
      → AccountHolds f requests
      → Removed r requests rest
      → (reply : Settled VerificationChallenge)
      → AccountHolds (account_code_settled t reply f).1 rest
  unfolding account_code_settled
  account_code_settled-AccountHolds f h gone (fulfilled challenge) =
      settled-AccountHolds f _ h gone (record f { challenge = some challenge; busy = none }) refl
        h.is_code (λ e. absurd (open_of_busy f _ h gone e))
  account_code_settled-AccountHolds f h gone (rejected message) =
      settled-AccountHolds f _ h gone (record f { busy = none }) refl h.is_code
        (λ e. absurd (open_of_busy f _ h gone e))

  account_settled-IsConsistent :
      {r : AccountRequest} {requests rest : List AccountRequest} {logins : List LoginRequest}
      (f : AccountForm) (login : LoginForm)
      → AccountHolds f requests
      → LoginHolds login logins
      → Removed r requests rest
      → (action : AccountAction) (itcode : String) (reply : Settled String)
      → let after = account_settled t action itcode reply login f in
        LoginHolds after.1 logins × AccountHolds after.2 rest
  unfolding account_settled reset_account_form
  account_settled-IsConsistent f login h k gone action itcode (fulfilled _) = (
    record { waits = k.waits; is_code = k.is_code; hidden = λ e. refl },
    settled-AccountHolds f _ h gone empty_account refl empty-IsCode (λ e. refl),
  )
  account_settled-IsConsistent f login h k gone action itcode (rejected message) = (
    k,
    settled-AccountHolds f _ h gone (record f { busy = none }) refl h.is_code
        (λ e. absurd (open_of_busy f _ h gone e)),
  )

  pub answer_account-IsConsistent :
      (p : Page) (server : Server) (request : AccountRequest) (rest : List AccountRequest)
      → IsConsistent p
      → Removed request p.account_requests rest
      → IsConsistent (answer_account t server request (record p { account_requests = rest }))
  unfolding answer_account
  answer_account-IsConsistent p server (account_code_request c) rest h gone =
      (h.0, account_code_settled-AccountHolds p.account h.1 gone (server.challenge_of c))
  answer_account-IsConsistent p server (account_request action itcode c) rest h gone =
      account_settled-IsConsistent p.account p.login h.1 h.0 gone action itcode
        (server.account_of c)
