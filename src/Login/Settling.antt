-- ===== src/Login/Settling.antt =====
-- The sign-in page does not stay busy: once the calls that are on their way have settled, however they
-- end, both forms can be used again.
use grouproxy.Base.{String, ◌≡◌, refl, ◌∙◌, Option, none, some, List, [], ◌∷◌, map}
use grouproxy.Base.Int.{ℤ}
use grouproxy.Api.Entities.Accounts.{AuthSession}
use grouproxy.Api.Settled.{Settled, fulfilled, rejected}
use grouproxy.Login.{AuthBusy}
use grouproxy.Login.Machine.{
  LoginRequest, login_code_request, session_request, AccountRequest, account_code_request,
  account_request, Page, Server, session_settled, answer_login, answer_account, here,
  login_answered, account_answered, after_answer, Reach, next,
}
use grouproxy.Login.Forms.{waited, login_kind, account_kind}
use grouproxy.Login.Invariant.{Reach-IsConsistent}

module _ (t : String → String) (server : Server) where
  -- Every call of a list settles, the first one first.
  unfoldable pub settle_logins : List LoginRequest → Page → Page
  settle_logins [] p = p
  settle_logins (r ∷ rest) p =
      settle_logins rest (answer_login t server r (record p { login_requests = rest }))

  unfoldable pub settle_accounts : List AccountRequest → Page → Page
  settle_accounts [] p = p
  settle_accounts (r ∷ rest) p =
      settle_accounts rest (answer_account t server r (record p { account_requests = rest }))

  unfoldable pub settle_all : Page → Page
  settle_all p =
      let logged = settle_logins p.login_requests p in
      settle_accounts logged.account_requests logged

  login_requests-session_settled :
      (reply : Settled AuthSession) (p : Page)
      → (session_settled t reply p).login_requests ≡ p.login_requests
  unfolding session_settled
  login_requests-session_settled (fulfilled s) p = refl
  login_requests-session_settled (rejected message) p = refl

  login_requests-answer_login :
      (r : LoginRequest) (p : Page) → (answer_login t server r p).login_requests ≡ p.login_requests
  unfolding answer_login
  login_requests-answer_login (login_code_request c) p = refl
  login_requests-answer_login (session_request c) p =
      login_requests-session_settled (server.session_of c) (record p {
        browser = after_answer (server.unauthorized c) (server.session_of c) p.browser;
      })

  requests-answer_account :
      (r : AccountRequest) (p : Page)
      → ((answer_account t server r p).account_requests ≡ p.account_requests)
        × ((answer_account t server r p).login_requests ≡ p.login_requests)
  unfolding answer_account
  requests-answer_account (account_code_request c) p = (refl, refl)
  requests-answer_account (account_request action itcode c) p = (refl, refl)

  module _ (date_parse : String → Option ℤ) where
    settle_logins-Reach :
        (requests : List LoginRequest) (p : Page)
        → Reach t date_parse p
        → p.login_requests ≡ requests
        → Reach t date_parse (settle_logins requests p)
          × ((settle_logins requests p).login_requests ≡ [])
    unfolding settle_logins
    settle_logins-Reach [] p reached e = (reached, e)
    settle_logins-Reach (r ∷ rest) p reached e =
        let after = answer_login t server r (record p { login_requests = rest }) in
        settle_logins-Reach rest after
          (next reached (login_answered p server r rest (rw e (here r rest))))
          (login_requests-answer_login r (record p { login_requests = rest }))

    settle_accounts-Reach :
        (requests : List AccountRequest) (p : Page)
        → Reach t date_parse p
        → p.account_requests ≡ requests
        → p.login_requests ≡ []
        → let end = settle_accounts requests p in
          Reach t date_parse end × (end.account_requests ≡ []) × (end.login_requests ≡ [])
    unfolding settle_accounts
    settle_accounts-Reach [] p reached e l = (reached, e, l)
    settle_accounts-Reach (r ∷ rest) p reached e l =
        let before = record p { account_requests = rest } in
        settle_accounts-Reach rest (answer_account t server r before)
          (next reached (account_answered p server r rest (rw e (here r rest))))
          (requests-answer_account r before).0 ((requests-answer_account r before).1 ∙ l)

    idle_of_waited :
        {A : Type 0} (kind : A → AuthBusy) (busy : Option AuthBusy) (requests : List A)
        → map kind requests ≡ waited busy
        → requests ≡ []
        → busy ≡ none
    idle_of_waited kind none requests h e = refl
    idle_of_waited kind (some b) requests h e = cc (h, e)

    -- From every state that the page reaches, once the calls that are on their way have settled, in
    -- whatever way the server answers them, no call is left and neither form is busy.
    pub settle_all-idle :
        (p : Page)
        → Reach t date_parse p
        → let end = settle_all p in
          Reach t date_parse end
          × (end.login_requests ≡ [])
          × (end.account_requests ≡ [])
          × (end.login.busy ≡ none)
          × (end.account.busy ≡ none)
    unfolding settle_all
    settle_all-idle p reached =
        let logged = settle_logins-Reach p.login_requests p reached refl in
        let done =
          settle_accounts-Reach _ (settle_logins p.login_requests p) logged.0 refl logged.1 in
        let holds = Reach-IsConsistent t date_parse _ done.0 in
        (
          done.0,
          done.2,
          done.1,
          idle_of_waited login_kind _ _ holds.0.waits done.2,
          idle_of_waited account_kind _ _ holds.1.waits done.1,
        )
