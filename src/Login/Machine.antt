-- ===== src/Login/Machine.antt =====
-- The sign-in page as a whole: what the user can do, with the guards of the disabled controls, and
-- the calls that are on their way, which settle in any order.
use grouproxy.Api.Transport.{is_authentication_failure}
use grouproxy.Base.{
  Bool, ◌&&◌, if◌then◌else◌, String, false, ◌≡◌, Option, none, some, List, [], ◌∷◌, ◌++◌,
}
use grouproxy.Base.Int.{ℤ}
use grouproxy.Api.Session.{
  Browser, save_management_session, is_truthy, active_management_token,
  redirect_for_authentication_failure,
}
use grouproxy.Api.Url.{trim}
use grouproxy.Api.Settled.{Settled, fulfilled, rejected}
use grouproxy.Api.Entities.Accounts.{AuthSession, VerificationChallenge}
use grouproxy.Api.Calls.{Call}
use grouproxy.Toast.{ToastInput}
use grouproxy.Login.{
  LoginMode, password, gquan, AccountAction, submit, code_input, wait_seconds, send_disabled,
  is_busy,
}
use grouproxy.Login.Page.{
  LoginForm, AccountForm, empty_login, empty_account, select_login_mode, update_login_itcode,
  open_account_action, close_account_action, update_account_itcode, failure_toast, send_login_code,
  login_code_settled, send_account_code, account_code_settled,
}
use grouproxy.Login.Submission.{
  Begun, calls, throws, nothing, submit_login, submit_account_action, account_settled, landing,
  login_disabled, account_disabled,
}

-- A call of the login form that has not settled: for a code, or for a session.
pub data LoginRequest : Type 0 where
  login_code_request : Call → LoginRequest
  session_request : Call → LoginRequest

-- A call of the dialog; the second kind knows the action and the IT code that were submitted.
pub data AccountRequest : Type 0 where
  account_code_request : Call → AccountRequest
  account_request : AccountAction → String → Call → AccountRequest

pub record Page : Type 0 where
  pub login : LoginForm
  pub account : AccountForm
  pub login_requests : List LoginRequest
  pub account_requests : List AccountRequest
  pub browser : Browser
  pub messages : List ToastInput
  pub targets : List String

-- How the server answers each kind of call; an account call returns a status text. `unauthorized` says
-- of a call that fails whether its status is 401 and it was sent with a token.
pub record Server : Type 0 where
  pub unauthorized : Call → Bool
  pub challenge_of : Call → Settled VerificationChallenge
  pub session_of : Call → Settled AuthSession
  pub account_of : Call → Settled String

abbrev pub opened : Browser → Page
opened w = record {
  login = empty_login;
  account = empty_account;
  login_requests = [];
  account_requests = [];
  browser = w;
  messages = [];
  targets = [];
}

-- What `request` does to the browser when an answer comes: a 401 with one of the codes that end a
-- session signs out.
unfoldable pub after_answer : {A : Type 0} → Bool → Settled A → Browser → Browser
after_answer unauthorized (fulfilled value) w = w
after_answer unauthorized (rejected message) w =
    if unauthorized && is_authentication_failure message
    then redirect_for_authentication_failure message w
    else w

module _ (date_parse : String → Option ℤ) where
  -- What `request` does to the browser before it sends: an expired session is cleared.
  unfoldable pub before_request : Browser → Browser
  before_request w = (active_management_token date_parse w).1

  abbrev pub put_login : Option Call → LoginForm → Page → Page
  put_login none form p = record p { login = form }
  put_login (some c) form p = record p {
    login = form;
    login_requests = login_code_request c ∷ p.login_requests;
    browser = before_request p.browser;
  }

  abbrev pub put_account : Option Call → AccountForm → Page → Page
  put_account none form p = record p { account = form }
  put_account (some c) form p = record p {
    account = form;
    account_requests = account_code_request c ∷ p.account_requests;
    browser = before_request p.browser;
  }

  -- `sendLoginCode` and `sendAccountCode` up to their `await`.
  unfoldable pub ask_login_code : Page → Page
  ask_login_code p = let (call, form) = send_login_code p.login in put_login call form p

  unfoldable pub ask_account_code : Page → Page
  ask_account_code p = let (call, form) = send_account_code p.account in put_account call form p

module _ (t : String → String) (date_parse : String → Option ℤ) where
  abbrev pub begun_login : Begun Call → Page → Page
  begun_login (calls c) p = record p {
    login = record p.login { busy = some submit };
    login_requests = session_request c ∷ p.login_requests;
    browser = before_request date_parse p.browser;
  }
  begun_login (throws message) p = record p {
    login = record p.login { busy = none };
    messages = p.messages ++ (failure_toast t "Sign in failed" message ∷ []);
  }
  begun_login nothing p = p

  abbrev pub begun_account : Begun (AccountAction × String × Call) → Page → Page
  begun_account (calls c) p = record p {
    account = record p.account { busy = some submit };
    account_requests = account_request c.0 c.1 c.2 ∷ p.account_requests;
    browser = before_request date_parse p.browser;
  }
  begun_account (throws message) p = record p {
    account = record p.account { busy = none };
    messages = p.messages ++ (failure_toast t "Operation failed" message ∷ []);
  }
  begun_account nothing p = p

  -- `submitLogin` and `submitAccountAction` up to their `await`, or to the end where they throw.
  unfoldable pub begin_login : Page → Page
  begin_login p = begun_login (submit_login p.login) p

  unfoldable pub begin_account : Page → Page
  begin_account p = begun_account (submit_account_action p.account) p

module _ (t : String → String) where
  -- `submitLogin` after its `await`.
  unfoldable pub session_settled : Settled AuthSession → Page → Page
  session_settled (fulfilled s) p = record p {
    login = record p.login { busy = none };
    browser = save_management_session s.access_token s.role s.expires_at p.browser;
    targets = p.targets ++ (landing s.role ∷ []);
  }
  session_settled (rejected message) p = record p {
    login = record p.login { busy = none };
    messages = p.messages ++ (failure_toast t "Sign in failed" message ∷ []);
  }

  -- The rest of the handler that waits for the request.
  unfoldable pub answer_login : Server → LoginRequest → Page → Page
  unfolding session_settled login_code_settled
  answer_login server (login_code_request c) p =
      let (message, form) = login_code_settled t (server.challenge_of c) p.login in
      record p {
        login = form;
        messages = p.messages ++ (message ∷ []);
        browser = after_answer (server.unauthorized c) (server.challenge_of c) p.browser;
      }
  answer_login server (session_request c) p =
      session_settled (server.session_of c) (record p {
        browser = after_answer (server.unauthorized c) (server.session_of c) p.browser;
      })

  unfoldable pub answer_account : Server → AccountRequest → Page → Page
  unfolding account_settled account_code_settled
  answer_account server (account_code_request c) p =
      let (message, form) = account_code_settled t (server.challenge_of c) p.account in
      record p {
        account = form;
        messages = p.messages ++ (message ∷ []);
        browser = after_answer (server.unauthorized c) (server.challenge_of c) p.browser;
      }
  answer_account server (account_request action itcode c) p =
      let (message, login, account) =
        account_settled t action itcode (server.account_of c) p.login p.account in
      record p {
        login = login;
        account = account;
        messages = p.messages ++ (message ∷ []);
        browser = after_answer (server.unauthorized c) (server.account_of c) p.browser;
      }

-- `Removed x xs ys`: the list `ys` is `xs` without one occurrence of `x`.
pub data Removed {A : Type 0} : A → List A → List A → Type 0 where
  here : (x : A) (xs : List A) → Removed x (x ∷ xs) xs
  there : (x y : A) (xs ys : List A) → Removed x xs ys → Removed x (y ∷ xs) (y ∷ ys)

module _ (t : String → String) (date_parse : String → Option ℤ) where
  -- One thing that happens. A field can be edited while it is shown; what the buttons need is the
  -- condition under which they are enabled, at a time `now`.
  pub data Step : Page → Page → Type 0 where
    mode_selected :
        (p : Page) (mode : LoginMode) → Step p (record p { login = select_login_mode mode p.login })
    login_itcode_edited :
        (p : Page) (value : String)
        → Step p (record p { login = update_login_itcode value p.login })
    login_password_edited :
        (p : Page) (value : String)
        → p.login.mode ≡ password
        → Step p (record p { login = record p.login { password = value } })
    login_code_edited :
        (p : Page) (value : String)
        → p.login.mode ≡ gquan
        → Step p (record p { login = record p.login { code = code_input value } })
    login_code_asked :
        (p : Page) (now : ℤ)
        → send_disabled
            (is_truthy (trim p.login.itcode))
            p.login.busy
            (wait_seconds date_parse now p.login.challenge)
          ≡ false
        → Step p (ask_login_code date_parse p)
    login_submitted :
        (p : Page) → login_disabled p.login ≡ false → Step p (begin_login t date_parse p)
    login_answered :
        (p : Page) (server : Server) (request : LoginRequest) (rest : List LoginRequest)
        → Removed request p.login_requests rest
        → Step p (answer_login t server request (record p { login_requests = rest }))
    account_opened :
        (p : Page) (action : AccountAction)
        → is_busy p.login.busy ≡ false
        → Step p (record p { account = open_account_action action p.login p.account })
    account_closed : (p : Page) → Step p (record p { account = close_account_action p.account })
    account_itcode_edited :
        (p : Page) (action : AccountAction) (value : String)
        → p.account.action ≡ some action
        → Step p (record p { account = update_account_itcode value p.account })
    account_password_edited :
        (p : Page) (action : AccountAction) (value : String)
        → p.account.action ≡ some action
        → Step p (record p { account = record p.account { password = value } })
    account_confirmation_edited :
        (p : Page) (action : AccountAction) (value : String)
        → p.account.action ≡ some action
        → Step p (record p { account = record p.account { confirmation = value } })
    account_code_edited :
        (p : Page) (action : AccountAction) (value : String)
        → p.account.action ≡ some action
        → Step p (record p { account = record p.account { code = code_input value } })
    account_code_asked :
        (p : Page) (now : ℤ)
        → send_disabled
            (is_truthy (trim p.account.itcode))
            p.account.busy
            (wait_seconds date_parse now p.account.challenge)
          ≡ false
        → Step p (ask_account_code date_parse p)
    account_submitted :
        (p : Page) → account_disabled p.account ≡ false → Step p (begin_account t date_parse p)
    account_answered :
        (p : Page) (server : Server) (request : AccountRequest) (rest : List AccountRequest)
        → Removed request p.account_requests rest
        → Step p (answer_account t server request (record p { account_requests = rest }))

  -- The pages that a sequence of steps leads to from a page that has just opened.
  pub data Reach : Page → Type 0 where
    start : (w : Browser) → Reach (opened w)
    next : {p q : Page} → Reach p → Step p q → Reach q
