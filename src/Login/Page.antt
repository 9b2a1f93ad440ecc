-- ===== src/Login/Page.antt =====
-- The two forms of frontend/app/login/page.tsx (lines 135-308) and what their handlers do. A handler
-- that waits for the server is two functions: what it does before, and after the call has settled.
use grouproxy.Base.{String, Option, none, some, if◌then◌else◌}
use grouproxy.Api.Url.{trim}
use grouproxy.Api.Session.{is_truthy}
use grouproxy.Api.Settled.{Settled, fulfilled, rejected}
use grouproxy.Api.Entities.Accounts.{VerificationChallenge}
use grouproxy.Api.Calls.{Call}
use grouproxy.Api.Calls.Account.{request_auth_verification_code}
use grouproxy.Toast.{ToastInput, success, destructive}
use grouproxy.Login.{
  LoginMode, password, AccountAction, AuthBusy, send, login_purpose, account_purpose,
  auth_error_message, is_busy,
}

pub record LoginForm : Type 0 where
  pub mode : LoginMode
  pub itcode : String
  pub password : String
  pub code : String
  pub challenge : Option VerificationChallenge
  pub busy : Option AuthBusy

-- The dialog is open while `action` is there.
pub record AccountForm : Type 0 where
  pub action : Option AccountAction
  pub itcode : String
  pub password : String
  pub confirmation : String
  pub code : String
  pub challenge : Option VerificationChallenge
  pub busy : Option AuthBusy

abbrev pub empty_login : LoginForm
empty_login = record {
  mode = password;
  itcode = "";
  password = "";
  code = "";
  challenge = none;
  busy = none;
}

abbrev pub empty_account : AccountForm
empty_account = record {
  action = none;
  itcode = "";
  password = "";
  confirmation = "";
  code = "";
  challenge = none;
  busy = none;
}

unfoldable pub select_login_mode : LoginMode → LoginForm → LoginForm
select_login_mode mode f = record f { mode = mode; password = ""; code = ""; challenge = none }

unfoldable pub update_login_itcode : String → LoginForm → LoginForm
update_login_itcode value f = record f { itcode = value; challenge = none; code = "" }

unfoldable pub reset_account_form : AccountForm → AccountForm
reset_account_form f = record f {
  itcode = "";
  password = "";
  confirmation = "";
  code = "";
  challenge = none;
}

unfoldable pub open_account_action : AccountAction → LoginForm → AccountForm → AccountForm
unfolding reset_account_form
open_account_action action login f = record (reset_account_form f) {
  itcode = login.itcode;
  action = some action;
}

unfoldable pub close_account_action : AccountForm → AccountForm
unfolding reset_account_form
close_account_action f =
    if is_busy f.busy then f else reset_account_form (record f { action = none })

unfoldable pub update_account_itcode : String → AccountForm → AccountForm
update_account_itcode value f = record f { itcode = value; challenge = none; code = "" }

abbrev pub failure_toast : (String → String) → String → String → ToastInput
failure_toast t title message = record {
  title = t title;
  description = some (auth_error_message t message);
  variant = some destructive;
  duration = none;
}

abbrev pub done_toast : (String → String) → String → ToastInput
done_toast t title = record {
  title = t title;
  description = none;
  variant = some success;
  duration = none;
}

abbrev pub code_sent_toast : (String → String) → ToastInput
code_sent_toast t = record {
  title = t "Verification code sent through GQuan.";
  description = some (t "Open GQuan and enter the 6-digit code.");
  variant = some success;
  duration = none;
}

-- `sendLoginCode` up to its `await`: the call that it makes, if it makes one.
unfoldable pub send_login_code : LoginForm → Option Call × LoginForm
send_login_code f = elim (login_purpose f.mode) [
  | none ↦ (none, f)
  | some purpose ↦
      if is_truthy (trim f.itcode)
      then (
        some (request_auth_verification_code (trim f.itcode) purpose),
        record f { busy = some send },
      )
      else (none, f)
]

unfoldable pub login_code_settled :
    (String → String) → Settled VerificationChallenge → LoginForm → ToastInput × LoginForm
login_code_settled t (fulfilled challenge) f =
    (code_sent_toast t, record f { challenge = some challenge; busy = none })
login_code_settled t (rejected message) f =
    (failure_toast t "Operation failed" message, record f { busy = none })

unfoldable pub send_account_code : AccountForm → Option Call × AccountForm
send_account_code f = elim f.action [
  | none ↦ (none, f)
  | some action ↦
      if is_truthy (trim f.itcode)
      then (
        some (request_auth_verification_code (trim f.itcode) (account_purpose action)),
        record f { busy = some send },
      )
      else (none, f)
]

unfoldable pub account_code_settled :
    (String → String) → Settled VerificationChallenge → AccountForm → ToastInput × AccountForm
account_code_settled t (fulfilled challenge) f =
    (code_sent_toast t, record f { challenge = some challenge; busy = none })
account_code_settled t (rejected message) f =
    (failure_toast t "Operation failed" message, record f { busy = none })
