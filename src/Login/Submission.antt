-- ===== src/Login/Submission.antt =====
-- Submitting the two forms of frontend/app/login/page.tsx (lines 251-308, 336 and 361).
use grouproxy.Base.{
  String, Bool, true, false, not, ◌&&◌, ◌||◌, Option, none, some, ◌==◌, if◌then◌else◌, str_eq,
}
use grouproxy.Api.Url.{trim}
use grouproxy.Api.Session.{SessionRole, root, admin, employee}
use grouproxy.Api.Settled.{Settled, fulfilled, rejected}
use grouproxy.Api.Calls.{Call}
use grouproxy.Api.Calls.Account.{
  login_with_password, login_with_gquan, register_account, change_account_password,
  VerifiedPassword,
}
use grouproxy.Locale.{size}
use grouproxy.Toast.{ToastInput}
use grouproxy.Login.{LoginMode, password, gquan, AccountAction, register, password_change, is_busy}
use grouproxy.Login.Page.{LoginForm, AccountForm, reset_account_form, failure_toast, done_toast}

-- How a submission begins: it calls the server, throws before that, or does nothing.
pub data Begun (A : Type 0) : Type 0 where
  calls : A → Begun A
  throws : String → Begun A
  nothing : Begun A

-- `submitLogin` up to its `await`.
unfoldable pub submit_login : LoginForm → Begun Call
submit_login f = elim f.mode [
  | password ↦ calls (login_with_password (trim f.itcode) f.password)
  | gquan ↦ elim f.challenge [
    | none ↦ throws "verification_code_invalid"
    | some challenge ↦ calls (
        login_with_gquan (record {
          itcode = trim f.itcode;
          challenge_id = challenge.challenge_id;
          verification_code = f.code;
        }))
  ]
]

abbrev pub landing : SessionRole → String
landing employee = "/"
landing root = "/overview"
landing admin = "/overview"

abbrev pub is_gquan : LoginMode → Bool
is_gquan password = false
is_gquan gquan = true

abbrev pub is_none : {A : Type 0} → Option A → Bool
is_none none = true
is_none (some _) = false

-- Whether the button that submits a form is disabled.
unfoldable pub login_disabled : LoginForm → Bool
login_disabled f =
    is_busy f.busy || (is_gquan f.mode && (is_none f.challenge || not (size f.code == 6)))

unfoldable pub account_disabled : AccountForm → Bool
account_disabled f = is_busy f.busy || (is_none f.challenge || not (size f.code == 6))

-- `submitAccountAction` up to its `await`: the action, the trimmed IT code and the call.
unfoldable pub submit_account_action : AccountForm → Begun (AccountAction × String × Call)
submit_account_action f = elim f.action [
  | none ↦ nothing
  | some action ↦ elim f.challenge [
    | none ↦ throws "verification_code_invalid"
    | some challenge ↦
        if str_eq f.password f.confirmation
        then (let payload : VerifiedPassword = record {
          itcode = trim f.itcode;
          password = f.password;
          challenge_id = challenge.challenge_id;
          verification_code = f.code;
        } in
            calls (
              action,
              trim f.itcode,
              elim action [
                | register ↦ register_account payload
                | password_change ↦ change_account_password payload
              ],
            ))
        else throws "password_confirmation_mismatch"
  ]
]

abbrev pub account_done : AccountAction → String
account_done register = "Account registered. Sign in with the password you set."
account_done password_change = "Password reset. Sign in with the new password."

-- The page after the account call has settled: both forms, and the message.
unfoldable pub account_settled :
    {A : Type 0}
    → (String → String)
    → AccountAction
    → String
    → Settled A
    → LoginForm
    → AccountForm
    → ToastInput × LoginForm × AccountForm
unfolding reset_account_form
account_settled t action itcode (fulfilled _) login f = (
  done_toast t (account_done action),
  record login { itcode = itcode; password = ""; mode = password },
  reset_account_form (record f { busy = none; action = none }),
)
account_settled t action itcode (rejected message) login f =
    (failure_toast t "Operation failed" message, login, record f { busy = none })
