-- ===== src/Login/Invariant.antt =====
-- What holds of the sign-in page in every state that it can reach.
use grouproxy.Base.{String, refl, Option}
use grouproxy.Base.Int.{ℤ}
use grouproxy.Login.{code_input}
use grouproxy.Login.Page.{update_account_itcode}
use grouproxy.Login.Machine.{
  Page, Step, mode_selected, login_itcode_edited, login_password_edited, login_code_edited,
  login_code_asked, login_submitted, login_answered, account_opened, account_closed,
  account_itcode_edited, account_password_edited, account_confirmation_edited, account_code_edited,
  account_code_asked, account_submitted, account_answered, Reach, start, next,
}
use grouproxy.Login.Forms.{
  IsConsistent, select_login_mode-LoginHolds, update_login_itcode-LoginHolds,
  login_password-LoginHolds, login_code-LoginHolds, open_account_action-AccountHolds,
  close_account_action-AccountHolds, edited-AccountHolds, idle_of_enabled, idle_of_login_enabled,
  idle_of_account_enabled, opened-IsConsistent,
}
use grouproxy.Login.Codes.{empty-IsCode, code_input-IsCode}
use grouproxy.Login.Transitions.{
  ask_login_code-IsConsistent, ask_account_code-IsConsistent, begin_login-IsConsistent,
  begin_account-IsConsistent, answer_login-IsConsistent, answer_account-IsConsistent,
}

module _ (t : String → String) (date_parse : String → Option ℤ) where
  Step-IsConsistent : {p q : Page} → Step t date_parse p q → IsConsistent p → IsConsistent q
  unfolding update_account_itcode
  Step-IsConsistent (mode_selected p mode) h =
      (select_login_mode-LoginHolds p.login _ h.0 mode, h.1)
  Step-IsConsistent (login_itcode_edited p value) h =
      (update_login_itcode-LoginHolds p.login _ h.0 value, h.1)
  Step-IsConsistent (login_password_edited p value e) h =
      (login_password-LoginHolds p.login _ h.0 value e, h.1)
  Step-IsConsistent (login_code_edited p value e) h =
      (login_code-LoginHolds p.login _ h.0 value, h.1)
  Step-IsConsistent (login_code_asked p now e) h =
      ask_login_code-IsConsistent date_parse p h (idle_of_enabled _ _ _ e)
  Step-IsConsistent (login_submitted p e) h =
      begin_login-IsConsistent t date_parse p h (idle_of_login_enabled p.login e)
  Step-IsConsistent (login_answered p server request rest gone) h =
      answer_login-IsConsistent t p server request rest h gone
  Step-IsConsistent (account_opened p action e) h =
      (h.0, open_account_action-AccountHolds p.account _ h.1 action p.login)
  Step-IsConsistent (account_closed p) h = (h.0, close_account_action-AccountHolds p.account _ h.1)
  Step-IsConsistent (account_itcode_edited p action value e) h = (
    h.0,
    edited-AccountHolds p.account _ h.1 (update_account_itcode value p.account) refl
        (λ g. cc (e, g)) empty-IsCode,
  )
  Step-IsConsistent (account_password_edited p action value e) h = (
    h.0,
    edited-AccountHolds p.account _ h.1 (record p.account { password = value }) refl
        (λ g. cc (e, g)) h.1.is_code,
  )
  Step-IsConsistent (account_confirmation_edited p action value e) h = (
    h.0,
    edited-AccountHolds p.account _ h.1 (record p.account { confirmation = value }) refl
        (λ g. cc (e, g)) h.1.is_code,
  )
  Step-IsConsistent (account_code_edited p action value e) h = (
    h.0,
    edited-AccountHolds p.account _ h.1 (record p.account { code = code_input value }) refl
        (λ g. cc (e, g)) (code_input-IsCode value),
  )
  Step-IsConsistent (account_code_asked p now e) h =
      ask_account_code-IsConsistent date_parse p h (idle_of_enabled _ _ _ e)
  Step-IsConsistent (account_submitted p e) h =
      begin_account-IsConsistent t date_parse p h (idle_of_account_enabled p.account e)
  Step-IsConsistent (account_answered p server request rest gone) h =
      answer_account-IsConsistent t p server request rest h gone

  -- In every state that the sign-in page reaches, each form is busy exactly while one call of its own is
  -- on its way, and with the kind of that call: nothing is sent twice. Both codes are at most six digits,
  -- the mode without a password field keeps no password, and a closed dialog holds nothing.
  pub Reach-IsConsistent : (p : Page) → Reach t date_parse p → IsConsistent p
  Reach-IsConsistent _ (start w) = opened-IsConsistent w
  Reach-IsConsistent p (next reached step) = Step-IsConsistent step (Reach-IsConsistent _ reached)
