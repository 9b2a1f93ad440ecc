-- ===== src/Login.antt =====
-- frontend/app/login/page.tsx: signing in with a password or a code, and the dialog that creates an
-- account or resets a password. This file has the tables and the field of the verification code.
pub mod Page
pub mod Machine
pub mod Notices
pub mod Submission
pub mod Codes
pub mod Forms
pub mod Transitions
pub mod Invariant
pub mod Settling
pub mod SignIn
use grouproxy.Base.{
  ℕ, zero, suc, ◌+◌, ◌-◌, ◌/◌, ◌*◌, String, Char, code, Bool, true, false, not, ◌&&◌, ◌||◌, Option,
  none, some, List, [], ◌∷◌, leb, ltb, if◌then◌else◌,
}
use grouproxy.Base.Int.{ℤ, pos_part, neg_part}
use grouproxy.Base.Dict.{Dict, lookup}
use grouproxy.Api.Entities.Accounts.{VerificationChallenge}
use grouproxy.Api.Calls.Account.{VerificationPurpose, gquan_login}

pub data LoginMode : Type 0 where
  password gquan : LoginMode

pub data AccountAction : Type 0 where
  register password_change : AccountAction

-- `AuthBusy` is an `Option` of this: what a form waits for.
pub data AuthBusy : Type 0 where
  send submit : AuthBusy

-- `loginModes[mode].purpose`
abbrev pub login_purpose : LoginMode → Option VerificationPurpose
login_purpose password = none
login_purpose gquan = some gquan_login

abbrev pub account_purpose : AccountAction → VerificationPurpose
account_purpose register = VerificationPurpose.register
account_purpose password_change = VerificationPurpose.password_change

abbrev pub auth_error_texts : Dict String
auth_error_texts =
    ("account_not_registered", "No active account is registered for this IT code.")
    ∷ ("gquan_delivery_unavailable", "GQuan verification delivery is unavailable.")
    ∷ ("gquan_delivery_rejected", "GQuan did not accept the verification request.")
    ∷ ("gquan_quota_exceeded", "GQuan verification quota is currently exhausted.")
    ∷ ("gquan_stub_not_allowed", "GQuan stub delivery is not allowed in this environment.")
    ∷ ("gquan_test_code_not_configured", "GQuan test verification is not configured.")
    ∷ ("invalid_credentials", "The IT code or password is not valid.")
    ∷ ("invalid_itcode", "Enter a valid IT code.")
    ∷ ("invalid_password", "Passwords must contain at least 12 characters.")
    ∷ ("itcode_already_registered", "This IT code already has an account.")
    ∷ ("password_confirmation_mismatch", "The password confirmation does not match.")
    ∷ (
      "verification_code_attempts_exceeded",
      "This code can no longer be used. Request another one.",
    )
    ∷ ("verification_code_expired", "This verification code has expired. Request another one.")
    ∷ ("verification_code_invalid", "The verification code is not valid.")
    ∷ (
      "verification_code_rate_limited", "A code was sent recently. Wait before requesting another.",
    )
    ∷ ("network_error", "Unable to reach the control plane. Check the local service and retry.")
    ∷ ("validation_error", "The request contains invalid fields.")
    ∷ []

-- `authErrorMessage` for an error with that message. The names that a JavaScript object has from its
-- prototype, `constructor` for one, are left aside.
unfoldable pub auth_error_message : (String → String) → String → String
auth_error_message t message = elim (lookup message auth_error_texts) [
  | none ↦ t "The request could not be completed."
  | some text ↦ t text
]

abbrev is_digit : Char → Bool
is_digit c = leb b'0' (code c) && leb (code c) b'9'

-- `value.replace(/\D/g, "")`
unfoldable pub digits : String → String
digits String.[] = ""
digits (String.◌∷◌ c s) = let rest = digits s in if is_digit c then String.◌∷◌ c rest else rest

-- `text.slice(0, n)` of a text of digits.
unfoldable pub first : ℕ → String → String
first zero s = ""
first (suc n) String.[] = ""
first (suc n) (String.◌∷◌ c s) = String.◌∷◌ c (first n s)

-- What the field of the verification code takes of what is typed.
unfoldable pub code_input : String → String
unfolding digits first
code_input value = first 6 (digits value)

-- The seconds until another code may be sent: `Math.ceil` of the milliseconds, none in the past.
unfoldable pub wait_seconds : (String → Option ℤ) → ℤ → Option VerificationChallenge → ℕ
wait_seconds date_parse now none = 0
wait_seconds date_parse now (some challenge) = elim (date_parse challenge.resend_available_at) [
  | none ↦ 0
  | some at ↦ ((pos_part at + neg_part now) - (pos_part now + neg_part at) + 999) / 1000
]

abbrev pub is_busy : Option AuthBusy → Bool
is_busy none = false
is_busy (some _) = true

-- Whether the button that sends a code is disabled.
unfoldable pub send_disabled : Bool → Option AuthBusy → ℕ → Bool
send_disabled can_send busy wait = not can_send || (is_busy busy || ltb 0 wait)
