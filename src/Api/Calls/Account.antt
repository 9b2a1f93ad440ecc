-- ===== src/Api/Calls/Account.antt =====
-- Sign-in, accounts and roles: frontend/lib/api.ts, lines 713-752 and 901-910.
use grouproxy.Base.{String, ◌<>◌}
use grouproxy.Api.Json.{Json, str, obj, end, field}
use grouproxy.Api.Calls.{Call, get_call, send_call, empty_call, seg, one_text}

pub data VerificationPurpose : Type 0 where
  register password_change gquan_login : VerificationPurpose

abbrev pub purpose_name : VerificationPurpose → String
purpose_name register = "register"
purpose_name password_change = "password_change"
purpose_name gquan_login = "gquan_login"

-- The value of `registerAccount` and of `changeAccountPassword`.
pub record VerifiedPassword : Type 0 where
  pub itcode : String
  pub password : String
  pub challenge_id : String
  pub verification_code : String

pub record GQuanLogin : Type 0 where
  pub itcode : String
  pub challenge_id : String
  pub verification_code : String

abbrev verified_password : VerifiedPassword → Json
verified_password v = obj (
    field "itcode" (str v.itcode) (
      field "password" (str v.password) (
        field "challenge_id" (str v.challenge_id)
          (field "verification_code" (str v.verification_code) end))))

unfoldable pub login_with_password : String → String → Call
login_with_password itcode password =
    send_call "POST" "/api/v1/auth/login"
      (obj (field "itcode" (str itcode) (field "password" (str password) end)))

unfoldable pub request_auth_verification_code : String → VerificationPurpose → Call
request_auth_verification_code itcode purpose =
    send_call "POST" "/api/v1/auth/verification-codes"
      (obj (field "itcode" (str itcode) (field "purpose" (str (purpose_name purpose)) end)))

unfoldable pub register_account : VerifiedPassword → Call
register_account value = send_call "POST" "/api/v1/auth/register" (verified_password value)

unfoldable pub login_with_gquan : GQuanLogin → Call
login_with_gquan v = send_call "POST" "/api/v1/auth/gquan/login" (
    obj (
      field "itcode" (str v.itcode) (
        field "challenge_id" (str v.challenge_id)
          (field "verification_code" (str v.verification_code) end))))

unfoldable pub change_account_password : VerifiedPassword → Call
change_account_password value =
    send_call "POST" "/api/v1/auth/password/change" (verified_password value)

unfoldable pub logout_management_session : Call
logout_management_session = empty_call "POST" "/api/v1/auth/logout"

unfoldable pub get_employees : Call
get_employees = get_call "/api/v1/employees"

-- The roles that can be given to a user.
pub data AssignableRole : Type 0 where
  admin employee : AssignableRole

abbrev assignable_name : AssignableRole → String
assignable_name admin = "admin"
assignable_name employee = "employee"

unfoldable pub update_user_role : String → AssignableRole → Call
update_user_role itcode role =
    send_call "PATCH" ("/api/v1/users/" <> (seg itcode <> "/role"))
      (one_text "role" (assignable_name role))
