-- ===== src/Api/Settled.antt =====
-- How a page's handler sees a call of frontend/lib/api.ts end: `await` goes on with the value, or
-- the error that was thrown goes to `catch`, by its message.
use grouproxy.Base.{ℕ, String}
use grouproxy.Api.Transport.{Outcome, done, api_error, invalid_json, error_message}

pub data Settled (A : Type 0) : Type 0 where
  fulfilled : A → Settled A
  rejected : String → Settled A

-- `show_status` is the text of a status, `syntax_error` the message of the exception that
-- `response.json()` throws.
unfoldable pub settle : {A : Type 0} → (ℕ → String) → String → Outcome A → Settled A
settle show_status syntax_error (done value) = fulfilled value
settle show_status syntax_error (api_error status detail) =
    rejected (error_message (show_status status) detail)
settle show_status syntax_error invalid_json = rejected syntax_error
