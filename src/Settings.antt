-- ===== src/Settings.antt =====
-- frontend/app/settings/page.tsx: the form of the system settings. `URL` is the argument `protocol_of`,
-- from an address to its protocol, or `none` where the constructor throws.
pub mod Submission
use grouproxy.Base.{
  ℕ, String, Bool, false, not, ◌&&◌, ◌||◌, Option, none, some, leb, if◌then◌else◌, str_eq,
}
use grouproxy.Api.Session.{is_truthy}
use grouproxy.Api.Url.{trim, show}
use grouproxy.Api.Url.Decimal.{all_digits, decimal}
use grouproxy.Api.Calls.{Call}
use grouproxy.Api.Calls.Sites.{ServiceQualityDefinition, update_system_settings}
use grouproxy.Api.Entities.Nodes.{SystemSettings}

abbrev pub max_latency_boundary_ms : ℕ
max_latency_boundary_ms = 300000

abbrev pub default_green_max_ms : ℕ
default_green_max_ms = 100

abbrev pub default_yellow_max_ms : ℕ
default_yellow_max_ms = 200

abbrev pub default_probe_url : String
default_probe_url = "https://example.com/"

-- `Number` ignores white space at the ends. A number that is not a safe integer is above the maximum,
-- and rounding to a double keeps it there.
unfoldable pub parse_boundary : String → Option ℕ
unfolding all_digits decimal trim
parse_boundary value =
    let digits = trim value in
    if is_truthy digits && all_digits digits
    then (if leb (decimal digits) max_latency_boundary_ms then some (decimal digits) else none)
    else none

pub record SettingsForm : Type 0 where
  pub green_max : String
  pub yellow_max : String
  pub probe_url : String
  pub form_error : String

unfoldable pub first_form : SettingsForm
first_form = record {
  green_max = show default_green_max_ms;
  yellow_max = show default_yellow_max_ms;
  probe_url = default_probe_url;
  form_error = "";
}

-- A field is typed into.
pub data Field : Type 0 where
  green yellow probe : Field

unfoldable pub type_into : Field → String → SettingsForm → SettingsForm
type_into green value f = record f { green_max = value; form_error = "" }
type_into yellow value f = record f { yellow_max = value; form_error = "" }
type_into probe value f = record f { probe_url = value; form_error = "" }

-- The two effects when settings are loaded.
unfoldable pub load : SystemSettings → SettingsForm → SettingsForm
load next f = record f {
  green_max = show next.service_quality.green_max_ms;
  yellow_max = show next.service_quality.yellow_max_ms;
  probe_url = if is_truthy next.default_probe_url then next.default_probe_url else f.probe_url;
}

-- `onSuccess` of the update.
unfoldable pub saved : SystemSettings → SettingsForm → SettingsForm
saved next f = record {
  green_max = show next.service_quality.green_max_ms;
  yellow_max = show next.service_quality.yellow_max_ms;
  probe_url = next.default_probe_url;
  form_error = "";
}

abbrev pub is_web : Option String → Bool
is_web none = false
is_web (some protocol) = str_eq protocol "http:" || str_eq protocol "https:"

module _ (protocol_of : String → Option String) where
  -- `submit` with both boundaries parsed: the form, and what is sent.
  unfoldable pub submit_boundaries : Option ℕ → Option ℕ → SettingsForm → SettingsForm × Option Call
  submit_boundaries (some low) (some high) f =
      if leb high low
      then (
        record f { form_error = "The yellow boundary must be greater than the green boundary." },
        none,
      )
      else if is_web (protocol_of (trim f.probe_url))
      then (
        record f { form_error = "" },
        some (
            update_system_settings (record { green_max_ms = low; yellow_max_ms = high })
              (trim f.probe_url)),
      )
      else (record f { form_error = "Enter a valid HTTP or HTTPS probe URL." }, none)
  submit_boundaries (some low) none f =
      (record f { form_error = "Enter a whole number from 0 to 300000 ms." }, none)
  submit_boundaries none high f =
      (record f { form_error = "Enter a whole number from 0 to 300000 ms." }, none)

  unfoldable pub submit : SettingsForm → SettingsForm × Option Call
  unfolding submit_boundaries parse_boundary
  submit f = submit_boundaries (parse_boundary f.green_max) (parse_boundary f.yellow_max) f
