-- ===== src/Examples/Settings.antt =====
-- The theorems of the settings page at one form.
use grouproxy.Base.{String, ◌≡◌, ◌≢◌, ◌<◌, ◌≤◌, ◌⊎◌, ℕ, refl, true, Option, none, some, arith}
use grouproxy.Api.Url.{trim}
use grouproxy.Api.Calls.Sites.{update_system_settings}
use grouproxy.Api.Entities.Nodes.{SystemSettings}
use grouproxy.Settings.{submit, saved, parse_boundary, is_web, first_form}
use grouproxy.Settings.Submission.{submit-sends, submit-saved}

abbrev protocol : String → Option String
protocol address = some "https:"

abbrev settings : SystemSettings
settings = record {
  settings_id = "s";
  service_quality = record { green_max_ms = 80; yellow_max_ms = 240 };
  default_probe_url = "https://example.com/";
  updated_at = "";
  updated_by = "";
}

submit-sends_example :
    ((submit protocol first_form).1 ≡ none) × ((submit protocol first_form).0.form_error ≢ "")
    ⊎ ((g : ℕ) × (y : ℕ) × (parse_boundary first_form.green_max ≡ some g)
        × (parse_boundary first_form.yellow_max ≡ some y)
        × (g < y)
        × (y ≤ 300000)
        × (is_web (protocol (trim first_form.probe_url)) ≡ true)
        × ((submit protocol first_form).0.form_error ≡ "")
        × ((submit protocol first_form).1
            ≡ some (
                update_system_settings
                  (record { green_max_ms = g; yellow_max_ms = y })
                  (trim first_form.probe_url))))
submit-sends_example = submit-sends protocol first_form

settings-trimmed : trim settings.default_probe_url ≡ settings.default_probe_url
unfolding trim
settings-trimmed = refl

submit-saved_example :
    (submit protocol (saved settings first_form)).1
    ≡ some (update_system_settings settings.service_quality settings.default_probe_url)
submit-saved_example =
    submit-saved protocol settings first_form (omega arith) (omega arith) settings-trimmed refl
