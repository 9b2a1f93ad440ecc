-- ===== src/Settings/Submission.antt =====
-- What the form of the settings sends.
use grouproxy.Base.{
  test_of_ne, ℕ, String, ◌≡◌, ◌≢◌, ◌<◌, ◌≤◌, refl, true, false, ◌⊎◌, inl, inr, Option, none, some,
  arith, leb, Bool-cases,
}
use grouproxy.Api.Url.{trim, show}
use grouproxy.Api.Url.Decimal.{decimal-show, all_digits-show, trim-digits, show-ne-nil}
use grouproxy.Api.Calls.Sites.{update_system_settings}
use grouproxy.Api.Entities.Nodes.{SystemSettings}
use grouproxy.Settings.{parse_boundary, SettingsForm, saved, is_web, submit_boundaries, submit}

parse_boundary-le : (value : String) (n : ℕ) → parse_boundary value ≡ some n → n ≤ 300000
unfolding parse_boundary
parse_boundary-le value n h = ground arith

-- A boundary within the limit is read back from the text that the form shows for it.
parse_boundary-show : (n : ℕ) → n ≤ 300000 → parse_boundary (show n) ≡ some n
unfolding parse_boundary
parse_boundary-show n h =
    rw (trim-digits (show n) (all_digits-show n), all_digits-show n, decimal-show n)
      (rw (test_of_ne (show n) "" (show-ne-nil n)) (ground arith))

module _ (protocol_of : String → Option String) where
  submit_boundaries-sends :
      (low high : Option ℕ) (f : SettingsForm)
      → ((submit_boundaries protocol_of low high f).1 ≡ none)
          × ((submit_boundaries protocol_of low high f).0.form_error ≢ "")
        ⊎ ((g : ℕ) × (y : ℕ) × (low ≡ some g)
            × (high ≡ some y)
            × (g < y)
            × (is_web (protocol_of (trim f.probe_url)) ≡ true)
            × ((submit_boundaries protocol_of low high f).0.form_error ≡ "")
            × ((submit_boundaries protocol_of low high f).1
                ≡ some (
                    update_system_settings
                      (record { green_max_ms = g; yellow_max_ms = y })
                      (trim f.probe_url))))
  unfolding submit_boundaries
  submit_boundaries-sends none high f = inl (refl, λ e. cc)
  submit_boundaries-sends (some g) none f = inl (refl, λ e. cc)
  submit_boundaries-sends (some g) (some y) f = elim (Bool-cases (leb y g)) [
    | inl wrong ↦ rw wrong (inl (refl, λ e. cc))
    | inr fits ↦ elim (Bool-cases (is_web (protocol_of (trim f.probe_url)))) [
      | inl web ↦ rw (fits, web) (inr (g, y, refl, refl, ground arith, refl, refl, refl))
      | inr other ↦ rw (fits, other) (inl (refl, λ e. cc))
    ]
  ]

  -- Submitting the form sends nothing and shows a message, or it sends the two boundaries that are
  -- typed, whole numbers with the green one below the yellow one and this at most 300000, with an
  -- address of the web without white space at its ends, and shows no message.
  pub submit-sends :
      (f : SettingsForm)
      → ((submit protocol_of f).1 ≡ none) × ((submit protocol_of f).0.form_error ≢ "")
        ⊎ ((g : ℕ) × (y : ℕ) × (parse_boundary f.green_max ≡ some g)
            × (parse_boundary f.yellow_max ≡ some y)
            × (g < y)
            × (y ≤ 300000)
            × (is_web (protocol_of (trim f.probe_url)) ≡ true)
            × ((submit protocol_of f).0.form_error ≡ "")
            × ((submit protocol_of f).1
                ≡ some (
                    update_system_settings
                      (record { green_max_ms = g; yellow_max_ms = y })
                      (trim f.probe_url))))
  unfolding submit
  submit-sends f =
      elim (submit_boundaries-sends (parse_boundary f.green_max) (parse_boundary f.yellow_max) f) [
        | inl refused ↦ inl refused
        | inr (g, y, a, b, less, web, quiet, sent) ↦
            inr (g, y, a, b, less, parse_boundary-le f.yellow_max y b, web, quiet, sent)
      ]

  -- What the server has saved is shown so that submitting it again sends the same: the boundaries
  -- are in order and within the limit, and the address is one of the web without white space at its
  -- ends.
  pub submit-saved :
      (next : SystemSettings) (f : SettingsForm)
      → next.service_quality.green_max_ms < next.service_quality.yellow_max_ms
      → next.service_quality.yellow_max_ms ≤ 300000
      → trim next.default_probe_url ≡ next.default_probe_url
      → is_web (protocol_of next.default_probe_url) ≡ true
      → (submit protocol_of (saved next f)).1
        ≡ some (update_system_settings next.service_quality next.default_probe_url)
  unfolding submit saved
  submit-saved next f less limit trimmed web =
      let g = next.service_quality.green_max_ms in
      let y = next.service_quality.yellow_max_ms in
      let order : leb y g ≡ false = ground arith in
      rw (
        parse_boundary-show g (omega arith),
        parse_boundary-show y limit,
        submit_boundaries,
        order,
        trimmed,
        web,
      )
