-- ===== src/Examples/Alerts.antt =====
-- The theorem on the details of alerts at one site and three numbers.
use text.Mathlib.TextLemmas.{cons-ne-nil}
use grouproxy.Base.{◌<>◌, ◌≡◌, refl, arith}
use grouproxy.Alerts.{DenySpike, translate_alert_detail}
use grouproxy.Alerts.Details.{IsNumbered}
use grouproxy.Alerts.Reasons.{denials_text, translate-denials_text}
use grouproxy.Examples.Messages.{untranslated}

abbrev spike : DenySpike
spike = record { recent = "12"; window = "60"; baseline = "3" }

spike-IsNumbered : IsNumbered spike
spike-IsNumbered = record {
  recent_given = cons-ne-nil "1" "2";
  recent_digits = (refl, (refl, tt));
  window_given = cons-ne-nil "6" "0";
  window_digits = (refl, (refl, tt));
  baseline_given = cons-ne-nil "3" "";
  baseline_digits = (refl, tt);
}

translate-denials_text_example :
    translate_alert_detail untranslated ("ab" <> (": " <> denials_text spike))
    ≡ "ab" <> (": " <> denials_text spike)
translate-denials_text_example =
    translate-denials_text untranslated "ab" spike (omega arith) spike-IsNumbered refl refl
