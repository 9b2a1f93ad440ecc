-- ===== src/Examples/Messages.antt =====
-- The theorems on transient messages, release texts and translations at small inputs.
use grouproxy.Base.{String, ◌≡◌, refl, true, false, none}
use grouproxy.Toast.{
  ToastInput, mount, initial, notified, mounted, Reach, start, next, notify_toast,
}
use grouproxy.Toast.Bounds.{IsBounded, Reach-IsBounded}
use grouproxy.Release.{Translator, format_release_event_message}
use grouproxy.Release.Events.{acknowledgement_message, format-acknowledgement_message}
use grouproxy.Examples.{ne_of_test}

abbrev message : String → ToastInput
message title = record { title = title; description = none; variant = none; duration = none }

mounted-Reach : Reach (mount (λ n. n) (notify_toast (message "a") (λ n. n) initial))
mounted-Reach = next (next start (notified initial (message "a") (λ n. n))) (mounted _ (λ n. n))

Reach-IsBounded_example : IsBounded (mount (λ n. n) (notify_toast (message "a") (λ n. n) initial))
Reach-IsBounded_example = Reach-IsBounded mounted-Reach

abbrev pub untranslated : Translator
untranslated key values = key

format-acknowledgement_message_example :
    format_release_event_message untranslated (acknowledgement_message "apply" true false true)
    ≡ "Node acknowledgement received: {stage}; sing-box={singbox}, nftables={nftables}, health={health}."
format-acknowledgement_message_example =
    format-acknowledgement_message untranslated "apply" true false true (ne_of_test _ _ refl)
      (refl, (refl, (refl, (refl, (refl, tt)))))
