-- ===== src/Alerts/Reasons.antt =====
-- The details of alerts that frontend/app/alerts/page.tsx does not recognise as a message on denials.
use text.Mathlib.TextLemmas.{nil-append, cons-append, append_assoc}
use grouproxy.Base.{
  String, Char, ◌<>◌, ◌≡◌, refl, none, some, [], arith, eq_iff, str_eq, Bool-cases, inl, inr,
}
use grouproxy.Api.Url.Escaping.{Lacks}
use grouproxy.Release.{Translator, strip_prefix, is_digit}
use grouproxy.Release.Events.{strip_prefix-append, group-append}
use grouproxy.Alerts.{
  DenySpike, parse_counts, parse_deny_spike, split_last, translate_reason, translate_alert_detail,
}
use grouproxy.Alerts.Details.{
  strip-colon, parse_deny_spike-Lacks, Lacks-append, Lacks-digits, IsNumbered,
}

split_last-Lacks : (s : String) → Lacks b':' s → split_last s ≡ none
unfolding split_last
split_last-Lacks String.[] h = refl
split_last-Lacks (String.◌∷◌ c s) h = rw (split_last-Lacks s h.1, strip-colon c s h.0)

split_last_cons :
    (c : Char) (s reason : String)
    → split_last s ≡ none
    → strip_prefix ": " (String.◌∷◌ c s) ≡ some reason
    → split_last (String.◌∷◌ c s) ≡ some (": ", reason)
unfolding split_last
split_last_cons c s reason e f = rw (e, f)

-- The text before and after the last colon and blank.
split_last-append :
    (site reason : String)
    → Lacks b':' reason
    → split_last (site <> (": " <> reason)) ≡ some (site <> ": ", reason)
unfolding split_last
split_last-append String.[] reason h =
    let known = strip_prefix-append ": " reason in
    rw (nil-append (": " <> reason), nil-append ": ", cons-append ":" " " reason)
      (split_last_cons ":" (" " <> reason) reason
        (split_last-Lacks (" " <> reason) (Lacks-append b':' " " reason (omega arith) h))
        (rw (cons-append ":" " " reason) at known))
split_last-append (String.◌∷◌ c s) reason h = rw (
  cons-append c s (": " <> reason),
  cons-append c s ": ",
  split_last,
  split_last-append s reason h,
)

-- What the control plane writes on denials: backend/app/services/alerts.py, line 173.
abbrev pub denials_text : DenySpike → String
denials_text n =
    n.recent
    <> (" source requests denied in the last "
        <> (n.window <> ("s (baseline " <> (n.baseline <> ")"))))

strip-denies :
    (rest : String)
    → strip_prefix " denies in the last " (" source requests denied in the last " <> rest) ≡ none
unfolding strip_prefix
strip-denies rest = rw (
  cons-append " " "source requests denied in the last " rest,
  cons-append "s" "ource requests denied in the last " rest,
)

parse-denials_text : (n : DenySpike) → IsNumbered n → parse_counts (": " <> denials_text n) ≡ none
unfolding parse_counts
parse-denials_text n h =
    let rest : String = n.window <> ("s (baseline " <> (n.baseline <> ")")) in
    let s₂ : String = " source requests denied in the last " <> rest in
    rw (
      strip_prefix-append ": " (n.recent <> s₂),
      group-append is_digit n.recent s₂ h.recent_given h.recent_digits
          (rw (cons-append " " "source requests denied in the last " rest) refl),
      strip-denies rest,
    )

denials_text-Lacks : (n : DenySpike) → IsNumbered n → Lacks b':' (denials_text n)
denials_text-Lacks n h = Lacks-append b':' n.recent _ (Lacks-digits n.recent h.recent_digits) (
    Lacks-append b':' " source requests denied in the last " _ (omega arith) (
      Lacks-append b':' n.window _ (Lacks-digits n.window h.window_digits) (
        Lacks-append b':' "s (baseline " _ (omega arith) (
          Lacks-append b':' n.baseline ")" (Lacks-digits n.baseline h.baseline_digits)
            (omega arith)))))

parse_deny_spike-none :
    (c : Char) (s : String)
    → parse_counts (String.◌∷◌ c s) ≡ none
    → parse_deny_spike s ≡ none
    → parse_deny_spike (String.◌∷◌ c s) ≡ none
unfolding parse_deny_spike
parse_deny_spike-none c s e f = rw (f, e)

parse_deny_spike-denials_text :
    (site : String) (n : DenySpike)
    → Lacks b':' site
    → IsNumbered n
    → parse_deny_spike (site <> (": " <> denials_text n)) ≡ none
unfolding parse_counts
parse_deny_spike-denials_text String.[] n h k =
    let known = parse-denials_text n k in
    rw (nil-append (": " <> denials_text n), cons-append ":" " " (denials_text n))
      (parse_deny_spike-none ":" (" " <> denials_text n)
        (rw (cons-append ":" " " (denials_text n)) at known)
        (parse_deny_spike-Lacks (" " <> denials_text n)
          (Lacks-append b':' " " (denials_text n) (omega arith) (denials_text-Lacks n k))))
parse_deny_spike-denials_text (String.◌∷◌ c s) n h k =
    rw (cons-append c s (": " <> denials_text n)) (
      parse_deny_spike-none c (s <> (": " <> denials_text n))
        (rw (strip-colon c (s <> (": " <> denials_text n)) h.0))
        (parse_deny_spike-denials_text s n h.1 k))

-- The message that the control plane writes on denials has another wording, which the page does not
-- know: it is shown as it came, in whatever language the console is. The site has no colon, the
-- numbers are digits, and neither the message nor what follows the site has a translation of its
-- own.
pub translate-denials_text :
    (t : Translator) (site : String) (n : DenySpike)
    → Lacks b':' site
    → IsNumbered n
    → t (site <> (": " <> denials_text n)) [] ≡ site <> (": " <> denials_text n)
    → t (denials_text n) [] ≡ denials_text n
    → translate_alert_detail t (site <> (": " <> denials_text n)) ≡ site <> (": " <> denials_text n)
unfolding translate_alert_detail
translate-denials_text t site n h k e f =
    let detail : String = site <> (": " <> denials_text n) in
    rw (
      (eq_iff (t detail []) detail).1 e,
      parse_deny_spike-denials_text site n h k,
      translate_reason,
      split_last-append site (denials_text n) (denials_text-Lacks n k),
      (eq_iff (t (denials_text n) []) (denials_text n)).1 f,
    )

-- Where a text on its own is not known, what follows its last colon and blank is translated, and
-- the rest stays. The text is none on denials, and what follows has no colon.
pub translate-last :
    (t : Translator) (site reason : String)
    → Lacks b':' reason
    → t (site <> (": " <> reason)) [] ≡ site <> (": " <> reason)
    → parse_deny_spike (site <> (": " <> reason)) ≡ none
    → translate_alert_detail t (site <> (": " <> reason)) ≡ site <> (": " <> t reason [])
unfolding translate_alert_detail
translate-last t site reason h e none_of_it =
    let detail : String = site <> (": " <> reason) in
    rw
      (
        (eq_iff (t detail []) detail).1 e,
        none_of_it,
        translate_reason,
        split_last-append site reason h,
      )
      (elim (Bool-cases (str_eq (t reason []) reason)) [
        | inl same ↦ rw (same, (eq_iff (t reason []) reason).0 same)
        | inr other ↦ rw other (append_assoc site ": " (t reason []))
      ])
