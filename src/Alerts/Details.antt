-- ===== src/Alerts/Details.antt =====
-- The messages on denials that frontend/app/alerts/page.tsx recognises, with their parts.
use text.Mathlib.TextLemmas.{nil-append, cons-append}
use grouproxy.Base.{
  ℕ, String, Char, code, ◌<>◌, ◌≡◌, ◌≢◌, refl, true, none, some, [], ◌∷◌, arith, eq_iff,
}
use grouproxy.Api.Url.Escaping.{AllChars, Lacks}
use grouproxy.Release.{Translator, strip_prefix, is_digit, not_line_end}
use grouproxy.Release.Events.{strip_prefix-append, strip_prefix_self, group-append, Passes}
use grouproxy.Alerts.{DenySpike, parse_counts, parse_deny_spike, translate_alert_detail}

pub strip-colon :
    (c : Char) (s : String) → code c ≢ b':' → strip_prefix ": " (String.◌∷◌ c s) ≡ none
unfolding strip_prefix
strip-colon c s h = ground arith

pub parse_deny_spike-Lacks : (s : String) → Lacks b':' s → parse_deny_spike s ≡ none
unfolding parse_deny_spike parse_counts
parse_deny_spike-Lacks String.[] h = refl
parse_deny_spike-Lacks (String.◌∷◌ c s) h = rw (parse_deny_spike-Lacks s h.1, strip-colon c s h.0)

-- Before a text in which no match begins, a text without a line end is the group, and it may hold
-- anything else.
parse_deny_spike-append :
    (site rest : String) (counts : DenySpike)
    → AllChars (λ c. not_line_end (code c) ≡ true) site
    → parse_deny_spike rest ≡ some ("", counts)
    → parse_deny_spike (site <> rest) ≡ some (site, counts)
unfolding parse_deny_spike
parse_deny_spike-append String.[] rest counts h e = rw nil-append e
parse_deny_spike-append (String.◌∷◌ c s) rest counts h e =
    rw (cons-append c s rest, parse_deny_spike, parse_deny_spike-append s rest counts h.1 e, h.0)

pub Lacks-append : (k : ℕ) (s t : String) → Lacks k s → Lacks k t → Lacks k (s <> t)
Lacks-append k String.[] t h g = rw nil-append g
Lacks-append k (String.◌∷◌ c s) t h g = rw (cons-append c s t) (h.0, Lacks-append k s t h.1 g)

pub Lacks-digits : (s : String) → Passes is_digit s → Lacks b':' s
Lacks-digits String.[] h = tt
Lacks-digits (String.◌∷◌ c s) h = (ground arith, Lacks-digits s h.1)

-- The text that the page recognises, after the site.
abbrev pub counts_text : DenySpike → String
counts_text n =
    ": "
    <> (n.recent
        <> (" denies in the last " <> (n.window <> ("s (baseline " <> (n.baseline <> ")")))))

pub record IsNumbered (n : DenySpike) : Type 0 where
  pub recent_given : n.recent ≢ ""
  pub recent_digits : Passes is_digit n.recent
  pub window_given : n.window ≢ ""
  pub window_digits : Passes is_digit n.window
  pub baseline_given : n.baseline ≢ ""
  pub baseline_digits : Passes is_digit n.baseline

parse-counts_text : (n : DenySpike) → IsNumbered n → parse_counts (counts_text n) ≡ some n
unfolding parse_counts
parse-counts_text n h =
    let s₅ : String = n.baseline <> ")" in
    let s₃ : String = n.window <> ("s (baseline " <> s₅) in
    rw (
      strip_prefix-append ": " (n.recent <> (" denies in the last " <> s₃)),
      group-append is_digit n.recent (" denies in the last " <> s₃) h.recent_given h.recent_digits
          (rw (cons-append " " "denies in the last " s₃) refl),
      strip_prefix-append " denies in the last " s₃,
      group-append is_digit n.window ("s (baseline " <> s₅) h.window_given h.window_digits
          (rw (cons-append "s" " (baseline " s₅) refl),
      strip_prefix-append "s (baseline " s₅,
      group-append is_digit n.baseline ")" h.baseline_given h.baseline_digits refl,
      strip_prefix_self ")",
    )

-- After the first colon none follows.
after_colon-Lacks :
    (n : DenySpike)
    → IsNumbered n
    → Lacks b':' (
        " "
        <> (n.recent
            <> (" denies in the last " <> (n.window <> ("s (baseline " <> (n.baseline <> ")"))))))
after_colon-Lacks n h = Lacks-append b':' " " _ (omega arith) (
    Lacks-append b':' n.recent _ (Lacks-digits n.recent h.recent_digits) (
      Lacks-append b':' " denies in the last " _ (omega arith) (
        Lacks-append b':' n.window _ (Lacks-digits n.window h.window_digits) (
          Lacks-append b':' "s (baseline " _ (omega arith) (
            Lacks-append b':' n.baseline ")" (Lacks-digits n.baseline h.baseline_digits)
              (omega arith))))))

parse_deny_spike_cons :
    (c : Char) (s : String) (n : DenySpike)
    → parse_counts (String.◌∷◌ c s) ≡ some n
    → parse_deny_spike s ≡ none
    → parse_deny_spike (String.◌∷◌ c s) ≡ some ("", n)
unfolding parse_deny_spike
parse_deny_spike_cons c s n e f = rw (f, e)

parse_deny_spike-counts_text :
    (n : DenySpike) → IsNumbered n → parse_deny_spike (counts_text n) ≡ some ("", n)
parse_deny_spike-counts_text n h =
    let rest : String =
      n.recent
      <> (" denies in the last " <> (n.window <> ("s (baseline " <> (n.baseline <> ")")))) in
    let known = parse-counts_text n h in
    rw (cons-append ":" " " rest) (
      parse_deny_spike_cons ":" (" " <> rest) n (rw (cons-append ":" " " rest) at known)
        (parse_deny_spike-Lacks (" " <> rest) (after_colon-Lacks n h)))

-- A message on denials in the form that the page knows is shown in the reader's language, with the
-- site and the three numbers, whatever the site is called. The site has no line end, the numbers are
-- digits, and the message as a whole has no translation of its own.
pub translate-counts_text :
    (t : Translator) (site : String) (n : DenySpike)
    → AllChars (λ c. not_line_end (code c) ≡ true) site
    → IsNumbered n
    → t (site <> counts_text n) [] ≡ site <> counts_text n
    → translate_alert_detail t (site <> counts_text n)
      ≡ t "{site}: {recent} denies in the last {window}s (baseline {baseline})" (
          ("site", site)
          ∷ ("recent", n.recent)
          ∷ ("window", n.window)
          ∷ ("baseline", n.baseline)
          ∷ [])
unfolding translate_alert_detail
translate-counts_text t site n h k e = rw (
  (eq_iff (t (site <> counts_text n) []) (site <> counts_text n)).1 e,
  parse_deny_spike-append site (counts_text n) n h (parse_deny_spike-counts_text n k),
)
