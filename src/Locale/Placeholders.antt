-- ===== src/Locale/Placeholders.antt =====
-- Filling placeholders in a message.
use text.Mathlib.TextLemmas.{nil-append, cons-append}
use grouproxy.Base.{
  ℕ, zero, String, Char, code, ◌<>◌, false, ◌||◌, ◌≡◌, ◌≢◌, refl, sym, ap, ◌∙◌, inl, inr,
  Bool-cases, none, some, arith, ◌==◌,
}
use grouproxy.Api.Url.Escaping.{Lacks}
use grouproxy.Release.{strip_prefix}
use grouproxy.Release.Events.{strip_prefix-append}
use grouproxy.Locale.{normalize_message_key, expand, size, replace_from, replace_placeholder}

-- A normalised key has neither underscores nor full stops, so normalising it again changes nothing.
pub normalize_message_key_idempotent :
    (key : String) → normalize_message_key (normalize_message_key key) ≡ normalize_message_key key
unfolding normalize_message_key
normalize_message_key_idempotent String.[] = refl
normalize_message_key_idempotent (String.◌∷◌ c s) =
    elim (Bool-cases (code c == b'_' || code c == b'.')) [
      | inl out ↦ rw out (ap (λ s. String.◌∷◌ " " s) (normalize_message_key_idempotent s))
      | inr kept ↦ rw (kept, kept) (ap (λ s. String.◌∷◌ c s) (normalize_message_key_idempotent s))
    ]

==_ff : (a b : ℕ) → a ≢ b → (a == b) ≡ false
==_ff a b h = ground arith

expand-plain :
    (value matched before after : String)
    → Lacks b'$' value
    → expand value matched before after ≡ value
unfolding expand
expand-plain String.[] m b a h = refl
expand-plain (String.◌∷◌ c String.[]) m b a h = refl
expand-plain (String.◌∷◌ c (String.◌∷◌ d s)) m b a (here, later) =
    rw (==_ff (code c) b'$' here)
      (ap (λ s. String.◌∷◌ c s) (expand-plain (String.◌∷◌ d s) m b a later))

module _ (p : Char) (pattern value : String) where
  strip_prefix-other :
      (c : Char) (s : String)
      → code c ≢ code p
      → strip_prefix (String.◌∷◌ p pattern) (String.◌∷◌ c s) ≡ none
  unfolding strip_prefix
  strip_prefix-other c s h = rw (==_ff (code p) (code c) (λ e. h (sym e))) refl

  replace_from-passes :
      (before : String) (c : Char) (s : String)
      → strip_prefix (String.◌∷◌ p pattern) (String.◌∷◌ c s) ≡ none
      → replace_from p pattern value before zero (String.◌∷◌ c s)
        ≡ String.◌∷◌ c (replace_from p pattern value (before <> String.◌∷◌ c "") zero s)
  unfolding replace_from
  replace_from-passes before c s h = rw (h, replace_from) refl

  replace_from-matches :
      (before : String) (c : Char) (s after : String)
      → strip_prefix (String.◌∷◌ p pattern) (String.◌∷◌ c s) ≡ some after
      → replace_from p pattern value before zero (String.◌∷◌ c s)
        ≡ expand value (String.◌∷◌ p pattern) before after
          <> replace_from p pattern value (before <> String.◌∷◌ c "") (size pattern) s
  unfolding replace_from
  replace_from-matches before c s after h = rw (h, replace_from) refl

  -- The rest of a match is passed over.
  replace_from-size :
      (before matched rest : String)
      → (b : String) × (replace_from p pattern value before (size matched) (matched <> rest)
          ≡ replace_from p pattern value b zero rest)
  unfolding replace_from size
  replace_from-size before String.[] rest = (before, rw (nil-append rest) refl)
  replace_from-size before (String.◌∷◌ c m) rest =
      let (b, e) = replace_from-size (before <> String.◌∷◌ c "") m rest in
      (b, rw (cons-append c m rest) e)

  -- The first match that begins the text is replaced.
  replace_from-match :
      (before rest : String)
      → (b : String) × (replace_from p pattern value before zero (String.◌∷◌ p pattern <> rest)
          ≡ expand value (String.◌∷◌ p pattern) before rest
            <> replace_from p pattern value b zero rest)
  replace_from-match before rest =
      let (b, e) = replace_from-size (before <> String.◌∷◌ p "") pattern rest in
      (
        b,
        rw (cons-append p pattern rest) (
            replace_from-matches before p (pattern <> rest) rest (
              ap (λ t. strip_prefix (String.◌∷◌ p pattern) t) (sym (cons-append p pattern rest))
              ∙ strip_prefix-append (String.◌∷◌ p pattern) rest)
            ∙ ap (λ t. expand value (String.◌∷◌ p pattern) before rest <> t) e),
      )

  -- Text without the first character of the pattern is passed over.
  replace_from-lacking :
      (before text rest : String)
      → Lacks (code p) text
      → (c' : String) × (replace_from p pattern value before zero (text <> rest)
          ≡ text <> replace_from p pattern value c' zero rest)
  unfolding replace_from
  replace_from-lacking before String.[] rest h = (
    before,
    rw (nil-append rest, nil-append (replace_from p pattern value before zero rest)) refl,
  )
  replace_from-lacking before (String.◌∷◌ c text) rest (here, later) =
      let (b, e) = replace_from-lacking (before <> String.◌∷◌ c "") text rest later in
      (
        b,
        rw (cons-append c text rest) (
            replace_from-passes before c (text <> rest) (strip_prefix-other c (text <> rest) here)
            ∙ ap (λ t. String.◌∷◌ c t) e
            ∙ sym (cons-append c text _)),
      )

append-nil : (s : String) → s <> "" ≡ s
append-nil String.[] = nil-append ""
append-nil (String.◌∷◌ c s) = cons-append c s "" ∙ ap (λ t. String.◌∷◌ c t) (append-nil s)

replace_from-none :
    (p : Char) (pattern value before text : String)
    → Lacks (code p) text
    → replace_from p pattern value before zero text ≡ text
unfolding replace_from
replace_from-none p pattern value before text h =
    let (b, e) = replace_from-lacking p pattern value before text "" h in
    ap (λ t. replace_from p pattern value before zero t) (sym (append-nil text))
    ∙ e
    ∙ append-nil text

-- A placeholder between texts without braces is replaced by the value, if the value has no dollar
-- sign.
pub replace_placeholder-fills :
    (name value before after : String)
    → Lacks b'{' before
    → Lacks b'{' after
    → Lacks b'$' value
    → replace_placeholder name value (before <> (("{" <> (name <> "}")) <> after))
      ≡ before <> (value <> after)
unfolding replace_placeholder
replace_placeholder-fills name value before after h₁ h₂ h₃ =
    let tail = name <> "}" in
    let (b, e) = replace_from-lacking "{" tail value "" before (("{" <> tail) <> after) h₁ in
    let (b', e') = replace_from-match "{" tail value b after in
    e
    ∙ ap (λ t. before <> t)
        (ap (λ t. replace_from "{" tail value b zero (t <> after))
            (cons-append "{" "" tail ∙ ap (λ t. String.◌∷◌ "{" t) (nil-append tail))
          ∙ e'
          ∙ rw
              (
                expand-plain value (String.◌∷◌ "{" tail) b after h₃,
                replace_from-none "{" tail value b' after h₂,
              )
              refl)

-- The value `$&` stands for what it replaces: a placeholder between texts without braces keeps its
-- place, and the message is unchanged.
pub replace_placeholder-match :
    (name before after : String)
    → Lacks b'{' before
    → Lacks b'{' after
    → replace_placeholder name "$&" (before <> (("{" <> (name <> "}")) <> after))
      ≡ before <> (("{" <> (name <> "}")) <> after)
unfolding replace_placeholder expand
replace_placeholder-match name before after h₁ h₂ =
    let tail = name <> "}" in
    let (b, e) = replace_from-lacking "{" tail "$&" "" before (("{" <> tail) <> after) h₁ in
    let (b', e') = replace_from-match "{" tail "$&" b after in
    let braces = cons-append "{" "" tail ∙ ap (λ t. String.◌∷◌ "{" t) (nil-append tail) in
    e
    ∙ ap (λ t. before <> t)
        (ap (λ t. replace_from "{" tail "$&" b zero (t <> after)) braces
          ∙ e'
          ∙ rw (append-nil (String.◌∷◌ "{" tail), replace_from-none "{" tail "$&" b' after h₂)
              (ap (λ t. t <> after) (sym braces)))
