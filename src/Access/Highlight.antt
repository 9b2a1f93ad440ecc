-- ===== src/Access/Highlight.antt =====
-- The highlighting of frontend/app/access/page.tsx keeps the text.
use text.Mathlib.TextLemmas.{cons-append, nil-append}
use grouproxy.Base.{
  ℕ, zero, suc, ◌-◌, String, Char, code, ◌<>◌, ◌≡◌, ◌≢◌, refl, ap, sym, ◌∙◌, Bool, false, Option,
  none, some, List, [], ◌∷◌, arith, subst, Option-cases, inl, inr,
}
use grouproxy.Locale.{size}
use grouproxy.Access.Matches.{
  IsMatch, comment-IsMatch, quoted-IsMatch, variable-IsMatch, option-IsMatch, type-IsMatch,
  url-IsMatch, keyword-IsMatch,
}
use grouproxy.Access.Tokens.{
  CodeLanguage, TokenClass, comment, quoted, variable, keyword, option, type_name, url, comment_at,
  quoted_at, variable_at, keyword_at, option_at, type_or_none, url_at, Token, tagged, first_token,
  token_at, Fragment, plain, token, with_plain, highlight_from, highlight_code, is_word,
}

-- A token is not empty, and with what follows it is the text.
abbrev IsToken : String → Option Token → Type 0
IsToken s none = Unit
IsToken s (some found) = (found.text <> found.rest ≡ s) × (found.text ≢ "")

IsToken-tagged :
    (class : TokenClass) (s : String) (r : Option (String × String))
    → IsMatch s r
    → IsToken s (tagged class r)
IsToken-tagged class s none h = tt
IsToken-tagged class s (some (taken, rest)) h = (h.covers, h.takes)

IsToken-first_token :
    (s : String) (a b : Option Token) → IsToken s a → IsToken s b → IsToken s (first_token a b)
IsToken-first_token s none b ha hb = hb
IsToken-first_token s (some found) b ha hb = ha

token_at-IsToken :
    (language : CodeLanguage) (after_word : Bool) (s : String)
    → IsToken s (token_at language after_word s)
unfolding token_at
token_at-IsToken language after_word s =
    IsToken-first_token s (tagged comment (comment_at s)) _
      (IsToken-tagged comment s _ (comment-IsMatch s))
      (IsToken-first_token s (tagged quoted (quoted_at language s)) _
        (IsToken-tagged quoted s _ (quoted-IsMatch language s))
        (IsToken-first_token s (tagged variable (variable_at language s)) _
          (IsToken-tagged variable s _ (variable-IsMatch language s))
          (IsToken-first_token s (tagged keyword (keyword_at language after_word s)) _
            (IsToken-tagged keyword s _ (keyword-IsMatch language after_word s))
            (IsToken-first_token s (tagged option (option_at s)) _
              (IsToken-tagged option s _ (option-IsMatch s))
              (IsToken-first_token s (tagged type_name (type_or_none language s))
                (tagged url (url_at language s))
                (IsToken-tagged type_name s _ (type-IsMatch language s))
                (IsToken-tagged url s _ (url-IsMatch language s)))))))

-- The text of a block, fragment by fragment.
abbrev pub shown_text : List Fragment → String
shown_text [] = ""
shown_text (plain s ∷ more) = s <> shown_text more
shown_text (token class s ∷ more) = s <> shown_text more

shown-with_plain :
    (c : Char) (fragments : List Fragment)
    → shown_text (with_plain c fragments) ≡ String.◌∷◌ c (shown_text fragments)
shown-with_plain c [] = rw (cons-append c "" "", nil-append "")
shown-with_plain c (plain s ∷ more) = cons-append c s (shown_text more)
shown-with_plain c (token class s ∷ more) =
    rw (cons-append c "" (s <> shown_text more), nil-append (s <> shown_text more))

-- `s.slice(n)`
abbrev after : ℕ → String → String
after zero s = s
after (suc n) String.[] = ""
after (suc n) (String.◌∷◌ c s) = after n s

after-append : (t rest : String) → after (size t) (t <> rest) ≡ rest
unfolding size
after-append String.[] rest = nil-append rest
after-append (String.◌∷◌ c t) rest = rw (cons-append c t rest) (after-append t rest)

tail_of : String → String
tail_of String.[] = ""
tail_of (String.◌∷◌ c s) = s

-- A token and the text after it, from the second character of both on.
token_then-after :
    (c : Char) (text rest s : String)
    → text <> rest ≡ String.◌∷◌ c s
    → text ≢ ""
    → text <> after (size text - 1) s ≡ String.◌∷◌ c s
unfolding size tail_of
token_then-after c String.[] rest s e h = absurd (h refl)
token_then-after c (String.◌∷◌ d t) rest s e h =
    let here = sym (cons-append d t rest) ∙ e in
    let same : t <> rest ≡ s = ap tail_of here in
    let less : suc (size t) - 1 ≡ size t = omega arith in
    let left : after (size t) s ≡ rest = sym (ap (after (size t)) same) ∙ after-append t rest in
    rw (less, left) e

highlight_from_lem :
    (language : CodeLanguage) (after_word : Bool) (skip : ℕ) (s : String)
    → shown_text (highlight_from language after_word skip s) ≡ after skip s
unfolding highlight_from
highlight_from_lem language after_word zero String.[] = refl
highlight_from_lem language after_word (suc skip) String.[] = refl
highlight_from_lem language after_word (suc skip) (String.◌∷◌ c s) =
    highlight_from_lem language (is_word (code c)) skip s
highlight_from_lem language after_word zero (String.◌∷◌ c s) =
    let known = token_at-IsToken language after_word (String.◌∷◌ c s) in
    elim (Option-cases (token_at language after_word (String.◌∷◌ c s))) [
      | inl plain_here ↦
          rw (plain_here, highlight_from)
            (shown-with_plain c (highlight_from language (is_word (code c)) zero s)
              ∙ ap (String.◌∷◌ c) (highlight_from_lem language (is_word (code c)) zero s))
      | inr (found, here) ↦
          let facts = subst (IsToken (String.◌∷◌ c s)) here known in
          rw (here, highlight_from)
            (rw (highlight_from_lem language (is_word (code c)) (size found.text - 1) s)
              (token_then-after c found.text found.rest s facts.0 facts.1))
    ]

-- The fragments of a block, plain or marked, are together the command that was to be shown: nothing
-- is lost, doubled or moved.
pub shown-highlight_code :
    (language : CodeLanguage) (content : String)
    → shown_text (highlight_code language content) ≡ content
unfolding highlight_code
shown-highlight_code language content = highlight_from_lem language false zero content
