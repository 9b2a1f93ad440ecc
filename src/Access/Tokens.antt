-- ===== src/Access/Tokens.antt =====
-- The highlighting of commands: frontend/app/access/page.tsx, lines 33-66. Each alternative of the two
-- patterns is a parser of a beginning of the text.
use grouproxy.Base.{
  ℕ, zero, suc, ◌+◌, ◌-◌, String, Char, code, ◌<>◌, Bool, true, false, not, ◌&&◌, ◌||◌, Option,
  none, some, List, [], ◌∷◌, leb, ◌==◌, any, if◌then◌else◌,
}
use grouproxy.Api.Url.{is_space}
use grouproxy.Locale.{size}
use grouproxy.Release.{span, not_line_end}

pub data CodeLanguage : Type 0 where
  bash powershell : CodeLanguage

pub data TokenClass : Type 0 where
  comment quoted variable keyword option type_name url : TokenClass

-- What a match takes, and what follows it.
abbrev pub Parser : Type 0
Parser = String → Option (String × String)

abbrev pub joined : String → Option (String × String) → Option (String × String)
joined taken none = none
joined taken (some (more, rest)) = some (taken <> more, rest)

abbrev pub one : (ℕ → Bool) → Parser
one test String.[] = none
one test (String.◌∷◌ c s) = if test (code c) then some (String.◌∷◌ c "", s) else none

abbrev pub many : (ℕ → Bool) → Parser
many test s = some (span test s)

abbrev pub then_more : Parser → Option (String × String) → Option (String × String)
then_more q none = none
then_more q (some (taken, rest)) = joined taken (q rest)

infixr 60 ◌then◌
abbrev pub ◌then◌ : Parser → Parser → Parser
(p then q) s = then_more q (p s)

abbrev pub or_other : Option (String × String) → Option (String × String) → Option (String × String)
or_other none other = other
or_other (some found) other = some found

infixr 55 ◌or◌
abbrev pub ◌or◌ : Parser → Parser → Parser
(p or q) s = or_other (p s) (q s)

abbrev pub maybe : Parser → Parser
maybe p s = or_other (p s) (some ("", s))

abbrev pub char : ℕ → Parser
char k = one (λ c. c == k)

abbrev pub prefixed : Char → Option (String × String) → Option (String × String)
prefixed c none = none
prefixed c (some (taken, rest)) = some (String.◌∷◌ c taken, rest)

-- The rest of a quoted text to the quote that ends it: `(?:\\.|[^"\\])*"`, with the quote and the
-- escape as arguments.
unfoldable pub quoted_rest : ℕ → ℕ → Parser
quoted_rest close escape String.[] = none
quoted_rest close escape (String.◌∷◌ c String.[]) =
    if code c == close then some (String.◌∷◌ c "", "") else none
quoted_rest close escape (String.◌∷◌ c (String.◌∷◌ d s)) =
    let plain = prefixed c (quoted_rest close escape (String.◌∷◌ d s)) in
    let escaped = prefixed c (prefixed d (quoted_rest close escape s)) in
    if code c == close
    then some (String.◌∷◌ c "", String.◌∷◌ d s)
    else if code c == escape
    then (if not_line_end (code d) then escaped else none)
    else plain

-- `(?:''|[^'])*'`: two quotes stand for one, if the text is closed after them.
unfoldable pub doubled_rest : Parser
doubled_rest String.[] = none
doubled_rest (String.◌∷◌ c String.[]) = if code c == 39 then some (String.◌∷◌ c "", "") else none
doubled_rest (String.◌∷◌ c (String.◌∷◌ d s)) =
    let plain = prefixed c (doubled_rest (String.◌∷◌ d s)) in
    let pair = prefixed c (prefixed d (doubled_rest s)) in
    let closed : Option (String × String) = some (String.◌∷◌ c "", String.◌∷◌ d s) in
    if code c == 39 then (if code d == 39 then or_other pair closed else closed) else plain

abbrev pub is_letter : ℕ → Bool
is_letter c = (leb b'A' c && leb c b'Z') || (leb b'a' c && leb c b'z')

abbrev pub is_digit : ℕ → Bool
is_digit c = leb b'0' c && leb c b'9'

-- `\w`, and `[A-Za-z_]`
abbrev pub is_word : ℕ → Bool
is_word c = is_letter c || is_digit c || c == b'_'

abbrev pub is_name_start : ℕ → Bool
is_name_start c = is_letter c || c == b'_'

abbrev pub lower : ℕ → ℕ
lower c = if leb b'A' c && leb c b'Z' then c + 32 else c

-- Two texts are the same, with the flag `i` up to the case of the letters A to Z.
abbrev pub folded : CodeLanguage → ℕ → ℕ
folded bash c = c
folded powershell c = lower c

unfoldable pub same_text : CodeLanguage → String → String → Bool
same_text language String.[] String.[] = true
same_text language (String.◌∷◌ c s) (String.◌∷◌ d t) =
    folded language (code c) == folded language (code d) && same_text language s t
same_text language String.[] (String.◌∷◌ d t) = false
same_text language (String.◌∷◌ c s) String.[] = false

-- The characters of a text one after another.
unfoldable pub word : CodeLanguage → String → Parser
word language String.[] s = some ("", s)
word language (String.◌∷◌ c w) s =
    then_more (word language w) (one (λ d. folded language d == folded language (code c)) s)

abbrev pub keywords : CodeLanguage → List String
keywords bash =
    "export" ∷ "if" ∷ "then" ∷ "fi" ∷ "for" ∷ "in" ∷ "do" ∷ "done" ∷ "case" ∷ "esac" ∷ "function"
    ∷ "local" ∷ []
keywords powershell =
    "param" ∷ "if" ∷ "else" ∷ "elseif" ∷ "foreach" ∷ "function" ∷ "return" ∷ "exit" ∷ "switch" ∷ []

-- `\b(?:…)\b`: a whole word, where no word character stands before it.
unfoldable pub keyword_at : CodeLanguage → Bool → Parser
unfolding same_text span
keyword_at language after_word s =
    let (taken, rest) = span is_word s in
    if not after_word && any (same_text language taken) (keywords language)
    then some (taken, rest)
    else none

unfoldable pub comment_at : Parser
comment_at = char b'#' then many not_line_end

unfoldable pub quoted_at : CodeLanguage → Parser
unfolding quoted_rest doubled_rest
quoted_at bash = char b'"' then quoted_rest b'"' b'\\' or char 39 then quoted_rest 39 b'\\'
quoted_at powershell = char b'"' then quoted_rest b'"' 96 or char 39 then doubled_rest

unfoldable pub variable_at : CodeLanguage → Parser
variable_at bash =
    char b'$' then maybe (char b'{') then one is_name_start then many is_word then maybe (char b'}')
variable_at powershell = char b'$' then one is_name_start then many (λ c. is_word c || c == b':')

unfoldable pub option_at : Parser
option_at =
    char b'-'
    then maybe (char b'-')
    then one is_letter
    then many (λ c. is_letter c || is_digit c || c == b'-')

unfoldable pub type_at : Parser
type_at =
    char b'['
    then one is_letter
    then many (λ c. is_letter c || is_digit c || c == b'.')
    then char b']'

abbrev pub in_url : ℕ → Bool
in_url c = not (is_space c || c == b'"' || c == 39 || c == 96)

unfoldable pub url_at : CodeLanguage → Parser
unfolding word is_space
url_at language =
    word language "http"
    then maybe (word language "s")
    then word language "://"
    then one in_url
    then many in_url

pub record Token : Type 0 where
  pub class : TokenClass
  pub text : String
  pub rest : String

abbrev pub tagged : TokenClass → Option (String × String) → Option Token
tagged class none = none
tagged class (some (taken, rest)) = some (record { class = class; text = taken; rest = rest })

-- The first of the alternatives that matches here, with the class that `tokenClass` gives it.
abbrev pub first_token : Option Token → Option Token → Option Token
first_token none later = later
first_token (some found) later = some found

abbrev pub type_or_none : CodeLanguage → Parser
type_or_none bash s = none
type_or_none powershell s = type_at s

unfoldable pub token_at : CodeLanguage → Bool → String → Option Token
unfolding comment_at quoted_at variable_at keyword_at option_at type_at url_at
token_at language after_word s = first_token (tagged comment (comment_at s)) (
    first_token (tagged quoted (quoted_at language s)) (
      first_token (tagged variable (variable_at language s)) (
        first_token (tagged keyword (keyword_at language after_word s)) (
          first_token (tagged option (option_at s)) (
            first_token (tagged type_name (type_or_none language s))
              (tagged url (url_at language s)))))))

-- What the code block holds: plain text, or a span with the class of its token.
pub data Fragment : Type 0 where
  plain : String → Fragment
  token : TokenClass → String → Fragment

abbrev pub with_plain : Char → List Fragment → List Fragment
with_plain c (plain s ∷ more) = plain (String.◌∷◌ c s) ∷ more
with_plain c more = plain (String.◌∷◌ c "") ∷ more

-- `highlightCode`, where `skip` characters of the last match are still to be passed over.
unfoldable pub highlight_from : CodeLanguage → Bool → ℕ → String → List Fragment
unfolding size token_at
highlight_from language after_word skip String.[] = []
highlight_from language after_word (suc skip) (String.◌∷◌ c s) =
    highlight_from language (is_word (code c)) skip s
highlight_from language after_word zero (String.◌∷◌ c s) =
    elim (token_at language after_word (String.◌∷◌ c s)) [
      | none ↦ with_plain c (highlight_from language (is_word (code c)) zero s)
      | some found ↦
          token found.class found.text
          ∷ highlight_from language (is_word (code c)) (size found.text - 1) s
    ]

unfoldable pub highlight_code : CodeLanguage → String → List Fragment
unfolding highlight_from
highlight_code language content = highlight_from language false zero content

abbrev pub token_class : TokenClass → String
token_class comment = "access-doc-token-comment"
token_class quoted = "access-doc-token-string"
token_class variable = "access-doc-token-variable"
token_class keyword = "access-doc-token-keyword"
token_class option = "access-doc-token-option"
token_class type_name = "access-doc-token-type"
token_class url = "access-doc-token-url"
