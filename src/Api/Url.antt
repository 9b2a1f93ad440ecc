-- ===== src/Api/Url.antt =====
-- The standard library's text encodings that frontend/lib/api.ts builds its paths with:
-- `encodeURIComponent`, the serialiser of `URLSearchParams`, `String(n)` and `value.trim()`.
-- A text is a sequence of code points, so a lone surrogate does not occur.
mod Bytes
pub mod Escaping
pub mod Decimal
use grouproxy.Base.{
  ℕ, zero, suc, ◌+◌, ◌/◌, ◌%◌, String, Char, code, Bool, get_or, ◌&&◌, ◌||◌, List, [], ◌∷◌, ltb,
  leb, ◌==◌, if◌then◌else◌,
}

-- A-Z, a-z and 0-9.
unfoldable pub is_alnum : ℕ → Bool
is_alnum c = (leb b'0' c && leb c b'9') || (leb b'A' c && leb c b'Z') || (leb b'a' c && leb c b'z')

-- What `encodeURIComponent` keeps: A-Z a-z 0-9 - _ . ! ~ * ' ( )
unfoldable pub is_unreserved : ℕ → Bool
unfolding is_alnum
is_unreserved c =
    is_alnum c
    || c == b'-'
    || c == b'_'
    || c == b'.'
    || c == b'!'
    || c == b'~'
    || c == b'*'
    || c == 39
    || c == b'('
    || c == b')'

-- What the serialiser of `URLSearchParams` keeps: A-Z a-z 0-9 * - . _
unfoldable pub is_form_safe : ℕ → Bool
unfolding is_alnum
is_form_safe c = is_alnum c || c == b'*' || c == b'-' || c == b'.' || c == b'_'

-- The bytes of a code point.
unfoldable pub utf8 : ℕ → List ℕ
utf8 c =
    if ltb c 0x80
    then c ∷ []
    else if ltb c 0x800
    then (0xC0 + c / 64) ∷ (0x80 + c % 64) ∷ []
    else if ltb c 0x10000
    then (0xE0 + c / 4096) ∷ (0x80 + c / 64 % 64) ∷ (0x80 + c % 64) ∷ []
    else (0xF0 + c / 262144) ∷ (0x80 + c / 4096 % 64) ∷ (0x80 + c / 64 % 64) ∷ (0x80 + c % 64) ∷ []

abbrev pub hex_digits : List Char
hex_digits =
    "0" ∷ "1" ∷ "2" ∷ "3" ∷ "4" ∷ "5" ∷ "6" ∷ "7" ∷ "8" ∷ "9" ∷ "A" ∷ "B" ∷ "C" ∷ "D" ∷ "E" ∷ "F"
    ∷ []

unfoldable pub hex_digit : ℕ → Char
hex_digit n = get_or hex_digits n "F"

-- `%XX` for each byte, before the rest of the text.
unfoldable pub percent : List ℕ → String → String
unfolding hex_digit
percent [] rest = rest
percent (b ∷ bs) rest =
    String.◌∷◌ "%"
      (String.◌∷◌ (hex_digit (b / 16)) (String.◌∷◌ (hex_digit (b % 16)) (percent bs rest)))

unfoldable pub encode_uri_component : String → String
unfolding is_unreserved percent utf8
encode_uri_component String.[] = String.[]
encode_uri_component (String.◌∷◌ c s) =
    let rest = encode_uri_component s in
    if is_unreserved (code c) then String.◌∷◌ c rest else percent (utf8 (code c)) rest

-- One name or value of a query string.
unfoldable pub form_encode : String → String
unfolding is_form_safe percent utf8
form_encode String.[] = String.[]
form_encode (String.◌∷◌ c s) =
    let rest = form_encode s in
    if is_form_safe (code c)
    then String.◌∷◌ c rest
    else if code c == b' '
    then String.◌∷◌ "+" rest
    else percent (utf8 (code c)) rest

-- The decimal digits of `n`, before `rest`; `fuel` exceeds `n`, and one digit takes one unit.
show_from : ℕ → ℕ → String → String
unfolding hex_digit
show_from zero n rest = rest
show_from (suc fuel) n rest =
    let digits = String.◌∷◌ (hex_digit (n % 10)) rest in
    let more = show_from fuel (n / 10) digits in if ltb n 10 then digits else more

-- `String(n)` of a natural number.
unfoldable pub show : ℕ → String
unfolding show_from
show n = show_from (suc n) n ""

-- The white space and line terminators that `trim` removes.
unfoldable pub is_space : ℕ → Bool
is_space c =
    (leb 9 c && leb c 13)
    || c == 32
    || c == 160
    || c == 0x1680
    || (leb 0x2000 c && leb c 0x200A)
    || c == 0x2028
    || c == 0x2029
    || c == 0x202F
    || c == 0x205F
    || c == 0x3000
    || c == 0xFEFF

unfoldable pub trim_start : String → String
unfolding is_space
trim_start String.[] = String.[]
trim_start (String.◌∷◌ c s) =
    let rest = trim_start s in if is_space (code c) then rest else String.◌∷◌ c s

-- A space goes if only spaces follow it.
unfoldable pub trim_end : String → String
unfolding is_space
trim_end String.[] = String.[]
trim_end (String.◌∷◌ c s) = elim (trim_end s) [
  | String.[] ↦ if is_space (code c) then String.[] else String.◌∷◌ c String.[]
  | String.◌∷◌ d r ↦ String.◌∷◌ c (String.◌∷◌ d r)
]

unfoldable pub trim : String → String
unfolding trim_start trim_end
trim s = trim_end (trim_start s)
