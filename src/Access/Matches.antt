-- ===== src/Access/Matches.antt =====
-- What the patterns of frontend/app/access/page.tsx match is a beginning of the text, and not empty.
use text.Mathlib.TextLemmas.{cons-append, nil-append, append_assoc}
use grouproxy.Base.{
  ℕ, String, Char, code, ◌<>◌, ◌≡◌, ◌≢◌, refl, subst, ap, sym, ◌∙◌, Bool, true, false, Option, none,
  some, if◌then◌else◌, ◌==◌, not, any, ◌&&◌, ◌||◌, Bool-cases, inl, inr,
}
use grouproxy.Release.{span, not_line_end}
use grouproxy.Access.Tokens.{
  CodeLanguage, bash, powershell, Parser, joined, one, many, then_more, ◌then◌, or_other, ◌or◌,
  maybe, char, prefixed, quoted_rest, doubled_rest, folded, word, keyword_at, comment_at, quoted_at,
  variable_at, option_at, type_at, url_at, type_or_none, is_word, is_name_start, is_letter,
  is_digit, in_url, same_text, keywords,
}

-- What a match takes stands before what follows it, and is all of the text.
abbrev pub Covers : String → Option (String × String) → Type 0
Covers s none = Unit
Covers s (some (taken, rest)) = taken <> rest ≡ s

Covers-one : (test : ℕ → Bool) (s : String) → Covers s (one test s)
Covers-one test String.[] = tt
Covers-one test (String.◌∷◌ c s) = elim (Bool-cases (test (code c))) [
  | inl passed ↦ rw passed (rw (cons-append c "" s, nil-append s))
  | inr failed ↦ rw failed tt
]

span_lem : (test : ℕ → Bool) (s : String) → (span test s).0 <> (span test s).1 ≡ s
unfolding span
span_lem test String.[] = nil-append ""
span_lem test (String.◌∷◌ c s) = elim (Bool-cases (test (code c))) [
  | inl passed ↦ rw passed (rw (cons-append c (span test s).0 (span test s).1, span_lem test s))
  | inr failed ↦ rw failed (nil-append (String.◌∷◌ c s))
]

Covers-joined :
    (taken s : String) (r : Option (String × String))
    → Covers s r
    → Covers (taken <> s) (joined taken r)
Covers-joined taken s none h = tt
Covers-joined taken s (some (more, rest)) h = append_assoc taken more rest ∙ ap (λ t. taken <> t) h

Covers-then_more :
    (q : Parser) (s : String) (r : Option (String × String))
    → ((t : String) → Covers t (q t))
    → Covers s r
    → Covers s (then_more q r)
Covers-then_more q s none hq h = tt
Covers-then_more q s (some (taken, rest)) hq h =
    subst (λ t. Covers t (joined taken (q rest))) h (Covers-joined taken rest (q rest) (hq rest))

Covers-or_other :
    (s : String) (a b : Option (String × String))
    → Covers s a
    → Covers s b
    → Covers s (or_other a b)
Covers-or_other s none b ha hb = hb
Covers-or_other s (some found) b ha hb = ha

Covers-prefixed :
    (c : Char) (s : String) (r : Option (String × String))
    → Covers s r
    → Covers (String.◌∷◌ c s) (prefixed c r)
Covers-prefixed c s none h = tt
Covers-prefixed c s (some (taken, rest)) h = cons-append c taken rest ∙ ap (String.◌∷◌ c) h

one_char : (c : Char) (s : String) → String.◌∷◌ c "" <> s ≡ String.◌∷◌ c s
one_char c s = rw (cons-append c "" s, nil-append s)

Covers-quoted_rest : (close escape : ℕ) (s : String) → Covers s (quoted_rest close escape s)
unfolding quoted_rest
Covers-quoted_rest close escape String.[] = tt
Covers-quoted_rest close escape (String.◌∷◌ c String.[]) = elim (Bool-cases (code c == close)) [
  | inl closed ↦ rw closed (one_char c "")
  | inr other ↦ rw other tt
]
Covers-quoted_rest close escape (String.◌∷◌ c (String.◌∷◌ d s)) =
    let after = Covers-prefixed c _ _ (Covers-quoted_rest close escape (String.◌∷◌ d s)) in
    let later = Covers-prefixed c _ _ (Covers-prefixed d _ _ (Covers-quoted_rest close escape s)) in
    elim (Bool-cases (code c == close)) [
      | inl closed ↦ rw closed (one_char c (String.◌∷◌ d s))
      | inr inside ↦ rw inside (elim (Bool-cases (code c == escape)) [
        | inl escaped ↦ rw escaped (elim (Bool-cases (not_line_end (code d))) [
          | inl kept ↦ rw kept later
          | inr ended ↦ rw ended tt
        ])
        | inr other ↦ rw other after
      ])
    ]

Covers-doubled_rest : (s : String) → Covers s (doubled_rest s)
unfolding doubled_rest
Covers-doubled_rest String.[] = tt
Covers-doubled_rest (String.◌∷◌ c String.[]) = elim (Bool-cases (code c == 39)) [
  | inl closed ↦ rw closed (one_char c "")
  | inr other ↦ rw other tt
]
Covers-doubled_rest (String.◌∷◌ c (String.◌∷◌ d s)) =
    let after = Covers-prefixed c _ _ (Covers-doubled_rest (String.◌∷◌ d s)) in
    let later = Covers-prefixed c _ _ (Covers-prefixed d _ _ (Covers-doubled_rest s)) in
    elim (Bool-cases (code c == 39)) [
      | inl closed ↦ rw closed (elim (Bool-cases (code d == 39)) [
        | inl doubled ↦ rw doubled (Covers-or_other _ _ _ later (one_char c (String.◌∷◌ d s)))
        | inr single ↦ rw single (one_char c (String.◌∷◌ d s))
      ])
      | inr inside ↦ rw inside after
    ]

Covers-word : (language : CodeLanguage) (w s : String) → Covers s (word language w s)
unfolding word
Covers-word language String.[] s = nil-append s
Covers-word language (String.◌∷◌ c w) s =
    Covers-then_more (word language w) s
      (one (λ d. folded language d == folded language (code c)) s) (Covers-word language w)
      (Covers-one (λ d. folded language d == folded language (code c)) s)

-- A match is not empty.
abbrev pub Takes : Option (String × String) → Type 0
Takes none = Unit
Takes (some (taken, rest)) = taken ≢ ""

cons-ne-nil : (c : Char) (s : String) → String.◌∷◌ c s ≢ ""
cons-ne-nil c s e = cc

append-ne-nil : (s t : String) → s ≢ "" → s <> t ≢ ""
append-ne-nil String.[] t h e = h refl
append-ne-nil (String.◌∷◌ c s) t h e = cons-ne-nil c (s <> t) (sym (cons-append c s t) ∙ e)

Takes-one : (test : ℕ → Bool) (s : String) → Takes (one test s)
Takes-one test String.[] = tt
Takes-one test (String.◌∷◌ c s) = elim (Bool-cases (test (code c))) [
  | inl passed ↦ rw passed (cons-ne-nil c "")
  | inr failed ↦ rw failed tt
]

Takes-joined : (taken : String) (r : Option (String × String)) → taken ≢ "" → Takes (joined taken r)
Takes-joined taken none h = tt
Takes-joined taken (some (more, rest)) h = append-ne-nil taken more h

Takes-then_more : (q : Parser) (r : Option (String × String)) → Takes r → Takes (then_more q r)
Takes-then_more q none h = tt
Takes-then_more q (some (taken, rest)) h = Takes-joined taken (q rest) h

Takes-or_other : (a b : Option (String × String)) → Takes a → Takes b → Takes (or_other a b)
Takes-or_other none b ha hb = hb
Takes-or_other (some found) b ha hb = ha

-- A match is not empty, and with what follows it is the text.
pub record IsMatch (s : String) (r : Option (String × String)) : Type 0 where
  pub covers : Covers s r
  pub takes : Takes r

one-IsMatch : (test : ℕ → Bool) (s : String) → IsMatch s (one test s)
one-IsMatch test s = record { covers = Covers-one test s; takes = Takes-one test s }

then-IsMatch :
    (p q : Parser) (s : String)
    → IsMatch s (p s)
    → ((t : String) → Covers t (q t))
    → IsMatch s ((p then q) s)
then-IsMatch p q s h k = record {
  covers = Covers-then_more q s (p s) k h.covers;
  takes = Takes-then_more q (p s) h.takes;
}

or-IsMatch :
    (p q : Parser) (s : String) → IsMatch s (p s) → IsMatch s (q s) → IsMatch s ((p or q) s)
or-IsMatch p q s h k = record {
  covers = Covers-or_other s (p s) (q s) h.covers k.covers;
  takes = Takes-or_other (p s) (q s) h.takes k.takes;
}

Covers-then :
    (p q : Parser)
    → ((t : String) → Covers t (p t))
    → ((t : String) → Covers t (q t))
    → (s : String) → Covers s ((p then q) s)
Covers-then p q hp hq s = Covers-then_more q s (p s) hq (hp s)

Covers-maybe : (p : Parser) → ((t : String) → Covers t (p t)) → (s : String) → Covers s (maybe p s)
Covers-maybe p h s = Covers-or_other s (p s) (some ("", s)) (h s) (nil-append s)

one_then :
    (test : ℕ → Bool) (q : Parser) (s : String)
    → ((t : String) → Covers t (q t))
    → IsMatch s ((one test then q) s)
one_then test q s h = then-IsMatch (one test) q s (one-IsMatch test s) h

char_then :
    (k : ℕ) (q : Parser) (s : String)
    → ((t : String) → Covers t (q t))
    → IsMatch s ((char k then q) s)
char_then k = one_then (λ c. c == k)

Covers-char : (k : ℕ) (s : String) → Covers s (char k s)
Covers-char k = Covers-one (λ c. c == k)

pub comment-IsMatch : (s : String) → IsMatch s (comment_at s)
unfolding comment_at
comment-IsMatch s = char_then b'#' (many not_line_end) s (span_lem not_line_end)

pub quoted-IsMatch : (language : CodeLanguage) (s : String) → IsMatch s (quoted_at language s)
unfolding quoted_at
quoted-IsMatch bash s =
    or-IsMatch (char b'"' then quoted_rest b'"' b'\\') (char 39 then quoted_rest 39 b'\\') s
      (char_then b'"' (quoted_rest b'"' b'\\') s (Covers-quoted_rest b'"' b'\\'))
      (char_then 39 (quoted_rest 39 b'\\') s (Covers-quoted_rest 39 b'\\'))
quoted-IsMatch powershell s =
    or-IsMatch (char b'"' then quoted_rest b'"' 96) (char 39 then doubled_rest) s
      (char_then b'"' (quoted_rest b'"' 96) s (Covers-quoted_rest b'"' 96))
      (char_then 39 doubled_rest s Covers-doubled_rest)

Covers-name : (test start : ℕ → Bool) (s : String) → Covers s ((one start then many test) s)
Covers-name test start = Covers-then (one start) (many test) (Covers-one start) (span_lem test)

pub variable-IsMatch : (language : CodeLanguage) (s : String) → IsMatch s (variable_at language s)
unfolding variable_at
variable-IsMatch bash s =
    char_then b'$'
      (maybe (char b'{') then one is_name_start then many is_word then maybe (char b'}')) s
      (Covers-then (maybe (char b'{')) (one is_name_start then many is_word then maybe (char b'}'))
        (Covers-maybe (char b'{') (Covers-char b'{'))
        (Covers-then (one is_name_start) (many is_word then maybe (char b'}'))
          (Covers-one is_name_start)
          (Covers-then (many is_word) (maybe (char b'}')) (span_lem is_word)
            (Covers-maybe (char b'}') (Covers-char b'}')))))
variable-IsMatch powershell s =
    char_then b'$' (one is_name_start then many (λ c. is_word c || c == b':')) s
      (Covers-name (λ c. is_word c || c == b':') is_name_start)

pub option-IsMatch : (s : String) → IsMatch s (option_at s)
unfolding option_at
option-IsMatch s =
    char_then b'-'
      (maybe (char b'-') then one is_letter then many (λ c. is_letter c || is_digit c || c == b'-'))
      s
      (Covers-then (maybe (char b'-'))
        (one is_letter then many (λ c. is_letter c || is_digit c || c == b'-'))
        (Covers-maybe (char b'-') (Covers-char b'-'))
        (Covers-name (λ c. is_letter c || is_digit c || c == b'-') is_letter))

pub type-IsMatch : (language : CodeLanguage) (s : String) → IsMatch s (type_or_none language s)
unfolding type_at
type-IsMatch bash s = record { covers = tt; takes = tt }
type-IsMatch powershell s =
    char_then b'['
      (one is_letter then many (λ c. is_letter c || is_digit c || c == b'.') then char b']') s
      (Covers-then (one is_letter)
        (many (λ c. is_letter c || is_digit c || c == b'.') then char b']') (Covers-one is_letter)
        (Covers-then (many (λ c. is_letter c || is_digit c || c == b'.')) (char b']')
          (span_lem (λ c. is_letter c || is_digit c || c == b'.')) (Covers-char b']')))

Takes-word :
    (language : CodeLanguage) (c : Char) (w s : String) → Takes (word language (String.◌∷◌ c w) s)
unfolding word
Takes-word language c w s =
    Takes-then_more (word language w) (one (λ d. folded language d == folded language (code c)) s)
      (Takes-one (λ d. folded language d == folded language (code c)) s)

pub url-IsMatch : (language : CodeLanguage) (s : String) → IsMatch s (url_at language s)
unfolding url_at
url-IsMatch language s =
    then-IsMatch (word language "http")
      (maybe (word language "s") then word language "://" then one in_url then many in_url) s
      (record { covers = Covers-word language "http" s; takes = Takes-word language "h" "ttp" s })
      (Covers-then (maybe (word language "s"))
        (word language "://" then one in_url then many in_url)
        (Covers-maybe (word language "s") (Covers-word language "s"))
        (Covers-then (word language "://") (one in_url then many in_url)
          (Covers-word language "://") (Covers-name in_url in_url)))

keyword-ne-nil :
    (language : CodeLanguage) (after_word : Bool) (taken : String)
    → (not after_word && any (same_text language taken) (keywords language)) ≡ true
    → taken ≢ ""
unfolding same_text
keyword-ne-nil bash true String.[] h = cc
keyword-ne-nil bash false String.[] h = cc
keyword-ne-nil powershell true String.[] h = cc
keyword-ne-nil powershell false String.[] h = cc
keyword-ne-nil language after_word (String.◌∷◌ c s) h = cons-ne-nil c s

pub keyword-IsMatch :
    (language : CodeLanguage) (after_word : Bool) (s : String)
    → IsMatch s (keyword_at language after_word s)
unfolding keyword_at
keyword-IsMatch language after_word s =
    let found : Bool =
      not after_word && any (same_text language (span is_word s).0) (keywords language) in
    elim (Bool-cases found) [
      | inl here ↦ rw here (record {
        covers = span_lem is_word s;
        takes = keyword-ne-nil language after_word (span is_word s).0 here;
      })
      | inr none_here ↦ rw none_here (record { covers = tt; takes = tt })
    ]
