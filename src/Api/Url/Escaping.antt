-- ===== src/Api/Url/Escaping.antt =====
-- What `encodeURIComponent` guarantees: its output holds only unreserved characters and `%`, and
-- two texts with the same output are the same text.
use Prim.Native.String.{String}
use text.Mathlib.TextLemmas.{nil-append, cons-append, nil≢cons, cons-eq-cons}
use mathlib.Core.Bool.{and-eq-true_iff}
use grouproxy.Base.{
  ℕ, ◌/◌, ◌%◌, Char, code, ◌<>◌, Bool, true, false, ◌||◌, ◌≡◌, ◌≢◌, refl, sym, ap, ◌∙◌, ◌⊎◌, inl,
  inr, List, ◌∷◌, ltb, ◌==◌, All, All-get_or, all, arith, Bool-cases,
}
use grouproxy.Api.Url.Bytes.{percent-utf8_inj}
use grouproxy.Api.Url.{is_unreserved, utf8, hex_digits, hex_digit, percent, encode_uri_component}

-- A character that an escaped text may hold.
abbrev pub IsEscaped : Char → Type 0
IsEscaped c = (is_unreserved (code c) ≡ true) ⊎ (code c ≡ b'%')

abbrev pub AllChars : (Char → Type 0) → String → Type 0
AllChars P String.[] = Unit
AllChars P (String.◌∷◌ c s) = P c × AllChars P s

hex_digit-unreserved : (n : ℕ) → is_unreserved (code (hex_digit n)) ≡ true
unfolding hex_digit is_unreserved
hex_digit-unreserved n =
    All-get_or (λ c. is_unreserved (code c) ≡ true) hex_digits n "F" (all_equal hex_digits refl)
      refl
  where
    all_equal :
        (cs : List Char)
        → all (λ c. is_unreserved (code c)) cs ≡ true
        → All (λ c. is_unreserved (code c) ≡ true) cs
    all_equal List.[] h = tt
    all_equal (c ∷ cs) h =
        let (here, later) = (and-eq-true_iff _ _).0 h in (here, all_equal cs later)

percent-IsEscaped :
    (bs : List ℕ) (rest : String) → AllChars IsEscaped rest → AllChars IsEscaped (percent bs rest)
unfolding percent
percent-IsEscaped List.[] rest h = h
percent-IsEscaped (b ∷ bs) rest h = (
  inr refl,
  (
    inl (hex_digit-unreserved (b / 16)),
    (inl (hex_digit-unreserved (b % 16)), percent-IsEscaped bs rest h),
  ),
)

-- Every character of an escaped component is unreserved or the percent sign.
pub encode_uri_component-IsEscaped : (s : String) → AllChars IsEscaped (encode_uri_component s)
unfolding encode_uri_component
encode_uri_component-IsEscaped String.[] = tt
encode_uri_component-IsEscaped (String.◌∷◌ c s) = elim (Bool-cases (is_unreserved (code c))) [
  | inl kept ↦ rw kept (inl kept, encode_uri_component-IsEscaped s)
  | inr other ↦ rw other (percent-IsEscaped (utf8 (code c)) _ (encode_uri_component-IsEscaped s))
]

-- Whether a text begins with a percent sign.
is_percent : String → Bool
is_percent String.[] = false
is_percent (String.◌∷◌ c s) = code c == b'%'

is_percent-percent : (c : ℕ) (rest : String) → is_percent (percent (utf8 c) rest) ≡ true
unfolding is_percent percent utf8
is_percent-percent c rest = elim (Bool-cases (ltb c 0x80)) [
  | inl one ↦ rw one
  | inr more ↦ elim (Bool-cases (ltb c 0x800)) [
    | inl two ↦ rw (more, two)
    | inr many ↦ elim (Bool-cases (ltb c 0x10000)) [
      | inl three ↦ rw (more, many, three)
      | inr four ↦ rw (more, many, four)
    ]
  ]
]

is_percent-kept :
    (c : Char) (rest : String)
    → is_unreserved (code c) ≡ true
    → is_percent (String.◌∷◌ c rest) ≡ false
unfolding is_percent is_unreserved
is_percent-kept c rest h = ground arith

is_percent-nil : is_percent "" ≡ false
unfolding is_percent
is_percent-nil = refl

encode-ne-nil :
    (c : Char) (s : String) → ◌≢◌ {A = String} "" (encode_uri_component (String.◌∷◌ c s))
unfolding encode_uri_component
encode-ne-nil c s e = elim (Bool-cases (is_unreserved (code c))) [
  | inl kept ↦ nil≢cons (rw (kept, encode_uri_component) at e)
  | inr other ↦ cc (
    ap is_percent (rw (other, encode_uri_component) at e),
    is_percent-percent (code c) (encode_uri_component s),
    is_percent-nil,
  )
]

encode_kept :
    (c : Char) (s : String)
    → is_unreserved (code c) ≡ true
    → encode_uri_component (String.◌∷◌ c s) ≡ String.◌∷◌ c (encode_uri_component s)
unfolding encode_uri_component
encode_kept c s h = rw h

encode_escaped :
    (c : Char) (s : String)
    → is_unreserved (code c) ≡ false
    → encode_uri_component (String.◌∷◌ c s) ≡ percent (utf8 (code c)) (encode_uri_component s)
unfolding encode_uri_component
encode_escaped c s h = rw h

-- An unreserved character and an escaped one begin differently.
kept-ne-escaped :
    (c d : Char) (r q : String)
    → is_unreserved (code c) ≡ true
    → String.◌∷◌ c r ≢ percent (utf8 (code d)) q
kept-ne-escaped c d r q kept e =
    cc (ap is_percent e, is_percent-kept c r kept, is_percent-percent (code d) q)

encode_step :
    (c d : Char) (s t : String)
    → encode_uri_component (String.◌∷◌ c s) ≡ encode_uri_component (String.◌∷◌ d t)
    → (c ≡ d) × (encode_uri_component s ≡ encode_uri_component t)
encode_step c d s t e = elim (Bool-cases (is_unreserved (code c))) [
  | inl ck ↦ elim (Bool-cases (is_unreserved (code d))) [
    | inl dk ↦ cons-eq-cons.0 (sym (encode_kept c s ck) ∙ e ∙ encode_kept d t dk)
    | inr dr ↦
        absurd (kept-ne-escaped c d _ _ ck (sym (encode_kept c s ck) ∙ e ∙ encode_escaped d t dr))
  ]
  | inr cr ↦ elim (Bool-cases (is_unreserved (code d))) [
    | inl dk ↦
        absurd
          (kept-ne-escaped d c _ _ dk (sym (encode_kept d t dk) ∙ sym e ∙ encode_escaped c s cr))
    | inr dr ↦ percent-utf8_inj c d _ _ (sym (encode_escaped c s cr) ∙ e ∙ encode_escaped d t dr)
  ]
]

-- `encodeURIComponent` loses nothing: texts with the same escaped form are the same.
pub encode_uri_component_inj :
    (s t : String) → encode_uri_component s ≡ encode_uri_component t → s ≡ t
unfolding encode_uri_component
encode_uri_component_inj String.[] String.[] e = refl
encode_uri_component_inj String.[] (String.◌∷◌ d t) e = absurd (encode-ne-nil d t e)
encode_uri_component_inj (String.◌∷◌ c s) String.[] e = absurd (encode-ne-nil c s (sym e))
encode_uri_component_inj (String.◌∷◌ c s) (String.◌∷◌ d t) e =
    let (head, tail) = encode_step c d s t e in
    cons-eq-cons.1 (head, encode_uri_component_inj s t tail)

-- A text without the character of the given code.
abbrev pub Lacks : ℕ → String → Type 0
Lacks k = AllChars (λ c. code c ≢ k)

Lacks-of_IsEscaped :
    (k : ℕ) (s : String) → (is_unreserved k || k == b'%') ≡ false → AllChars IsEscaped s → Lacks k s
Lacks-of_IsEscaped k String.[] h a = tt
Lacks-of_IsEscaped k (String.◌∷◌ c s) h (here, later) =
    (λ same. ground arith, Lacks-of_IsEscaped k s h later)

-- An escaped text lacks every character that escaping removes, such as the slash.
pub encode_uri_component-Lacks :
    (k : ℕ) (s : String) → (is_unreserved k || k == b'%') ≡ false → Lacks k (encode_uri_component s)
encode_uri_component-Lacks k s h =
    Lacks-of_IsEscaped k (encode_uri_component s) h (encode_uri_component-IsEscaped s)

-- Where the separator is missing from the first parts, a joined text tells its parts.
pub split_inj :
    (d : Char) (a b a' b' : String)
    → Lacks (code d) a
    → Lacks (code d) a'
    → a <> String.◌∷◌ d b ≡ a' <> String.◌∷◌ d b'
    → (a ≡ a') × (b ≡ b')
split_inj d String.[] b String.[] b' h k e =
    (refl, (cons-eq-cons.0 (sym (nil-append _) ∙ e ∙ nil-append _)).1)
split_inj d String.[] b (String.◌∷◌ x a') b' h k e =
    absurd (k.0 (ap code (sym ((cons-eq-cons.0 (sym (nil-append _) ∙ e ∙ cons-append x a' _)).0))))
split_inj d (String.◌∷◌ x a) b String.[] b' h k e =
    absurd (h.0 (ap code ((cons-eq-cons.0 (sym (cons-append x a _) ∙ e ∙ nil-append _)).0)))
split_inj d (String.◌∷◌ x a) b (String.◌∷◌ y a') b' h k e =
    let (head, tail) = cons-eq-cons.0 (sym (cons-append x a _) ∙ e ∙ cons-append y a' _) in
    let (same, rest) = split_inj d a b a' b' h.1 k.1 tail in (cons-eq-cons.1 (head, same), rest)
