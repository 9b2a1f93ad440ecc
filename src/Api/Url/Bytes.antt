-- ===== src/Api/Url/Bytes.antt =====
-- The bytes of an escaped code point can be read back: one code point has one escaped form, and no
-- form begins another.
use text.Mathlib.TextEquality.{Char-path}
use grouproxy.Base.{
  ℕ, zero, suc, ◌+◌, ◌-◌, ◌*◌, ◌/◌, ◌%◌, ◌<◌, String, Char, code, ◌≡◌, refl, sym, ap, ◌∙◌, inl, inr,
  List, ◌∷◌, ltb, ◌==◌, ==_iff, lt→ltb, ltb→lt, tests, all_below, all_below_sound, if◌then◌else◌,
  arith, Bool-cases,
}
use grouproxy.Api.Url.{utf8, hex_digit, percent}

-- The value of an upper-case hexadecimal digit.
hex_value : ℕ → ℕ
hex_value c = if ltb c 58 then c - 48 else c - 55

hex_value-hex_digit : (n : ℕ) → n < 16 → hex_value (code (hex_digit n)) ≡ n
unfolding hex_value hex_digit all_below
hex_value-hex_digit n h =
    (==_iff _ n).0 (all_below_sound 16 (λ n. hex_value (code (hex_digit n)) == n) n refl h)

-- One `%XX` and the rest.
read_byte : String → ℕ × String
read_byte (String.◌∷◌ p (String.◌∷◌ high (String.◌∷◌ low rest))) =
    (hex_value (code high) * 16 + hex_value (code low), rest)
read_byte s = (0, s)

read_byte-percent :
    (b : ℕ) (bs : List ℕ) (rest : String)
    → b < 256
    → read_byte (percent (b ∷ bs) rest) ≡ (b, percent bs rest)
unfolding read_byte percent
read_byte-percent b bs rest h =
    rw (hex_value-hex_digit (b / 16) (omega arith), hex_value-hex_digit (b % 16) (omega arith))
      (ap (λ (n : ℕ). (n, percent bs rest)) (omega arith))

-- The continuation bytes of a code point, after the bits of its first byte.
read_more : ℕ → ℕ → String → ℕ × String
read_more zero acc s = (acc, s)
read_more (suc k) acc s = let (b, rest) = read_byte s in read_more k (acc * 64 + (b - 0x80)) rest

read_point : String → ℕ × String
read_point s =
    let (b, rest) = read_byte s in
    if ltb b 0x80
    then (b, rest)
    else if ltb b 0xE0
    then read_more 1 (b - 0xC0) rest
    else if ltb b 0xF0
    then read_more 2 (b - 0xE0) rest
    else read_more 3 (b - 0xF0) rest

percent-nil : (rest : String) → percent List.[] rest ≡ rest
unfolding percent
percent-nil rest = refl

module _ (rest : String) where
  read_more-percent :
      (k a x : ℕ) (bs : List ℕ)
      → x < 64
      → read_more (suc k) a (percent ((0x80 + x) ∷ bs) rest)
        ≡ read_more k (a * 64 + x) (percent bs rest)
  unfolding read_more
  read_more-percent k a x bs h =
      rw (read_byte-percent (0x80 + x) bs rest (omega arith))
        (ap (λ (n : ℕ). read_more k n (percent bs rest)) (omega arith))

  read_more-end : (a : ℕ) → read_more 0 a (percent List.[] rest) ≡ (a, rest)
  unfolding read_more
  read_more-end a = ap (λ (r : String). (a, r)) (percent-nil rest)

  -- The first byte of a sequence says how many follow.
  read_point-one : (b : ℕ) → b < 0x80 → read_point (percent (b ∷ List.[]) rest) ≡ (b, rest)
  unfolding read_point
  read_point-one b h =
      rw (read_byte-percent b List.[] rest (omega arith), percent-nil, lt→ltb _ _ h)

  module _ (x : ℕ) (bs : List ℕ) where
    read_point-two :
        x < 32 → read_point (percent ((0xC0 + x) ∷ bs) rest) ≡ read_more 1 x (percent bs rest)
    unfolding read_point
    read_point-two h = rw (read_byte-percent (0xC0 + x) bs rest (omega arith)) (ground arith)

    read_point-three :
        x < 16 → read_point (percent ((0xE0 + x) ∷ bs) rest) ≡ read_more 2 x (percent bs rest)
    unfolding read_point
    read_point-three h = rw (read_byte-percent (0xE0 + x) bs rest (omega arith)) (ground arith)

    read_point-four :
        x < 8 → read_point (percent ((0xF0 + x) ∷ bs) rest) ≡ read_more 3 x (percent bs rest)
    unfolding read_point
    read_point-four h = rw (read_byte-percent (0xF0 + x) bs rest (omega arith)) (ground arith)

  same_point : (m n : ℕ) → m ≡ n → ◌≡◌ {A = ℕ × String} (m, rest) (n, rest)
  same_point m n e = ap (λ (k : ℕ). (k, rest)) e

  -- The escaped bytes of a code point are read back as it.
  read_point-percent : (c : ℕ) → c < 0x110000 → read_point (percent (utf8 c) rest) ≡ (c, rest)
  unfolding utf8
  read_point-percent c h = elim (Bool-cases (ltb c 0x80)) [
    | inl one ↦ rw one (read_point-one c (ltb→lt _ _ one))
    | inr more ↦ elim (Bool-cases (ltb c 0x800)) [
      | inl two ↦
          rw (more, two)
            (read_point-two (c / 64) _ (omega (tests))
              ∙ read_more-percent 0 _ (c % 64) _ (omega arith)
              ∙ read_more-end _
              ∙ same_point _ c (omega arith))
      | inr many ↦ elim (Bool-cases (ltb c 0x10000)) [
        | inl three ↦
            rw (more, many, three)
              (read_point-three (c / 4096) _ (omega (tests))
                ∙ read_more-percent 1 _ (c / 64 % 64) _ (omega arith)
                ∙ read_more-percent 0 _ (c % 64) _ (omega arith)
                ∙ read_more-end _
                ∙ same_point _ c (omega arith))
        | inr four ↦
            rw (more, many, four)
              (read_point-four (c / 262144) _ (omega arith)
                ∙ read_more-percent 2 _ (c / 4096 % 64) _ (omega arith)
                ∙ read_more-percent 1 _ (c / 64 % 64) _ (omega arith)
                ∙ read_more-percent 0 _ (c % 64) _ (omega arith)
                ∙ read_more-end _
                ∙ same_point _ c (omega arith))
      ]
    ]
  ]

code-lt : (c : Char) → code c < 0x110000
code-lt (Char.char n h) = ground arith

pub percent-utf8_inj :
    (c d : Char) (r q : String)
    → percent (utf8 (code c)) r ≡ percent (utf8 (code d)) q
    → (c ≡ d) × (r ≡ q)
percent-utf8_inj c d r q e =
    let same : ◌≡◌ {A = ℕ × String} (code c, r) (code d, q) =
      sym (read_point-percent r (code c) (code-lt c))
      ∙ ap read_point e
      ∙ read_point-percent q (code d) (code-lt d) in
    (Char-path c d (ap (λ (x : ℕ × String). x.0) same), ap (λ (x : ℕ × String). x.1) same)
