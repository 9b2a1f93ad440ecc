-- ===== src/Api/Url/Decimal.antt =====
-- `Number(s)` of a text of decimal digits, and that it reads back what `String(n)` writes.
use grouproxy.Base.{
  ℕ, zero, suc, ◌+◌, ◌-◌, ◌*◌, ◌/◌, ◌%◌, ◌<◌, String, Char, code, ◌≡◌, ◌≢◌, refl, ap, ◌∙◌, Bool,
  true, false, ◌&&◌, leb, ltb, ◌==◌, ==_iff, ltb→lt, all_below, all_below_sound, arith, Bool-cases,
  inl, inr,
}
use grouproxy.Api.Url.{hex_digit, show, show_from, is_space, trim, trim_start, trim_end}

-- The number, with the value of the digits before.
unfoldable pub decimal_from : ℕ → String → ℕ
decimal_from value String.[] = value
decimal_from value (String.◌∷◌ c s) = decimal_from (value * 10 + (code c - b'0')) s

unfoldable pub decimal : String → ℕ
unfolding decimal_from
decimal = decimal_from 0

unfoldable pub all_digits : String → Bool
all_digits String.[] = true
all_digits (String.◌∷◌ c s) = leb b'0' (code c) && leb (code c) b'9' && all_digits s

digit_table : all_below 10 (λ d. code (hex_digit d) == 48 + d) ≡ true
unfolding all_below hex_digit
digit_table = refl

code-hex_digit : (d : ℕ) → d < 10 → code (hex_digit d) ≡ 48 + d
code-hex_digit d h =
    (==_iff (code (hex_digit d)) (48 + d)).0
      (all_below_sound 10 (λ k. code (hex_digit k) == 48 + k) d digit_table h)

decimal_from-digit :
    (value d : ℕ) (rest : String)
    → d < 10
    → decimal_from value (String.◌∷◌ (hex_digit d) rest) ≡ decimal_from (value * 10 + d) rest
unfolding decimal_from
decimal_from-digit value d rest h =
    let less : 48 + d - 48 ≡ d = omega arith in rw (code-hex_digit d h, less)

decimal_from-show_from :
    (fuel n : ℕ) (rest : String)
    → n < fuel
    → decimal_from 0 (show_from fuel n rest) ≡ decimal_from n rest
unfolding show_from
decimal_from-show_from zero n rest h = absurd (omega arith)
decimal_from-show_from (suc fuel) n rest h = elim (Bool-cases (ltb n 10)) [
  | inl small ↦
      let below = ltb→lt n 10 small in
      let own : n % 10 ≡ n = omega arith in
      let sum : 0 * 10 + n ≡ n = omega arith in
      rw (small, own) (decimal_from-digit 0 n rest below ∙ ap (λ k. decimal_from k rest) sum)
  | inr large ↦
      let back : n / 10 * 10 + n % 10 ≡ n = omega arith in
      rw large (
        decimal_from-show_from fuel (n / 10) (String.◌∷◌ (hex_digit (n % 10)) rest) (ground arith)
        ∙ decimal_from-digit (n / 10) (n % 10) rest (omega arith)
        ∙ ap (λ k. decimal_from k rest) back)
]

-- A number is read back from its text.
pub decimal-show : (n : ℕ) → decimal (show n) ≡ n
unfolding decimal show
decimal-show n = decimal_from-show_from (suc n) n "" (omega arith)

all_digits-show_from :
    (fuel n : ℕ) (rest : String)
    → all_digits rest ≡ true
    → all_digits (show_from fuel n rest) ≡ true
unfolding show_from all_digits
all_digits-show_from zero n rest h = h
all_digits-show_from (suc fuel) n rest h =
    let digit = code-hex_digit (n % 10) (omega arith) in
    elim (Bool-cases (ltb n 10)) [
      | inl small ↦ rw small (ground (arith, digit))
      | inr large ↦ rw large (
          all_digits-show_from fuel (n / 10) (String.◌∷◌ (hex_digit (n % 10)) rest)
            (ground (arith, digit)))
    ]

pub all_digits-show : (n : ℕ) → all_digits (show n) ≡ true
unfolding show all_digits
all_digits-show n = all_digits-show_from (suc n) n "" refl

digit-visible : (c : ℕ) → leb b'0' c ≡ true → leb c b'9' ≡ true → is_space c ≡ false
unfolding is_space
digit-visible c low high = ground arith

trim_start-digits : (s : String) → all_digits s ≡ true → trim_start s ≡ s
unfolding trim_start all_digits
trim_start-digits String.[] h = refl
trim_start-digits (String.◌∷◌ c s) h = rw (digit-visible (code c) (ground arith) (ground arith))

trim_end-digits : (s : String) → all_digits s ≡ true → trim_end s ≡ s
unfolding trim_end all_digits
trim_end-digits String.[] h = refl
trim_end-digits (String.◌∷◌ c String.[]) h =
    rw (digit-visible (code c) (ground arith) (ground arith))
trim_end-digits (String.◌∷◌ c (String.◌∷◌ d s)) h =
    rw (trim_end-digits (String.◌∷◌ d s) (ground arith))

-- Digits have no white space at their ends.
pub trim-digits : (s : String) → all_digits s ≡ true → trim s ≡ s
unfolding trim
trim-digits s h = ap trim_end (trim_start-digits s h) ∙ trim_end-digits s h

show_from-ne-nil :
    (fuel n : ℕ) (c : Char) (rest : String) → show_from fuel n (String.◌∷◌ c rest) ≢ ""
unfolding show_from
show_from-ne-nil zero n c rest = λ e. cc
show_from-ne-nil (suc fuel) n c rest = elim (Bool-cases (ltb n 10)) [
  | inl small ↦ rw small (λ e. cc)
  | inr large ↦ rw large (show_from-ne-nil fuel (n / 10) (hex_digit (n % 10)) (String.◌∷◌ c rest))
]

pub show-ne-nil : (n : ℕ) → show n ≢ ""
unfolding show show_from
show-ne-nil n = elim (Bool-cases (ltb n 10)) [
  | inl small ↦ rw small (λ e. cc)
  | inr large ↦ rw large (show_from-ne-nil n (n / 10) (hex_digit (n % 10)) "")
]
