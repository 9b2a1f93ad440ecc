-- ===== src/Login/Codes.antt =====
-- The field of the verification code holds at most six digits; when a form of the sign-in page waits.
use grouproxy.Base.{ℕ, zero, suc, ◌≤◌, String, Bool, true, ◌&&◌, ◌≡◌, refl, arith}
use grouproxy.Locale.{size}
use grouproxy.Login.{digits, first, code_input, is_digit}

abbrev all_digits : String → Bool
all_digits String.[] = true
all_digits (String.◌∷◌ c s) = is_digit c && all_digits s

-- At most six digits.
abbrev pub IsCode : String → Type 0
IsCode s = (size s ≤ 6) × (all_digits s ≡ true)

all_digits-first : (n : ℕ) (s : String) → all_digits s ≡ true → all_digits (first n s) ≡ true
unfolding first
all_digits-first zero s h = refl
all_digits-first (suc n) String.[] h = refl
all_digits-first (suc n) (String.◌∷◌ c s) h = ground (arith, all_digits-first n s)

size-first : (n : ℕ) (s : String) → size (first n s) ≤ n
unfolding first size
size-first zero s = omega arith
size-first (suc n) String.[] = omega arith
size-first (suc n) (String.◌∷◌ c s) = omega (arith, size-first n s)

all_digits-digits : (s : String) → all_digits (digits s) ≡ true
unfolding digits
all_digits-digits String.[] = refl
all_digits-digits (String.◌∷◌ c s) = ground (arith, all_digits-digits s)

pub code_input-IsCode : (value : String) → IsCode (code_input value)
unfolding code_input
code_input-IsCode value =
    (size-first 6 (digits value), all_digits-first 6 (digits value) (all_digits-digits value))

pub empty-IsCode : IsCode ""
unfolding size
empty-IsCode = (omega arith, refl)
