-- ===== src/Format/Hashes.antt =====
-- How long a shown hash can be.
use text.Mathlib.TextLemmas.{nil-append, cons-append}
use grouproxy.Base.{
  ℕ, zero, suc, ◌+◌, ◌≤◌, String, ◌<>◌, ◌≡◌, arith, leb, tests, Bool-cases, str_eq, inl, inr,
}
use grouproxy.Locale.{size}
use grouproxy.Format.{slice, short_hash}

size-append : (s t : String) → size (s <> t) ≡ size s + size t
unfolding size
size-append String.[] t = rw (nil-append t) (omega arith)
size-append (String.◌∷◌ c s) t = rw (cons-append c s t) (omega (arith, size-append s t))

size-slice : (n : ℕ) (s : String) → size (slice n s) ≤ n
unfolding size slice
size-slice zero s = omega arith
size-slice (suc n) String.[] = omega arith
size-slice (suc n) (String.◌∷◌ c s) = omega (arith, size-slice n s)

-- A shown hash is at most three characters longer than the length that is asked for, whatever the
-- value.
pub size-short_hash : (length : ℕ) (value : String) → size (short_hash length value) ≤ length + 3
unfolding short_hash size
size-short_hash length value = elim (Bool-cases (str_eq value "")) [
  | inl empty ↦ rw empty (omega arith)
  | inr given ↦ rw given (elim (Bool-cases (leb (size value) length)) [
    | inl short ↦ rw short (omega (tests))
    | inr long ↦
        rw long (omega (arith, size-append (slice length value) "...", size-slice length value))
  ])
]
