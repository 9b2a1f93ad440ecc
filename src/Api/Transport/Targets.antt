-- ===== src/Api/Transport/Targets.antt =====
-- Where requests go: the base address stands before each path, once.
use text.Mathlib.TextLemmas.{
  nil-append, cons-append, append_assoc, cons-ne-nil, append-ne-nil_of_right_ne-nil,
}
use text.Mathlib.TextPositions.{starts_with-append}
use grouproxy.Base.{
  String, Char, ◌<>◌, ◌&&◌, ◌||◌, ◌⊎◌, true, ◌≡◌, refl, sym, ap, ◌∙◌, ◌≢◌, inl, inr, arith, str_eq,
  starts_with, eq_iff, Bool-cases,
}
use grouproxy.Api.Session.{is_truthy}
use grouproxy.Api.Transport.{base_url, target}

-- A path of the console begins with a slash.
target-prefixed :
    (base path : String) → base ≢ "" → target base (base <> ("/" <> path)) ≡ base <> ("/" <> path)
unfolding target
target-prefixed base path h =
    let again : starts_with (base <> ("/" <> path)) (base <> "/") ≡ true =
      rw (← append_assoc base "/" path) (starts_with-append (base <> "/") path) in
    ground (arith, again, eq_iff base "")

target-nil : (path : String) → target "" path ≡ path
unfolding target
target-nil path = nil-append path

target-cases : (base path : String) → (target base path ≡ path) ⊎ (target base path ≡ base <> path)
unfolding target
target-cases base path =
    elim (Bool-cases (is_truthy base && (str_eq path base || starts_with path (base <> "/")))) [
      | inl there ↦ inl (rw there)
      | inr away ↦ inr (rw away)
    ]

-- Addressing a path that is addressed already changes nothing, so a request that is sent again
-- goes to the same place. The path begins with a slash.
pub target_idempotent :
    (base path : String) → target base (target base ("/" <> path)) ≡ target base ("/" <> path)
target_idempotent base path = elim (target-cases base ("/" <> path)) [
  | inl there ↦ ap (target base) there
  | inr away ↦ elim (Bool-cases (str_eq base "")) [
    | inl empty ↦ rw ((eq_iff base "").0 empty) (target-nil (target "" ("/" <> path)))
    | inr set ↦
        ap (target base) away
        ∙ target-prefixed base path (λ e. cc (set, (eq_iff base "").1 e))
        ∙ sym away
  ]
]

base_url-cons :
    (c : Char) (s : String) → s ≢ "" → base_url (String.◌∷◌ c s) ≡ String.◌∷◌ c (base_url s)
unfolding base_url
base_url-cons c String.[] h = absurd (h refl)
base_url-cons c (String.◌∷◌ d s) h = refl

-- One slash at the end of the configured address is dropped, and nothing else.
pub base_url-append : (s : String) → base_url (s <> "/") ≡ s
unfolding base_url
base_url-append String.[] = refl
base_url-append (String.◌∷◌ c s) = rw (cons-append c s "/") (
    base_url-cons c (s <> "/") (append-ne-nil_of_right_ne-nil s (cons-ne-nil "/" ""))
    ∙ ap (String.◌∷◌ c) (base_url-append s))
