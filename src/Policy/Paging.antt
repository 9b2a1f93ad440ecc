-- ===== src/Policy/Paging.antt =====
-- The pages of a list start again exactly when a filter changes.
use text.Mathlib.TextLemmas.{nil-append, cons-append, cons-eq-cons}
use grouproxy.Base.{
  ℕ, String, Char, code, ◌<>◌, ◌≡◌, ◌≢◌, refl, sym, subst, ◌∙◌, ap, str_eq, eq_iff, Bool-cases, inl,
  inr,
}
use grouproxy.Api.Url.Escaping.{Lacks}
use grouproxy.Policy.{RuleFilters, barred, filter_key, PageState, rendered}

bar-append : (s : String) → "|" <> s ≡ String.◌∷◌ "|" s
bar-append s = cons-append "|" "" s ∙ rw nil-append refl

-- A text that goes on after a separator has the separator.
Lacks-append : (d : Char) (a b : String) → Lacks (code d) (a <> String.◌∷◌ d b) → ⊥
Lacks-append d String.[] b h =
    let at_once : Lacks (code d) (String.◌∷◌ d b) =
      subst (Lacks (code d)) (nil-append (String.◌∷◌ d b)) h in
    at_once.0 refl
Lacks-append d (String.◌∷◌ x a) b h =
    let later : Lacks (code d) (String.◌∷◌ x (a <> String.◌∷◌ d b)) =
      subst (Lacks (code d)) (cons-append x a (String.◌∷◌ d b)) h in
    Lacks-append d a b later.1

-- Where the separator is missing from the last part, a joined text tells its parts.
split_last_inj :
    (d : Char) (a b a' b' : String)
    → Lacks (code d) b
    → Lacks (code d) b'
    → a <> String.◌∷◌ d b ≡ a' <> String.◌∷◌ d b'
    → (a ≡ a') × (b ≡ b')
split_last_inj d String.[] b String.[] b' h k e =
    (refl, (cons-eq-cons.0 (sym (nil-append _) ∙ e ∙ nil-append _)).1)
split_last_inj d String.[] b (String.◌∷◌ x a') b' h k e =
    let tail = (cons-eq-cons.0 (sym (nil-append _) ∙ e ∙ cons-append x a' _)).1 in
    absurd (Lacks-append d a' b' (subst (Lacks (code d)) tail h))
split_last_inj d (String.◌∷◌ x a) b String.[] b' h k e =
    let tail = (cons-eq-cons.0 (sym (cons-append x a _) ∙ e ∙ nil-append _)).1 in
    absurd (Lacks-append d a b (subst (Lacks (code d)) (sym tail) k))
split_last_inj d (String.◌∷◌ x a) b (String.◌∷◌ y a') b' h k e =
    let (head, tail) = cons-eq-cons.0 (sym (cons-append x a _) ∙ e ∙ cons-append y a' _) in
    let (same, rest) = split_last_inj d a b a' b' h k tail in (cons-eq-cons.1 (head, same), rest)

barred_inj :
    (a b a' b' : String)
    → Lacks b'|' b
    → Lacks b'|' b'
    → barred a b ≡ barred a' b'
    → (a ≡ a') × (b ≡ b')
barred_inj a b a' b' h k e =
    split_last_inj "|" a b a' b' h k
      (ap (λ s. a <> s) (sym (bar-append b)) ∙ e ∙ ap (λ s. a' <> s) (bar-append b'))

-- What the selects hold has no bar: the identifiers and the names of modes and directions.
pub record IsPlain (f : RuleFilters) : Type 0 where
  pub node : Lacks b'|' f.node_id
  pub group : Lacks b'|' f.group_id
  pub mode : Lacks b'|' f.mode
  pub direction : Lacks b'|' f.direction

filter_key_inj : (f g : RuleFilters) → IsPlain f → IsPlain g → filter_key f ≡ filter_key g → f ≡ g
unfolding filter_key
filter_key_inj f g h k e =
    let (rest3, direction) = barred_inj _ f.direction _ g.direction h.direction k.direction e in
    let (rest2, mode) = barred_inj _ f.mode _ g.mode h.mode k.mode rest3 in
    let (rest1, group) = barred_inj _ f.group_id _ g.group_id h.group k.group rest2 in
    let (search, node) = barred_inj f.search f.node_id g.search g.node_id h.node k.node rest1 in
    λ i. record {
      search = search i;
      node_id = node i;
      group_id = group i;
      mode = mode i;
      direction = direction i;
    }

abbrev pub page_of : RuleFilters → ℕ → PageState
page_of f offset = record { shown_key = filter_key f; offset = offset }

-- A page after the first one is shown only for the filters it was reached with: where a render with the
-- filters `g` keeps a page that was reached with `f`, these are the same, and so is the page. The search
-- may hold the bar that joins the filters to one text; the identifiers and the names do not.
pub rendered-filter_key :
    (f g : RuleFilters) (offset : ℕ)
    → IsPlain f
    → IsPlain g
    → (rendered (filter_key g) (page_of f offset)).offset ≢ 0
    → (f ≡ g) × (rendered (filter_key g) (page_of f offset) ≡ page_of f offset)
unfolding rendered
rendered-filter_key f g offset h k later =
    elim (Bool-cases (str_eq (filter_key f) (filter_key g))) [
      | inl e ↦ (filter_key_inj f g h k ((eq_iff _ _).0 e), rw e refl)
      | inr e ↦ absurd (later (rw e refl))
    ]
