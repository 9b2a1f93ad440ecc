-- ===== src/Release/Categories.antt =====
-- The labels of a release's categories.
use grouproxy.Base.{
  String, ◌≡◌, ◌≢◌, true, inl, inr, Option, List, [], ◌∷◌, map, All, arith, str_eq, eq_iff,
  Bool-cases,
}
use grouproxy.Release.{
  category_label, contains, distinct_from, distinct, or_other, list_or_empty,
  release_category_labels,
}

-- No text stands twice.
abbrev pub Distinct : List String → Type 0
Distinct [] = Unit
Distinct (x ∷ xs) = All (λ y. y ≢ x) xs × Distinct xs

pub data IsLabel : String → Type 0 where
  access : IsLabel "Access rules"
  routing : IsLabel "Routing rules"
  outbound : IsLabel "Outbound service"
  subscription : IsLabel "Subscription"
  other : IsLabel "Other changes"

category_label-IsLabel : (c : String) → IsLabel (category_label c)
unfolding category_label
category_label-IsLabel c = elim (Bool-cases (str_eq c "access_rules")) [
  | inl e ↦ rw e access
  | inr e₁ ↦ elim (Bool-cases (str_eq c "routing_rules")) [
    | inl e ↦ rw (e₁, e) routing
    | inr e₂ ↦ elim (Bool-cases (str_eq c "outbound_service")) [
      | inl e ↦ rw (e₁, e₂, e) outbound
      | inr e₃ ↦ elim (Bool-cases (str_eq c "subscription")) [
        | inl e ↦ rw (e₁, e₂, e₃, e) subscription
        | inr e₄ ↦ rw (e₁, e₂, e₃, e₄) other
      ]
    ]
  ]
]

-- What comes out is not among the texts seen before.
distinct_from-new :
    (s : String) (seen xs : List String)
    → contains s seen ≡ true
    → All (λ y. y ≢ s) (distinct_from seen xs)
unfolding distinct_from contains
distinct_from-new s seen [] h = tt
distinct_from-new s seen (x ∷ xs) h =
    ground (arith, distinct_from-new s seen xs h, distinct_from-new s (x ∷ seen) xs, eq_iff x s)

distinct_from-Distinct : (seen xs : List String) → Distinct (distinct_from seen xs)
unfolding distinct_from contains
distinct_from-Distinct seen [] = tt
distinct_from-Distinct seen (x ∷ xs) = ground (
  arith,
  distinct_from-Distinct seen xs,
  distinct_from-Distinct (x ∷ seen) xs,
  distinct_from-new x (x ∷ seen) xs,
  eq_iff x x,
)

distinct_from-All :
    (P : String → Type 0) (seen xs : List String) → All P xs → All P (distinct_from seen xs)
unfolding distinct_from
distinct_from-All P seen [] h = tt
distinct_from-All P seen (x ∷ xs) h = elim (Bool-cases (contains x seen)) [
  | inl old ↦ rw old (distinct_from-All P seen xs h.1)
  | inr new ↦ rw new (h.0, distinct_from-All P (x ∷ seen) xs h.1)
]

distinct-Distinct : (xs : List String) → Distinct (distinct xs)
unfolding distinct
distinct-Distinct xs = distinct_from-Distinct [] xs

distinct-All : (P : String → Type 0) (xs : List String) → All P xs → All P (distinct xs)
unfolding distinct
distinct-All P xs h = distinct_from-All P [] xs h

labels-IsLabel : (xs : List String) → All IsLabel (map category_label xs)
labels-IsLabel [] = tt
labels-IsLabel (x ∷ xs) = (category_label-IsLabel x, labels-IsLabel xs)

distinct-ne-nil : (x : String) (xs : List String) → distinct (x ∷ xs) ≢ []
unfolding distinct contains
distinct-ne-nil x xs e = cc e

or_other-Distinct :
    (labels : List String)
    → All IsLabel labels
    → (or_other labels ≢ []) × Distinct (or_other labels) × All IsLabel (or_other labels)
or_other-Distinct [] h = ((λ e. cc e), (tt, tt), (other, tt))
or_other-Distinct (x ∷ xs) h =
    (distinct-ne-nil x xs, distinct-Distinct (x ∷ xs), distinct-All IsLabel (x ∷ xs) h)

-- The labels of a release are never none, are five known texts, and no label is repeated, whatever
-- categories the server names.
pub release_category_labels-Distinct :
    (categories : Option (List String))
    → (release_category_labels categories ≢ [])
      × Distinct (release_category_labels categories)
      × All IsLabel (release_category_labels categories)
unfolding release_category_labels
release_category_labels-Distinct categories =
    or_other-Distinct (map category_label (distinct (list_or_empty categories)))
      (labels-IsLabel (distinct (list_or_empty categories)))
