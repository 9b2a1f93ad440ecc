-- ===== src/Policy/Rules.antt =====
-- Editing an access rule: the boxes of nodes and groups, and what is sent.
use grouproxy.Base.{
  String, Bool, true, false, not, ◌||◌, ◌≡◌, refl, sym, ◌∙◌, ap, List, [], ◌∷◌, ◌++◌, any, arith,
  if◌then◌else◌, str_eq, eq_iff, Bool-cases, inl, inr,
}
use grouproxy.Subscriptions.{keep}
use grouproxy.Policy.{toggle_item}

abbrev pub has : String → List String → Bool
has id items = any (λ item. str_eq item id) items

has-keep :
    (id asked : String) (items : List String)
    → has asked (keep (λ item. not (str_eq item id)) items)
      ≡ (if str_eq id asked then false else has asked items)
has-keep id asked [] = ground arith
has-keep id asked (item ∷ items) =
    ground (arith, has-keep id asked items, eq_iff item id, eq_iff item asked, eq_iff id asked)

has-append :
    (id asked : String) (items : List String)
    → has asked (items ++ (id ∷ [])) ≡ (has asked items || str_eq id asked)
has-append id asked [] = ground arith
has-append id asked (item ∷ items) = ground (arith, has-append id asked items)

has_same :
    (id asked : String) (items : List String)
    → str_eq id asked ≡ true
    → has asked items ≡ has id items
has_same id asked items same = ap (λ key. has key items) (sym ((eq_iff id asked).0 same))

chosen_same :
    (id asked : String) (items : List String)
    → has id items ≡ true
    → (if str_eq id asked then false else has asked items)
      ≡ (if str_eq id asked then not (has asked items) else has asked items)
chosen_same id asked items there = elim (Bool-cases (str_eq id asked)) [
  | inl same ↦ rw (same, has_same id asked items same, there) refl
  | inr other ↦ rw other refl
]

added_same :
    (id asked : String) (items : List String)
    → has id items ≡ false
    → (has asked items || str_eq id asked)
      ≡ (if str_eq id asked then not (has asked items) else has asked items)
added_same id asked items new = elim (Bool-cases (str_eq id asked)) [
  | inl same ↦ rw (same, has_same id asked items same, new) refl
  | inr other ↦ rw other (ground arith)
]

-- The boxes of a form are a set: using one changes whether its own item is in, and no other.
pub has-toggle_item :
    (id asked : String) (items : List String)
    → has asked (toggle_item id items)
      ≡ (if str_eq id asked then not (has asked items) else has asked items)
unfolding toggle_item
has-toggle_item id asked items = elim (Bool-cases (has id items)) [
  | inl there ↦ rw there (has-keep id asked items ∙ chosen_same id asked items there)
  | inr new ↦ rw new (has-append id asked items ∙ added_same id asked items new)
]
