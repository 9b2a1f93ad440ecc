-- ===== src/Nodes/Rows.antt =====
-- Which rows of frontend/app/nodes/page.tsx rename a site.
use grouproxy.Base.{
  ℕ, ◌+◌, String, true, false, ◌&&◌, ◌≡◌, refl, ap, ◌∙◌, Option, some, List, [], ◌∷◌, any, All,
  arith, if◌then◌else◌, str_eq, eq_iff, eq_refl, Bool-cases, inl, inr,
}
use grouproxy.Api.Entities.Nodes.{Node}
use grouproxy.Nodes.{first_of_site, is_id, first_site_row}

-- No two rows have the same identifier.
abbrev pub IsDistinct : List Node → Type 0
IsDistinct [] = Unit
IsDistinct (n ∷ ns) = All (λ m. str_eq n.id (Node.id m) ≡ false) ns × IsDistinct ns

-- How many of the rows `shown` have the button of a site, where the first row of the site is `first`.
abbrev pub buttons_in : String → Option String → List Node → ℕ
buttons_in site_id first [] = 0
buttons_in site_id first (n ∷ ns) =
    (if str_eq n.site_id site_id && is_id first n.id then 1 else 0) + buttons_in site_id first ns

-- The rows of a site that have the button.
abbrev pub buttons : String → List Node → ℕ
buttons site_id rows = buttons_in site_id (first_of_site site_id rows) rows

none_first :
    (site_id id : String) (ns : List Node)
    → All (λ m. str_eq id (Node.id m) ≡ false) ns
    → buttons_in site_id (some id) ns ≡ 0
none_first site_id id [] h = refl
none_first site_id id (n ∷ ns) h = ground (arith, h.0, none_first site_id id ns h.1)

first_of_site-here :
    (site_id : String) (n : Node) (ns : List Node)
    → str_eq n.site_id site_id ≡ true
    → first_of_site site_id (n ∷ ns) ≡ some n.id
unfolding first_of_site
first_of_site-here site_id n ns h = rw h refl

first_of_site-later :
    (site_id : String) (n : Node) (ns : List Node)
    → str_eq n.site_id site_id ≡ false
    → first_of_site site_id (n ∷ ns) ≡ first_of_site site_id ns
unfolding first_of_site
first_of_site-later site_id n ns h = rw h refl

buttons_lem :
    (site_id : String) (rows : List Node)
    → IsDistinct rows
    → buttons site_id rows ≡ (if any (λ n. str_eq (Node.site_id n) site_id) rows then 1 else 0)
buttons_lem site_id [] h = refl
buttons_lem site_id (n ∷ ns) h = elim (Bool-cases (str_eq n.site_id site_id)) [
  | inl here ↦
      ap (λ first. buttons_in site_id first (n ∷ ns)) (first_of_site-here site_id n ns here)
      ∙ rw (here, eq_refl n.id, none_first site_id n.id ns h.0) refl
  | inr other ↦
      ap (λ first. buttons_in site_id first (n ∷ ns)) (first_of_site-later site_id n ns other)
      ∙ rw other (omega (arith, buttons_lem site_id ns h.1))
]

-- The rows of the table that are of a site and have its button.
abbrev pub site_buttons : String → List Node → List Node → ℕ
site_buttons site_id rows [] = 0
site_buttons site_id rows (n ∷ ns) =
    (if str_eq n.site_id site_id && first_site_row rows n then 1 else 0)
    + site_buttons site_id rows ns

site_buttons-buttons_in :
    (site_id : String) (rows shown : List Node)
    → site_buttons site_id rows shown ≡ buttons_in site_id (first_of_site site_id rows) shown
unfolding first_site_row
site_buttons-buttons_in site_id rows [] = refl
site_buttons-buttons_in site_id rows (n ∷ ns) = elim (Bool-cases (str_eq n.site_id site_id)) [
  | inl here ↦
      rw
        (
          (eq_iff n.site_id site_id).0 here,
          eq_refl site_id,
          site_buttons-buttons_in site_id rows ns,
        )
        refl
  | inr other ↦ rw (other, site_buttons-buttons_in site_id rows ns) refl
]

-- Of the rows of a site exactly one has the button that renames the site, whatever the table is
-- filtered to. No two rows have the same identifier.
pub site_buttons_lem :
    (site_id : String) (rows : List Node)
    → IsDistinct rows
    → site_buttons site_id rows rows
      ≡ (if any (λ n. str_eq (Node.site_id n) site_id) rows then 1 else 0)
site_buttons_lem site_id rows h =
    rw (site_buttons-buttons_in site_id rows rows) (buttons_lem site_id rows h)
