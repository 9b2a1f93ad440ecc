-- ===== src/Overview/Selected.antt =====
-- The site that the overview keeps selected.
use grouproxy.Base.{
  String, Bool, true, false, ◌≡◌, ◌⊎◌, refl, sym, subst, ap, Option, none, some, List, [], ◌∷◌, any,
  arith, if◌then◌else◌, str_eq, eq_refl, eq_iff, Bool-cases, inl, inr,
}
use grouproxy.Api.Session.{is_truthy}
use grouproxy.Api.Entities.Nodes.{Site, Node}
use grouproxy.Subscriptions.Publish.{find, or_else}
use grouproxy.Overview.{has_id, preferred_site, id_or_none, select_site}

found_here :
    (b : Bool) (site found : Site) (rest : Option Site)
    → (if b then some site else rest) ≡ some found
    → (site ≡ found) ⊎ (rest ≡ some found)
found_here true site found rest h = inl (cc h)
found_here false site found rest h = inr h

any_found :
    (test : Site → Bool) (sites : List Site) (found : Site)
    → find test sites ≡ some found
    → any (has_id found.id) sites ≡ true
any_found test [] found h = absurd (cc h)
any_found test (site ∷ sites) found h =
    elim (found_here (test site) site found (find test sites) h) [
      | inl same ↦
          let named : str_eq site.id found.id ≡ true =
            (eq_iff site.id found.id).1 (ap (λ s. Site.id s) same) in
          rw named refl
      | inr later ↦ let rest = any_found test sites found later in ground (arith)
    ]

module _ (site : Site) (sites : List Site) (nodes : List Node) where
  or_first-any :
      (o : Option Site)
      → ((found : Site) → o ≡ some found → any (has_id found.id) (site ∷ sites) ≡ true)
      → any (has_id (id_or_none (or_else o (some site)))) (site ∷ sites) ≡ true
  or_first-any none h = rw (eq_refl site.id) refl
  or_first-any (some found) h = h found refl

  preferred_site-any :
      any (has_id (id_or_none (preferred_site (site ∷ sites) nodes))) (site ∷ sites) ≡ true
  unfolding preferred_site
  preferred_site-any =
      or_first-any
        (find (λ site. any (λ n. str_eq (Node.site_id n) (Site.id site)) nodes) (site ∷ sites))
        (any_found (λ site. any (λ n. str_eq (Node.site_id n) (Site.id site)) nodes) (site ∷ sites))

  abbrev IsKept : String → Type 0
  IsKept id =
      (any (has_id id) (site ∷ sites) ≡ true)
      × (select_site (some (site ∷ sites)) (some nodes) id ≡ id)

  module _ (selected : String) where
    stays :
        is_truthy selected ≡ true
        → any (has_id selected) (site ∷ sites) ≡ true
        → select_site (some (site ∷ sites)) (some nodes) selected ≡ selected
    unfolding select_site
    stays given known = rw (given, known) refl

    falls_back :
        is_truthy selected ≡ true
        → any (has_id selected) (site ∷ sites) ≡ false
        → select_site (some (site ∷ sites)) (some nodes) selected
          ≡ id_or_none (preferred_site (site ∷ sites) nodes)
    unfolding select_site
    falls_back given gone = rw (given, gone) refl

    starts :
        is_truthy selected ≡ false
        → select_site (some (site ∷ sites)) (some nodes) selected
          ≡ id_or_none (preferred_site (site ∷ sites) nodes)
    unfolding select_site
    starts empty = rw empty refl

  settles :
      let preferred = id_or_none (preferred_site (site ∷ sites) nodes) in
      select_site (some (site ∷ sites)) (some nodes) preferred ≡ preferred
  settles =
      let preferred = id_or_none (preferred_site (site ∷ sites) nodes) in
      elim (Bool-cases (is_truthy preferred)) [
        | inl given ↦ stays preferred given preferred_site-any
        | inr empty ↦ starts preferred empty
      ]

  -- Once the sites and the nodes are loaded, and there is a site, the effect selects one of the sites,
  -- and running it again changes nothing.
  pub select_site-any :
      (selected : String)
      → let after = select_site (some (site ∷ sites)) (some nodes) selected in
        (any (has_id after) (site ∷ sites) ≡ true)
        × (select_site (some (site ∷ sites)) (some nodes) after ≡ after)
  select_site-any selected =
      let preferred = id_or_none (preferred_site (site ∷ sites) nodes) in
      elim (Bool-cases (is_truthy selected)) [
        | inl given ↦ elim (Bool-cases (any (has_id selected) (site ∷ sites))) [
          | inl known ↦ let e = stays selected given known in subst IsKept (sym e) (known, e)
          | inr gone ↦
              let e = falls_back selected given gone in
              subst IsKept (sym e) (preferred_site-any, settles)
        ]
        | inr empty ↦
            let e = starts selected empty in subst IsKept (sym e) (preferred_site-any, settles)
      ]
