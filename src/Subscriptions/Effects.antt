-- ===== src/Subscriptions/Effects.antt =====
-- What the effects of the subscriptions page leave as it is.
use grouproxy.Base.{
  String, ◌≡◌, refl, ◌∙◌, Option, none, some, List, [], ◌∷◌, any, str_eq, Bool-cases, ◌⊎◌, inl, inr,
}
use grouproxy.Api.Session.{is_truthy}
use grouproxy.Api.Entities.Subscriptions.{
  SubscriptionSource, SubscriptionVersion, SubscriptionCatalog,
}
use grouproxy.Subscriptions.Publish.{
  Selection, current_version, current_versions, choose_source, choose_version, forget_sites,
  run_effects,
}

-- The dialogs and the selected sites are as they were.
abbrev Keeps : Selection → Selection → Type 0
Keeps s after =
    (after.publish_target ≡ s.publish_target)
    × (after.confirm_target ≡ s.confirm_target)
    × (after.site_ids ≡ s.site_ids)

Keeps-choose_source :
    (shown : List SubscriptionSource) (s : Selection) → Keeps s (choose_source shown s)
unfolding choose_source
Keeps-choose_source [] s = elim (Bool-cases (is_truthy s.source_id)) [
  | inl e ↦ rw e (refl, refl, refl)
  | inr e ↦ rw e (refl, refl, refl)
]
Keeps-choose_source (source ∷ shown) s = elim (Bool-cases (is_truthy s.source_id)) [
  | inl e ↦ rw e (refl, refl, refl)
  | inr e ↦ rw e (refl, refl, refl)
]

Keeps-choose_version :
    (versions : List SubscriptionVersion) (version : Option SubscriptionVersion) (s : Selection)
    → Keeps s (choose_version versions version s)
unfolding choose_version
Keeps-choose_version versions none s = (refl, refl, refl)
Keeps-choose_version versions (some version) s = elim (Bool-cases (is_truthy s.version_id)) [
  | inl e ↦
      elim (Bool-cases (any (λ item. str_eq (SubscriptionVersion.id item) s.version_id) versions)) [
        | inl there ↦ rw (e, there) (refl, refl, refl)
        | inr gone ↦ rw (e, gone) (refl, refl, refl)
      ]
  | inr e ↦ rw e (refl, refl, refl)
]

forget_sites-cases :
    (version : Option SubscriptionVersion) (s : Selection)
    → let after = forget_sites version s in
      (after.publish_target ≡ s.publish_target)
      × (after.confirm_target ≡ s.confirm_target)
      × ((after.site_ids ≡ []) ⊎ (after.site_ids ≡ s.site_ids))
unfolding forget_sites
forget_sites-cases none s = (refl, refl, inr refl)
forget_sites-cases (some version) s = elim (Bool-cases (str_eq s.previous_version version.id)) [
  | inl e ↦ rw e (refl, refl, inr refl)
  | inr e ↦ rw e (refl, refl, inl refl)
]

sites_after :
    {after middle s : List String}
    → middle ≡ s
    → (after ≡ []) ⊎ (after ≡ middle)
    → (after ≡ []) ⊎ (after ≡ s)
sites_after e (inl f) = inl f
sites_after e (inr f) = inr (f ∙ e)

-- The effects leave the dialogs alone, and empty the selection of sites or leave it as it is.
pub run_effects-cases :
    (shown : List SubscriptionSource) (c : SubscriptionCatalog) (s : Selection)
    → let after = run_effects shown c s in
      (after.publish_target ≡ s.publish_target)
      × (after.confirm_target ≡ s.confirm_target)
      × ((after.site_ids ≡ []) ⊎ (after.site_ids ≡ s.site_ids))
unfolding run_effects
run_effects-cases shown c s =
    let sourced = choose_source shown s in
    let versioned = choose_version (current_versions c s) (current_version c s) sourced in
    let first = Keeps-choose_source shown s in
    let second = Keeps-choose_version (current_versions c s) (current_version c s) sourced in
    let third = forget_sites-cases (current_version c s) versioned in
    (
      third.0 ∙ second.0 ∙ first.0,
      third.1 ∙ second.1 ∙ first.1,
      sites_after (second.2 ∙ first.2) third.2,
    )
