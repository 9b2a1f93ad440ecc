-- ===== src/Subscriptions/Targets.antt =====
-- A selection of sites is never carried from one version to another.
use grouproxy.Base.{
  All-append, String, Bool, not, ◌||◌, ◌≡◌, refl, sym, subst, ◌∙◌, ap, Option, none, some, List, [],
  ◌∷◌, ◌++◌, map, any, All, str_eq, Bool-cases, ◌⊎◌, inl, inr,
}
use grouproxy.Api.Transport.{Entropy}
use grouproxy.Api.Calls.Subscriptions.{publish_subscription_version}
use grouproxy.Api.Entities.Subscriptions.{SubscriptionVersion}
use grouproxy.Subscriptions.{keep}
use grouproxy.Subscriptions.Publish.{
  Selection, run_effects, select_source, source_created, version_created, toggle_site, open_publish,
  continue_publish, published, publish_call,
}
use grouproxy.Subscriptions.Ticking.{
  Publishing, site_of, toggle_tick, ticks_after, Step, rendered, source_selected, source_added,
  version_added, publish_opened, site_toggled, publish_closed, continued, confirm_closed, succeeded,
  Reach, start, next,
}
use grouproxy.Subscriptions.Effects.{run_effects-cases}

-- All ticks were made in the dialog of that version.
abbrev TickedIn : Option SubscriptionVersion → List (String × String) → Type 0
TickedIn none ticks = Unit
TickedIn (some version) ticks = All (λ c. c.1 ≡ SubscriptionVersion.id version) ticks

pub record IsOwn (p : Publishing) : Type 0 where
  pub same_sites : map site_of p.ticked ≡ p.selection.site_ids
  pub in_publish : TickedIn p.selection.publish_target p.ticked
  pub in_confirm : TickedIn p.selection.confirm_target p.ticked
  pub one_dialog : (p.selection.publish_target ≡ none) ⊎ (p.selection.confirm_target ≡ none)

any-map :
    (site : String) (ticks : List (String × String))
    → any (λ item. str_eq item site) (map site_of ticks) ≡ any (λ c. str_eq (site_of c) site) ticks
any-map site [] = refl
any-map site (c ∷ ticks) = ap (λ b. str_eq c.0 site || b) (any-map site ticks)

keep-map :
    (site : String) (ticks : List (String × String))
    → map site_of (keep (λ c. not (str_eq (site_of c) site)) ticks)
      ≡ keep (λ item. not (str_eq item site)) (map site_of ticks)
keep-map site [] = refl
keep-map site (c ∷ ticks) = elim (Bool-cases (str_eq c.0 site)) [
  | inl gone ↦ rw gone (keep-map site ticks)
  | inr kept ↦ rw kept (ap (λ rest. c.0 ∷ rest) (keep-map site ticks))
]

map-append : {A B : Type 0} (f : A → B) (xs ys : List A) → map f (xs ++ ys) ≡ map f xs ++ map f ys
map-append f [] ys = refl
map-append f (x ∷ xs) ys = ap (λ rest. f x ∷ rest) (map-append f xs ys)

map-toggle_tick :
    (site shown : String) (ticks : List (String × String))
    → map site_of (toggle_tick site shown ticks) ≡ toggle_site site (map site_of ticks)
unfolding toggle_site
map-toggle_tick site shown ticks = elim (Bool-cases (any (λ c. str_eq (site_of c) site) ticks)) [
  | inl there ↦ rw (any-map site ticks, there) (keep-map site ticks)
  | inr new ↦ rw (any-map site ticks, new) (map-append site_of ticks ((site, shown) ∷ []))
]

All-keep :
    {A : Type 0} (P : A → Type 0) (test : A → Bool) (xs : List A) → All P xs → All P (keep test xs)
All-keep P test [] h = tt
All-keep P test (x ∷ xs) h = elim (Bool-cases (test x)) [
  | inl kept ↦ rw kept (h.0, All-keep P test xs h.1)
  | inr gone ↦ rw gone (All-keep P test xs h.1)
]

All-toggle_tick :
    (version : SubscriptionVersion) (site : String) (ticks : List (String × String))
    → TickedIn (some version) ticks
    → TickedIn (some version) (toggle_tick site version.id ticks)
All-toggle_tick version site ticks h =
    elim (Bool-cases (any (λ c. str_eq (site_of c) site) ticks)) [
      | inl there ↦
          rw there (All-keep (λ c. c.1 ≡ version.id) (λ c. not (str_eq (site_of c) site)) ticks h)
      | inr new ↦
          rw new (All-append (λ c. c.1 ≡ version.id) ticks ((site, version.id) ∷ []) h (refl, tt))
    ]

empty-TickedIn : (target : Option SubscriptionVersion) → TickedIn target []
empty-TickedIn none = tt
empty-TickedIn (some version) = tt

ticks_after_same :
    (sites : List String) (ticks : List (String × String))
    → map site_of ticks ≡ sites
    → ticks_after sites ticks ≡ ticks
ticks_after_same [] [] e = refl
ticks_after_same [] (c ∷ ticks) e = absurd (cc e)
ticks_after_same (site ∷ sites) ticks e = refl

effects-IsOwn :
    (ticks : List (String × String)) (s after : Selection)
    → after.publish_target ≡ s.publish_target
    → after.confirm_target ≡ s.confirm_target
    → (after.site_ids ≡ []) ⊎ (after.site_ids ≡ s.site_ids)
    → IsOwn (record { selection = s; ticked = ticks })
    → IsOwn (record { selection = after; ticked = ticks_after after.site_ids ticks })
effects-IsOwn ticks s after p q (inl e) h = record {
  same_sites = rw e refl;
  in_publish = rw e (empty-TickedIn after.publish_target);
  in_confirm = rw e (empty-TickedIn after.confirm_target);
  one_dialog = rw (p, q) h.one_dialog;
}
effects-IsOwn ticks s after p q (inr e) h =
    let same = ticks_after_same after.site_ids ticks (h.same_sites ∙ sym e) in
    record {
      same_sites = rw same (h.same_sites ∙ sym e);
      in_publish = rw (same, p) h.in_publish;
      in_confirm = rw (same, q) h.in_confirm;
      one_dialog = rw (p, q) h.one_dialog;
    }

continue_publish-IsOwn :
    (target : Option SubscriptionVersion) (s : Selection) (ticks : List (String × String))
    → let before = record s { publish_target = target } in
      IsOwn (record { selection = before; ticked = ticks })
      → IsOwn (record { selection = continue_publish before; ticked = ticks })
unfolding continue_publish
continue_publish-IsOwn none s ticks h = h
continue_publish-IsOwn (some version) s ticks h = record {
  same_sites = h.same_sites;
  in_publish = tt;
  in_confirm = h.in_publish;
  one_dialog = inl refl;
}

confirm_closed_by :
    {target : Option SubscriptionVersion} {other : Option SubscriptionVersion}
    (version : SubscriptionVersion)
    → target ≡ some version
    → (target ≡ none) ⊎ (other ≡ none)
    → other ≡ none
confirm_closed_by version e (inl h) = absurd (cc (e, h))
confirm_closed_by version e (inr h) = h

toggle_site-IsOwn :
    (p : Publishing) (version : SubscriptionVersion) (site : String)
    → p.selection.publish_target ≡ some version
    → IsOwn p
    → IsOwn (record {
      selection = record p.selection { site_ids = toggle_site site p.selection.site_ids };
      ticked = toggle_tick site version.id p.ticked;
    })
toggle_site-IsOwn p version site e h =
    let closed = confirm_closed_by version e h.one_dialog in
    let own : TickedIn (some version) p.ticked = subst (λ t. TickedIn t p.ticked) e h.in_publish in
    record {
      same_sites =
          map-toggle_tick site version.id p.ticked
          ∙ ap (λ sites. toggle_site site sites) h.same_sites;
      in_publish = rw e (All-toggle_tick version site p.ticked own);
      in_confirm = rw closed tt;
      one_dialog = h.one_dialog;
    }

Step-IsOwn : {p q : Publishing} → Step p q → IsOwn p → IsOwn q
unfolding select_source source_created version_created open_publish published
Step-IsOwn (rendered p shown c) h =
    let e = run_effects-cases shown c p.selection in
    effects-IsOwn p.ticked p.selection (run_effects shown c p.selection) e.0 e.1 e.2 h
Step-IsOwn (source_selected p id) h = record {
  same_sites = h.same_sites;
  in_publish = h.in_publish;
  in_confirm = h.in_confirm;
  one_dialog = h.one_dialog;
}
Step-IsOwn (source_added p id) h = record {
  same_sites = h.same_sites;
  in_publish = h.in_publish;
  in_confirm = h.in_confirm;
  one_dialog = h.one_dialog;
}
Step-IsOwn (version_added p id version) h = record {
  same_sites = h.same_sites;
  in_publish = h.in_publish;
  in_confirm = h.in_confirm;
  one_dialog = h.one_dialog;
}
Step-IsOwn (publish_opened p c version e ok no_dialog no_confirm) h = record {
  same_sites = refl;
  in_publish = tt;
  in_confirm = empty-TickedIn p.selection.confirm_target;
  one_dialog = inr no_confirm;
}
Step-IsOwn (site_toggled p version site e) h = toggle_site-IsOwn p version site e h
Step-IsOwn (publish_closed p) h = record {
  same_sites = h.same_sites;
  in_publish = tt;
  in_confirm = h.in_confirm;
  one_dialog = inl refl;
}
Step-IsOwn (continued p sites) h =
    continue_publish-IsOwn p.selection.publish_target p.selection p.ticked h
Step-IsOwn (confirm_closed p) h = record {
  same_sites = h.same_sites;
  in_publish = h.in_publish;
  in_confirm = tt;
  one_dialog = inr refl;
}
Step-IsOwn (succeeded p) h = record {
  same_sites = h.same_sites;
  in_publish = tt;
  in_confirm = tt;
  one_dialog = inl refl;
}

Reach-IsOwn : (p : Publishing) → Reach p → IsOwn p
Reach-IsOwn _ start = record {
  same_sites = refl;
  in_publish = tt;
  in_confirm = tt;
  one_dialog = inl refl;
}
Reach-IsOwn p (next reached step) = Step-IsOwn step (Reach-IsOwn _ reached)

-- In every state that the page reaches while a version waits for confirmation, the sites that its
-- publication would name are those that were ticked in the dialog of that version: a selection is
-- never carried over from another version.
pub publish_call-own :
    (e : Entropy) (p : Publishing) (version : SubscriptionVersion)
    → Reach p
    → p.selection.confirm_target ≡ some version
    → (publish_call e p.selection
        ≡ some (publish_subscription_version e version.source_id version.id (map site_of p.ticked)))
      × All (λ c. c.1 ≡ version.id) p.ticked
unfolding publish_call
publish_call-own e p version reached confirming =
    let own = Reach-IsOwn p reached in
    let ticked : TickedIn (some version) p.ticked =
      subst (λ t. TickedIn t p.ticked) confirming own.in_confirm in
    (simp (publish_call, confirming, own.same_sites), ticked)
