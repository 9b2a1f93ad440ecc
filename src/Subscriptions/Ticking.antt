-- ===== src/Subscriptions/Ticking.antt =====
-- The page of frontend/app/subscriptions/page.tsx step by step, with the version that each selected
-- site was ticked for.
use grouproxy.Base.{
  String, true, not, ◌≡◌, ◌≢◌, none, some, List, [], ◌∷◌, ◌++◌, any, if◌then◌else◌, str_eq,
}
use grouproxy.Api.Entities.Subscriptions.{
  SubscriptionSource, SubscriptionVersion, SubscriptionCatalog,
}
use grouproxy.Subscriptions.{keep}
use grouproxy.Subscriptions.Publish.{
  Selection, first_selection, current_version, run_effects, select_source, source_created,
  version_created, toggle_site, open_publish, continue_publish, published,
}

-- The selection, and for each selected site the version whose dialog it was ticked in.
pub record Publishing : Type 0 where
  pub selection : Selection
  pub ticked : List (String × String)

abbrev pub site_of : String × String → String
site_of c = c.0

-- A tick in the dialog of the version `shown`.
abbrev pub toggle_tick : String → String → List (String × String) → List (String × String)
toggle_tick site shown ticks =
    if any (λ c. str_eq (site_of c) site) ticks
    then keep (λ c. not (str_eq (site_of c) site)) ticks
    else ticks ++ ((site, shown) ∷ [])

-- An effect that empties the selection forgets the ticks.
abbrev pub ticks_after : List String → List (String × String) → List (String × String)
ticks_after [] ticks = []
ticks_after (_ ∷ _) ticks = ticks

-- What happens on the page. A dialog covers the page: the button "Publish" can be used while none is
-- open.
pub data Step : Publishing → Publishing → Type 0 where
  rendered :
      (p : Publishing) (shown : List SubscriptionSource) (c : SubscriptionCatalog)
      → Step p (record {
        selection = run_effects shown c p.selection;
        ticked = ticks_after (run_effects shown c p.selection).site_ids p.ticked;
      })
  source_selected :
      (p : Publishing) (id : String)
      → Step p (record p { selection = select_source id p.selection })
  source_added :
      (p : Publishing) (id : String)
      → Step p (record p { selection = source_created id p.selection })
  version_added :
      (p : Publishing) (id version : String)
      → Step p (record p { selection = version_created id version p.selection })
  publish_opened :
      (p : Publishing) (c : SubscriptionCatalog) (version : SubscriptionVersion)
      → current_version c p.selection ≡ some version
      → version.parse_ok ≡ true
      → p.selection.publish_target ≡ none
      → p.selection.confirm_target ≡ none
      → Step p (record { selection = open_publish version p.selection; ticked = [] })
  site_toggled :
      (p : Publishing) (version : SubscriptionVersion) (site : String)
      → p.selection.publish_target ≡ some version
      → Step p (record {
        selection = record p.selection { site_ids = toggle_site site p.selection.site_ids };
        ticked = toggle_tick site version.id p.ticked;
      })
  publish_closed :
      (p : Publishing)
      → Step p (record p { selection = record p.selection { publish_target = none } })
  continued :
      (p : Publishing)
      → p.selection.site_ids ≢ []
      → Step p (record p { selection = continue_publish p.selection })
  confirm_closed :
      (p : Publishing)
      → Step p (record p { selection = record p.selection { confirm_target = none } })
  succeeded : (p : Publishing) → Step p (record p { selection = published p.selection })

abbrev pub fresh : Publishing
fresh = record { selection = first_selection; ticked = [] }

pub data Reach : Publishing → Type 0 where
  start : Reach fresh
  next : {p q : Publishing} → Reach p → Step p q → Reach q
