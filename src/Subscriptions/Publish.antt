-- ===== src/Subscriptions/Publish.antt =====
-- Choosing a source, a version and the sites to publish it to: frontend/app/subscriptions/page.tsx,
-- lines 155-229, 248-257, 292, 312-313 and 398-400.
use grouproxy.Base.{
  String, Bool, not, Option, none, some, List, [], ◌∷◌, ◌++◌, map, any, if◌then◌else◌, str_eq,
}
use grouproxy.Api.Session.{is_truthy}
use grouproxy.Api.Transport.{Entropy}
use grouproxy.Api.Calls.{Call}
use grouproxy.Api.Calls.Subscriptions.{publish_subscription_version}
use grouproxy.Api.Entities.Nodes.{Node}
use grouproxy.Api.Entities.Subscriptions.{
  SubscriptionSource, SubscriptionVersion, SubscriptionCatalog,
}
use grouproxy.Release.{distinct}
use grouproxy.Subscriptions.{keep}

-- What the page remembers: `""` where nothing is selected. `previous_version` is `previousVersionId`.
pub record Selection : Type 0 where
  pub source_id : String
  pub version_id : String
  pub previous_version : String
  pub site_ids : List String
  pub publish_target : Option SubscriptionVersion
  pub confirm_target : Option SubscriptionVersion

abbrev pub first_selection : Selection
first_selection = record {
  source_id = "";
  version_id = "";
  previous_version = "";
  site_ids = [];
  publish_target = none;
  confirm_target = none;
}

abbrev pub find : {A : Type 0} → (A → Bool) → List A → Option A
find test [] = none
find test (x ∷ xs) = if test x then some x else find test xs

abbrev pub head : {A : Type 0} → List A → Option A
head [] = none
head (x ∷ xs) = some x

-- `a || b` where a missing value counts as false.
abbrev pub or_else : {A : Type 0} → Option A → Option A → Option A
or_else none b = b
or_else (some x) b = some x

unfoldable pub deployable_site_ids : List Node → List String
deployable_site_ids nodes = distinct (map (λ n. Node.site_id n) nodes)

unfoldable pub current_source : SubscriptionCatalog → Selection → Option SubscriptionSource
current_source c s =
    or_else (find (λ source. str_eq (SubscriptionSource.id source) s.source_id) c.sources)
      (head c.sources)

unfoldable pub current_versions : SubscriptionCatalog → Selection → List SubscriptionVersion
current_versions c s = elim (current_source c s) [
  | none ↦ []
  | some source ↦
      keep (λ version. str_eq (SubscriptionVersion.source_id version) source.id) c.versions
]

unfoldable pub current_version : SubscriptionCatalog → Selection → Option SubscriptionVersion
current_version c s =
    let versions = current_versions c s in
    or_else (find (λ version. str_eq (SubscriptionVersion.id version) s.version_id) versions)
      (head versions)

-- The three effects after a render of the page, with the sources that its filters let through.
unfoldable pub choose_source : List SubscriptionSource → Selection → Selection
choose_source shown s =
    if is_truthy s.source_id
    then s
    else elim (head shown) [ none ↦ s | some source ↦ record s { source_id = source.id } ]

unfoldable pub choose_version :
    List SubscriptionVersion → Option SubscriptionVersion → Selection → Selection
choose_version versions none s = s
choose_version versions (some version) s =
    if is_truthy s.version_id
    then (if any (λ item. str_eq (SubscriptionVersion.id item) s.version_id) versions
        then s
        else record s { version_id = version.id })
    else record s { version_id = version.id }

unfoldable pub forget_sites : Option SubscriptionVersion → Selection → Selection
forget_sites none s = s
forget_sites (some version) s =
    if str_eq s.previous_version version.id
    then s
    else record s { previous_version = version.id; site_ids = [] }

unfoldable pub run_effects : List SubscriptionSource → SubscriptionCatalog → Selection → Selection
run_effects shown c s =
    forget_sites (current_version c s)
      (choose_version (current_versions c s) (current_version c s) (choose_source shown s))

unfoldable pub select_source : String → Selection → Selection
select_source id s = record s { source_id = id; version_id = "" }

-- What a new source, and a new node or an upload, with its first version, choose.
unfoldable pub source_created : String → Selection → Selection
source_created id s = record s { source_id = id }

unfoldable pub version_created : String → String → Selection → Selection
version_created id version s = record s { source_id = id; version_id = version }

unfoldable pub toggle_site : String → List String → List String
toggle_site id sites =
    if any (λ item. str_eq item id) sites
    then keep (λ item. not (str_eq item id)) sites
    else sites ++ (id ∷ [])

-- The buttons "Publish" and "Continue", and what closes the two dialogs.
unfoldable pub open_publish : SubscriptionVersion → Selection → Selection
open_publish version s = record s { site_ids = []; publish_target = some version }

unfoldable pub continue_publish : Selection → Selection
continue_publish s = elim s.publish_target [
  | none ↦ s
  | some version ↦ record s { confirm_target = some version; publish_target = none }
]

unfoldable pub published : Selection → Selection
published s = record s { publish_target = none; confirm_target = none }

-- `publish.mutate(confirmTarget)`
unfoldable pub publish_call : Entropy → Selection → Option Call
publish_call e s = elim s.confirm_target [
  | none ↦ none
  | some version ↦ some (publish_subscription_version e version.source_id version.id s.site_ids)
]
