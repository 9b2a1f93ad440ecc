-- ===== src/Releases/Page.antt =====
-- The page of frontend/app/releases/page.tsx: which draft or release it shows, and the publication of a
-- draft.
use grouproxy.Base.{
  String, Bool, true, false, ◌≡◌, Option, none, some, List, [], ◌∷◌, if◌then◌else◌, str_eq,
}
use grouproxy.Api.Session.{is_truthy}
use grouproxy.Api.Transport.{Entropy}
use grouproxy.Api.Calls.{Call}
use grouproxy.Api.Calls.Nodes.{undefined}
use grouproxy.Api.Calls.Releases.{PublishInput, publish_release}
use grouproxy.Api.Entities.Releases.{Draft, Release}

pub data ListView : Type 0 where
  drafts history : ListView

-- What the page remembers: the identifiers in its address, the draft of the dialog, the list that is
-- open, and what the query of the address's release has. This query keeps no previous data.
pub record ReleasesPage : Type 0 where
  pub draft_id : Option String
  pub release_id : Option String
  pub publish_target : Option Draft
  pub list_view : ListView
  pub publishing : Bool
  pub requested : Option Release
  pub calls : List Call

abbrev pub is_given : Option String → Bool
is_given none = false
is_given (some id) = is_truthy id

unfoldable pub first_releases_page : Option String → Option String → Option Release → ReleasesPage
first_releases_page draft_id release_id cached = record {
  draft_id = draft_id;
  release_id = release_id;
  publish_target = none;
  list_view = if is_given draft_id then drafts else history;
  publishing = false;
  requested = cached;
  calls = [];
}

unfoldable pub find_draft : String → List Draft → Option Draft
find_draft id [] = none
find_draft id (d ∷ ds) = let rest = find_draft id ds in if str_eq d.id id then some d else rest

unfoldable pub selected_draft : List Draft → ReleasesPage → Option Draft
unfolding find_draft
selected_draft items p = elim p.draft_id [ none ↦ none | some id ↦ find_draft id items ]

abbrev pub first_release : List Release → Option Release
first_release [] = none
first_release (r ∷ rs) = some r

unfoldable pub selected_release : List Release → ReleasesPage → Option Release
selected_release items p =
    if is_given p.release_id
    then p.requested
    else if is_given p.draft_id
    then none
    else first_release items

-- The effect on the address.
unfoldable pub follow_address : ReleasesPage → ReleasesPage
follow_address p =
    if is_given p.draft_id
    then record p { list_view = drafts }
    else if is_given p.release_id
    then record p { list_view = history }
    else p

-- `router.replace` to a draft, and to a release with what the cache holds of it.
unfoldable pub open_draft : String → ReleasesPage → ReleasesPage
open_draft id p = record p { draft_id = some id; release_id = none; requested = none }

unfoldable pub open_release : String → Option Release → ReleasesPage → ReleasesPage
open_release id cached p = record p { draft_id = none; release_id = some id; requested = cached }

unfoldable pub publish_input : Draft → PublishInput
publish_input d = record {
  draft_id = d.id;
  site_id = d.site_id;
  node_ids = some d.node_ids;
  expected_current_version = undefined;
  note = some "Published from operations console";
}

-- The dialog: its confirmation, and the answer of the server.
unfoldable pub confirm_publish : Entropy → ReleasesPage → ReleasesPage
unfolding publish_input
confirm_publish e p = elim p.publish_target [
  | none ↦ p
  | some draft ↦
      if p.publishing
      then p
      else record p { publishing = true; calls = publish_release e (publish_input draft) ∷ p.calls }
]

unfoldable pub publish_succeeded : Release → Option Release → ReleasesPage → ReleasesPage
unfolding open_release
publish_succeeded r cached p =
    open_release r.release_id cached (record p { publishing = false; publish_target = none })

-- What the cache or the server has for an identifier is the release with that identifier.
abbrev pub IsOf : String → Option Release → Type 0
IsOf id none = Unit
IsOf id (some r) = r.release_id ≡ id

-- What can happen on the page.
pub data Step : ReleasesPage → ReleasesPage → Type 0 where
  draft_opened : (p : ReleasesPage) (id : String) → Step p (open_draft id p)
  release_opened :
      (p : ReleasesPage) (id : String) (cached : Option Release)
      → IsOf id cached
      → Step p (open_release id cached p)
  followed : (p : ReleasesPage) → Step p (follow_address p)
  view_chosen : (p : ReleasesPage) (view : ListView) → Step p (record p { list_view = view })
  -- The query is enabled while the address has a release.
  answered :
      (p : ReleasesPage) (r : Release)
      → p.release_id ≡ some r.release_id
      → Step p (record p { requested = some r })
  target_chosen :
      (p : ReleasesPage) (target : Option Draft) → Step p (record p { publish_target = target })
  confirmed : (p : ReleasesPage) (e : Entropy) → Step p (confirm_publish e p)
  published :
      (p : ReleasesPage) (r : Release) (cached : Option Release)
      → p.publishing ≡ true
      → IsOf r.release_id cached
      → Step p (publish_succeeded r cached p)
  publish_refused :
      (p : ReleasesPage) → p.publishing ≡ true → Step p (record p { publishing = false })

pub data Reach : ReleasesPage → Type 0 where
  start : (draft_id : Option String) → Reach (first_releases_page draft_id none none)
  start_release :
      (draft_id : Option String) (id : String) (cached : Option Release)
      → IsOf id cached
      → Reach (first_releases_page draft_id (some id) cached)
  next : {p q : ReleasesPage} → Reach p → Step p q → Reach q
