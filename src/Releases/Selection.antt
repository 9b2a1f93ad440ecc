-- ===== src/Releases/Selection.antt =====
-- The release that frontend/app/releases/page.tsx shows is the one of its address.
use grouproxy.Base.{String, true, ◌≡◌, Option, none, some, List, Bool-cases, Option-cases, inl, inr}
use grouproxy.Api.Transport.{Entropy}
use grouproxy.Api.Entities.Releases.{Release}
use grouproxy.Releases.Page.{
  ReleasesPage, first_releases_page, selected_release, is_given, follow_address, open_draft,
  open_release, confirm_publish, publish_succeeded, IsOf, Step, draft_opened, release_opened,
  followed, view_chosen, answered, target_chosen, confirmed, published, publish_refused, Reach,
  start, start_release, next,
}

-- What the query has is the release of the address.
abbrev IsRequested : Option String → Option Release → Type 0
IsRequested id none = Unit
IsRequested id (some r) = id ≡ some r.release_id

IsOf-IsRequested :
    (id : String) (cached : Option Release) → IsOf id cached → IsRequested (some id) cached
IsOf-IsRequested id none h = tt
IsOf-IsRequested id (some r) h = cc

record IsTrue (p : ReleasesPage) : Type 0 where
  held : IsRequested p.release_id p.requested

follow_address-IsTrue : (p : ReleasesPage) → IsTrue p → IsTrue (follow_address p)
unfolding follow_address
follow_address-IsTrue p h = elim (Bool-cases (is_given p.draft_id)) [
  | inl draft ↦ rw draft (record { held = h.held })
  | inr other ↦ elim (Bool-cases (is_given p.release_id)) [
    | inl release ↦ rw (other, release) (record { held = h.held })
    | inr nothing ↦ rw (other, nothing) h
  ]
]

confirm_publish-IsTrue : (e : Entropy) (p : ReleasesPage) → IsTrue p → IsTrue (confirm_publish e p)
unfolding confirm_publish
confirm_publish-IsTrue e p h = elim (Option-cases p.publish_target) [
  | inl nothing ↦ rw nothing (record { held = h.held })
  | inr (draft, here) ↦ elim (Bool-cases p.publishing) [
    | inl busy ↦ rw (here, busy) (record { held = h.held })
    | inr free ↦ rw (here, free) (record { held = h.held })
  ]
]

Step-IsTrue : {p q : ReleasesPage} → Step p q → IsTrue p → IsTrue q
unfolding open_draft open_release publish_succeeded
Step-IsTrue (draft_opened p id) h = record { held = tt }
Step-IsTrue (release_opened p id cached k) h = record { held = IsOf-IsRequested id cached k }
Step-IsTrue (followed p) h = follow_address-IsTrue p h
Step-IsTrue (view_chosen p view) h = record { held = h.held }
Step-IsTrue (answered p r k) h = record { held = k }
Step-IsTrue (target_chosen p target) h = record { held = h.held }
Step-IsTrue (confirmed p e) h = confirm_publish-IsTrue e p h
Step-IsTrue (published p r cached busy k) h = record {
  held = IsOf-IsRequested r.release_id cached k;
}
Step-IsTrue (publish_refused p busy) h = record { held = h.held }

Reach-IsTrue : {p : ReleasesPage} → Reach p → IsTrue p
unfolding first_releases_page
Reach-IsTrue (start draft_id) = record { held = tt }
Reach-IsTrue (start_release draft_id id cached k) = record { held = IsOf-IsRequested id cached k }
Reach-IsTrue (next r step) = Step-IsTrue step (Reach-IsTrue r)

-- In every state that the page reaches, while its address has a release, the release that it shows,
-- if it shows one, is that release, whatever the list of releases has and whatever the server has
-- answered before.
pub selected_release-requested :
    {p : ReleasesPage} (items : List Release) (r : Release)
    → Reach p
    → is_given p.release_id ≡ true
    → selected_release items p ≡ some r
    → p.release_id ≡ some r.release_id
unfolding selected_release
selected_release-requested {p} items r reached given shown =
    let here : p.requested ≡ some r = rw given at shown in rw here at ((Reach-IsTrue reached).held)
