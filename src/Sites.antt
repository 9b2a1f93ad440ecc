-- ===== src/Sites.antt =====
-- frontend/app/sites/page.tsx: the count of nodes in the table, and the dialogs that rename a site and
-- shut its listener.
pub mod Counts
use grouproxy.Base.{
  ℕ, zero, suc, ◌+◌, String, Bool, true, false, not, ◌||◌, Option, none, some, List, [], ◌∷◌,
  if◌then◌else◌,
}
use grouproxy.Base.Dict.{lookup, insert}
use grouproxy.Api.Session.{is_truthy}
use grouproxy.Api.Url.{trim}
use grouproxy.Api.Calls.{Call}
use grouproxy.Api.Calls.Sites.{set_site_shutdown, update_site_name}
use grouproxy.Api.Entities.Nodes.{Node, Site}

-- `new Map(nodes.map((node) => [node.site_id, 0]))`
unfoldable pub add_zeros : List Node → List (String × ℕ) → List (String × ℕ)
add_zeros [] counts = counts
add_zeros (n ∷ ns) counts = add_zeros ns (insert n.site_id 0 counts)

unfoldable pub first_counts : List Node → List (String × ℕ)
unfolding add_zeros
first_counts nodes = add_zeros nodes []

abbrev pub or_zero : Option ℕ → ℕ
or_zero none = 0
or_zero (some n) = n

-- `nodeCount.get(id) || 0`
unfoldable pub count_at : String → List (String × ℕ) → ℕ
count_at id counts = or_zero (lookup id counts)

-- The loop of a render, over the map that `useMemo` keeps from render to render.
unfoldable pub count_nodes : List Node → List (String × ℕ) → List (String × ℕ)
unfolding count_at
count_nodes [] counts = counts
count_nodes (n ∷ ns) counts =
    count_nodes ns (insert n.site_id (count_at n.site_id counts + 1) counts)

-- The map after some renders with the same nodes.
unfoldable pub counts_after : ℕ → List Node → List (String × ℕ)
unfolding count_nodes first_counts
counts_after zero nodes = first_counts nodes
counts_after (suc renders) nodes = count_nodes nodes (counts_after renders nodes)

-- What the page remembers of its dialogs; `renaming` and `closing` say that a call is on its way.
pub record SitesPage : Type 0 where
  pub target : Option Site
  pub edit_site : Option Site
  pub edit_name : String
  pub renaming : Bool
  pub closing : Bool

unfoldable pub open_rename : Site → SitesPage → SitesPage
open_rename site p = record p { edit_site = some site; edit_name = site.name; renaming = false }

unfoldable pub close_rename : SitesPage → SitesPage
close_rename p = if p.renaming then p else record p { edit_site = none }

-- The form of the dialog: the page, and what it sends.
unfoldable pub submit_rename : SitesPage → SitesPage × Option Call
submit_rename p = elim p.edit_site [
  | none ↦ (p, none)
  | some site ↦
      if p.renaming || not (is_truthy (trim p.edit_name))
      then (p, none)
      else (record p { renaming = true }, some (update_site_name site.id (trim p.edit_name)))
]

unfoldable pub renamed : SitesPage → SitesPage
renamed p = record p { edit_site = none; renaming = false }

unfoldable pub confirm_shutdown : SitesPage → SitesPage × Option Call
confirm_shutdown p = elim p.target [
  | none ↦ (p, none)
  | some site ↦
      if p.closing
      then (p, none)
      else (record p { closing = true }, some (set_site_shutdown site.id (not site.shutdown)))
]

unfoldable pub shutdown_done : SitesPage → SitesPage
shutdown_done p = record p { target = none; closing = false }
