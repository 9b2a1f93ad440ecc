-- ===== src/Nodes.antt =====
-- frontend/app/nodes/page.tsx: the filter of the table, the rows that rename a site, the dialogs of a
-- node, and the notice on the error of the node that is inspected.
pub mod Rows
pub mod Notices
use grouproxy.Base.{
  String, ◌<>◌, Bool, true, false, not, ◌&&◌, ◌||◌, Option, none, some, List, [], ◌∷◌,
  if◌then◌else◌, str_eq,
}
use grouproxy.Api.Session.{is_truthy}
use grouproxy.Api.Url.{trim}
use grouproxy.Api.Calls.{Call}
use grouproxy.Api.Calls.Nodes.{update_node_name}
use grouproxy.Api.Entities.Nodes.{Node}

unfoldable pub needs_attention : Node → Bool
needs_attention n =
    not (str_eq n.liveness_status "online")
    || not (str_eq n.config_status "in_sync")
    || not (str_eq n.service_status "healthy")

unfoldable pub passes_filter : String → Node → Bool
unfolding needs_attention
passes_filter status n =
    if str_eq status "all"
    then true
    else if str_eq status "attention"
    then needs_attention n
    else str_eq n.liveness_status status

-- `rows`
unfoldable pub filtered_rows : String → List Node → List Node
unfolding passes_filter
filtered_rows status [] = []
filtered_rows status (n ∷ ns) =
    let rest = filtered_rows status ns in if passes_filter status n then n ∷ rest else rest

-- The identifier of the first row of a site.
unfoldable pub first_of_site : String → List Node → Option String
first_of_site site_id [] = none
first_of_site site_id (n ∷ ns) =
    let rest = first_of_site site_id ns in if str_eq n.site_id site_id then some n.id else rest

abbrev pub is_id : Option String → String → Bool
is_id none id = false
is_id (some found) id = str_eq found id

-- `firstSiteRow`: the row that has the button which renames its site.
unfoldable pub first_site_row : List Node → Node → Bool
unfolding first_of_site
first_site_row rows n = is_id (first_of_site n.site_id rows) n.id

-- What the page remembers of nodes. `renaming` says that a call of the dialog is on its way; an error
-- that was told is a key, and the empty text is none.
pub record NodesPage : Type 0 where
  pub selected : Option Node
  pub edit_node : Option Node
  pub edit_name : String
  pub renaming : Bool
  pub error_key : String
  pub told : List String

unfoldable pub open_edit : Node → NodesPage → NodesPage
open_edit n p = record p { edit_node = some n; edit_name = n.name; renaming = false }

unfoldable pub close_edit : NodesPage → NodesPage
close_edit p = if p.renaming then p else record p { edit_node = none }

unfoldable pub submit_edit : NodesPage → NodesPage × Option Call
submit_edit p = elim p.edit_node [
  | none ↦ (p, none)
  | some n ↦
      if p.renaming || not (is_truthy (trim p.edit_name))
      then (p, none)
      else (record p { renaming = true }, some (update_node_name n.id (trim p.edit_name)))
]

-- `onSuccess` of the renaming.
abbrev pub updated_in : Node → Option Node → Option Node
updated_in updated none = none
updated_in updated (some n) = if str_eq n.id updated.id then some updated else some n

unfoldable pub edit_succeeded : Node → NodesPage → NodesPage
edit_succeeded updated p = record p {
  edit_node = none;
  selected = updated_in updated p.selected;
  renaming = false;
}

unfoldable pub edit_failed : NodesPage → NodesPage
edit_failed p = record p { renaming = false }

-- The effect on the error of the selected node.
unfoldable pub tell_error : Option Node → NodesPage → NodesPage
tell_error none p = record p { error_key = "" }
tell_error (some n) p =
    let error = trim n.last_error in
    let key = n.agent_id <> (":" <> error) in
    if not (is_truthy error)
    then record p { error_key = "" }
    else if str_eq p.error_key key
    then p
    else record p { error_key = key; told = error ∷ p.told }

unfoldable pub tell_selected : NodesPage → NodesPage
unfolding tell_error
tell_selected p = tell_error p.selected p
