-- ===== src/Examples/Controls.antt =====
-- The theorems of the refresh button and of the table of sites at small inputs.
use grouproxy.Base.{◌*◌, ◌≡◌, refl, true, false, some, [], ◌∷◌}
use grouproxy.Controls.{
  RefreshButton, first_button, refresh, refreshing, refresh_disabled, threw, Reach, start, next,
  clicked,
}
use grouproxy.Controls.Refreshing.{IsSteady, Reach-IsSteady, come_back, come_back-enabled}
use grouproxy.Clipboard.{Environment, Document, element}
use grouproxy.Sites.{count_at, counts_after}
use grouproxy.Sites.Counts.{nodes_at, count_at-counts_after}
use grouproxy.Examples.Pages.{node}

abbrev busy : RefreshButton
busy = refresh false first_button

busy-Reach : Reach busy
busy-Reach = next start (clicked first_button false)

busy-refreshing : busy.state ≡ refreshing
unfolding refresh
busy-refreshing = refl

Reach-IsSteady_example : IsSteady busy
Reach-IsSteady_example = Reach-IsSteady busy-Reach

come_back-enabled_example :
    (refresh_disabled false (come_back (threw "network_error") busy) ≡ false)
    × ((come_back (threw "network_error") busy).lock ≡ false)
    × ((come_back (threw "network_error") busy).calls ≡ 0)
come_back-enabled_example = come_back-enabled (threw "network_error") busy-Reach busy-refreshing

abbrev browser : Environment
browser = record { write_text = some false; has_body = true; exec_copy = some true }

abbrev page : Document
page = record { clipboard = "old"; text_areas = []; focus = element "button" }

count_at-counts_after_example :
    count_at "s1" (counts_after 3 (node ∷ node ∷ [])) ≡ 3 * nodes_at "s1" (node ∷ node ∷ [])
count_at-counts_after_example = count_at-counts_after 3 (node ∷ node ∷ []) "s1"
