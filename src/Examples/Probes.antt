-- ===== src/Examples/Probes.antt =====
-- The theorems of the probe page at one running probe.
use grouproxy.Base.{◌≡◌, refl, false, some}
use grouproxy.Probes.{
  ProbesPage, first_page, select_node, start_probe, tracked_task, is_finished_probe_task, Steps,
  here, next, node_selected, clicked,
}
use grouproxy.Probes.Running.{IsConsistent, Steps-IsConsistent}
use grouproxy.Probes.Stuck.{select_node-stuck}
use grouproxy.Examples.Subscriptions.{task, entropy}

abbrev clicked_page : ProbesPage
clicked_page = start_probe entropy (select_node "n1" first_page)

clicked-Steps : Steps first_page clicked_page
clicked-Steps =
    next (next here (node_selected first_page "n1")) (clicked (select_node "n1" first_page) entropy)

Steps-IsConsistent_example : IsConsistent clicked_page
Steps-IsConsistent_example = Steps-IsConsistent clicked-Steps

abbrev followed_page : ProbesPage
followed_page = record first_page {
  selected_node_id = "n1";
  probe_task_id = some "t";
  last_task = some (task "running");
}

followed_page-tracked : tracked_task followed_page ≡ some (task "running")
unfolding tracked_task
followed_page-tracked = refl

running-unfinished : is_finished_probe_task (some (task "running")) ≡ false
unfolding is_finished_probe_task
running-unfinished = refl

select_node-stuck_example :
    (start_probe entropy (select_node "n2" followed_page) ≡ select_node "n2" followed_page)
    × ((select_node "n2" followed_page).calls ≡ followed_page.calls)
select_node-stuck_example =
    select_node-stuck (task "running") followed_page "n2" running-unfinished followed_page-tracked
      refl here entropy
