-- ===== src/Probes/Stuck.antt =====
-- What becomes of the page of frontend/app/probes/page.tsx when another node is selected after a probe.
use grouproxy.Base.{
  eq_refl, String, true, false, not, ◌&&◌, Option, none, some, List, [], ◌∷◌, ◌≡◌, refl, arith,
  Bool-cases, inl, inr,
}
use grouproxy.Api.Session.{is_truthy}
use grouproxy.Api.Transport.{Entropy}
use grouproxy.Api.Calls.{Call}
use grouproxy.Api.Entities.Nodes.{Node}
use grouproxy.Api.Entities.Releases.{Task}
use grouproxy.Release.{Translator}
use grouproxy.Probes.{
  is_finished_probe_task, ProbesPage, tracked_task, probe_is_active, start_probe, select_node,
  choose_node, choose_url, tell_task, tell, Step, node_selected, url_typed, nodes_loaded,
  settings_loaded, rendered, clicked, created_answered, succeeded, failed, task_loaded, notice_of,
  Steps, here, next,
}

-- The page follows no task, and the one that it still tracks had not ended.
record IsStuck (task : Task) (calls : List Call) (p : ProbesPage) : Type 0 where
  unfollowed : p.probe_task_id ≡ none
  tracked : tracked_task p ≡ some task
  quiet : p.in_flight ≡ 0
  sent : p.calls ≡ calls

module _ (task : Task) (unfinished : is_finished_probe_task (some task) ≡ false)
    (calls : List Call) where
  start_probe-stuck : {p : ProbesPage} (e : Entropy) → IsStuck task calls p → start_probe e p ≡ p
  unfolding start_probe
  start_probe-stuck {p} e h =
      let active : probe_is_active p ≡ true = rw (probe_is_active, h.tracked, unfinished) in
      ground (arith, active)

  choose_node-IsStuck :
      (nodes : List Node) (p : ProbesPage)
      → IsStuck task calls p
      → IsStuck task calls (choose_node nodes p)
  unfolding choose_node tracked_task
  choose_node-IsStuck [] p h = h
  choose_node-IsStuck (n ∷ ns) p h = elim (Bool-cases (is_truthy p.selected_node_id)) [
    | inl chosen ↦ rw chosen h
    | inr unset ↦
        rw unset (record { unfollowed = refl; tracked = h.tracked; quiet = h.quiet; sent = h.sent })
  ]

  choose_url-IsStuck :
      (url : Option String) (p : ProbesPage)
      → IsStuck task calls p
      → IsStuck task calls (choose_url url p)
  unfolding choose_url tracked_task
  choose_url-IsStuck none p h = h
  choose_url-IsStuck (some url) p h =
      elim (Bool-cases (is_truthy url && not (is_truthy p.target_url))) [
        | inl chosen ↦ rw chosen (record {
          unfollowed = h.unfollowed;
          tracked = h.tracked;
          quiet = h.quiet;
          sent = h.sent;
        })
        | inr kept ↦ rw kept h
      ]

  tell-IsStuck :
      (t : Translator) (p : ProbesPage) → IsStuck task calls p → IsStuck task calls (tell t p)
  unfolding tell tell_task
  tell-IsStuck t p h = rw (h.tracked, tell_task, unfinished) h

  Step-IsStuck : {p q : ProbesPage} → Step p q → IsStuck task calls p → IsStuck task calls q
  unfolding select_node tracked_task
  Step-IsStuck (node_selected p id) h = record {
    unfollowed = refl;
    tracked = h.tracked;
    quiet = h.quiet;
    sent = h.sent;
  }
  Step-IsStuck (url_typed p value) h = record {
    unfollowed = h.unfollowed;
    tracked = h.tracked;
    quiet = h.quiet;
    sent = h.sent;
  }
  Step-IsStuck (nodes_loaded p nodes) h = choose_node-IsStuck nodes p h
  Step-IsStuck (settings_loaded p url) h = choose_url-IsStuck url p h
  Step-IsStuck (rendered p t) h = tell-IsStuck t p h
  Step-IsStuck (clicked p e) h = rw (start_probe-stuck e h) h
  Step-IsStuck (created_answered p _ waits) h = absurd (ground (arith, h.quiet))
  Step-IsStuck (succeeded p _ waits answered) h = absurd (ground (arith, h.quiet))
  Step-IsStuck (failed p waits) h = absurd (ground (arith, h.quiet))
  Step-IsStuck (task_loaded p _ followed) h = absurd (cc (h.unfollowed, followed))

  Steps-IsStuck : {p q : ProbesPage} → Steps p q → IsStuck task calls p → IsStuck task calls q
  Steps-IsStuck here h = h
  Steps-IsStuck (next r step) h = Step-IsStuck step (Steps-IsStuck r h)

-- While the last known state of a probe is that it has not ended, selecting another node leaves the
-- page without a way to run one: whatever happens then, the button does nothing, and no further call
-- is sent. No call is on its way when the node is selected.
pub select_node-stuck :
    (task : Task) (p : ProbesPage) (id : String)
    → is_finished_probe_task (some task) ≡ false
    → tracked_task p ≡ some task
    → p.in_flight ≡ 0
    → {q : ProbesPage} → Steps (select_node id p) q
    → (e : Entropy) → (start_probe e q ≡ q) × (q.calls ≡ p.calls)
unfolding select_node tracked_task
select_node-stuck task p id unfinished tracked quiet steps e =
    let stuck =
      Steps-IsStuck task unfinished p.calls steps
        (record { unfollowed = refl; tracked = tracked; quiet = quiet; sent = refl }) in
    (start_probe-stuck task unfinished p.calls e stuck, stuck.sent)

-- After the end of a probe was told, selecting another node makes the next render tell it again.
pub tell-select_node :
    (t : Translator) (task : Task) (p : ProbesPage) (id : String)
    → is_finished_probe_task (some task) ≡ true
    → tracked_task p ≡ some task
    → p.completed_task ≡ some task.task_id
    → (tell t p ≡ p) × ((tell t (select_node id p)).notices ≡ notice_of t task ∷ p.notices)
unfolding tell select_node tell_task tracked_task
tell-select_node t task p id finished tracked told = (
  rw (tracked, tell_task, finished, told, eq_refl task.task_id),
  rw (tracked, tell_task, finished),
)
