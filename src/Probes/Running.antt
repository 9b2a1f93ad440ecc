-- ===== src/Probes/Running.antt =====
-- The page of frontend/app/probes/page.tsx runs one probe at a time.
use grouproxy.Base.{
  String, Bool, false, not, ◌||◌, Option, none, some, List, [], ◌∷◌, ◌≡◌, refl, arith,
  if◌then◌else◌, Bool-cases, inl, inr,
}
use grouproxy.Api.Session.{is_truthy}
use grouproxy.Api.Transport.{Entropy}
use grouproxy.Api.Entities.Nodes.{Node}
use grouproxy.Api.Entities.Releases.{Task}
use grouproxy.Release.{Translator}
use grouproxy.Probes.{
  is_finished_probe_task, ProbesPage, first_page, tracked_task, probe_is_active, start_probe,
  select_node, choose_node, choose_url, is_told, tell_task, tell, Step, node_selected, url_typed,
  nodes_loaded, settings_loaded, rendered, clicked, created_answered, succeeded, failed,
  task_loaded, probe_created, run_succeeded, run_failed, Steps, here, next,
}

-- The lock, the state of the mutation and the calls on their way agree.
pub record IsConsistent (p : ProbesPage) : Type 0 where
  pub locked : p.start_lock ≡ p.run_pending
  pub counted : p.in_flight ≡ (if p.run_pending then 1 else 0)

choose_node-IsConsistent :
    (nodes : List Node) (p : ProbesPage) → IsConsistent p → IsConsistent (choose_node nodes p)
unfolding choose_node
choose_node-IsConsistent [] p h = h
choose_node-IsConsistent (n ∷ ns) p h = ground arith

choose_url-IsConsistent :
    (url : Option String) (p : ProbesPage) → IsConsistent p → IsConsistent (choose_url url p)
unfolding choose_url
choose_url-IsConsistent none p h = h
choose_url-IsConsistent (some url) p h = ground arith

tell_task-IsConsistent :
    (t : Translator) (task : Option Task) (p : ProbesPage)
    → IsConsistent p
    → IsConsistent (tell_task t task p)
unfolding tell_task
tell_task-IsConsistent t none p h = h
tell_task-IsConsistent t (some task) p h =
    elim (Bool-cases
      (not (is_finished_probe_task (some task)) || is_told p.completed_task task.task_id)) [
        | inl silent ↦ rw silent h
        | inr new ↦ rw new (record { locked = h.locked; counted = h.counted })
      ]

second_false : (a b c d : Bool) → (a || b || c || d) ≡ false → b ≡ false
second_false a b c d h = ground arith

start_probe-IsConsistent :
    (e : Entropy) (p : ProbesPage) → IsConsistent p → IsConsistent (start_probe e p)
unfolding start_probe
start_probe-IsConsistent e p h =
    elim (Bool-cases
      (p.start_lock || p.run_pending || probe_is_active p || not (is_truthy p.selected_node_id))) [
        | inl shut ↦ rw shut h
        | inr free ↦
            let idle = second_false p.start_lock p.run_pending (probe_is_active p) _ free in
            let none_there : p.in_flight ≡ 0 = ground (arith, h.counted, idle) in
            rw free (record { locked = refl; counted = omega (arith, none_there) })
      ]

Step-IsConsistent : {p q : ProbesPage} → Step p q → IsConsistent p → IsConsistent q
unfolding select_node tell probe_created run_succeeded run_failed
Step-IsConsistent (node_selected p id) h = record { locked = h.locked; counted = h.counted }
Step-IsConsistent (url_typed p value) h = record { locked = h.locked; counted = h.counted }
Step-IsConsistent (nodes_loaded p nodes) h = choose_node-IsConsistent nodes p h
Step-IsConsistent (settings_loaded p url) h = choose_url-IsConsistent url p h
Step-IsConsistent (rendered p t) h = tell_task-IsConsistent t (tracked_task p) p h
Step-IsConsistent (clicked p e) h = start_probe-IsConsistent e p h
Step-IsConsistent (created_answered p task waits) h = record {
  locked = h.locked;
  counted = h.counted;
}
Step-IsConsistent (succeeded p task waits answered) h = record {
  locked = refl;
  counted = ground (arith, h.counted);
}
Step-IsConsistent (failed p waits) h = record { locked = refl; counted = ground (arith, h.counted) }
Step-IsConsistent (task_loaded p task followed) h = record {
  locked = h.locked;
  counted = h.counted;
}

-- In every state that the page reaches, the lock is held and the mutation is pending exactly while one
-- probe that the page has asked for is on its way, and there is never a second one.
pub Steps-IsConsistent : {p : ProbesPage} → Steps first_page p → IsConsistent p
Steps-IsConsistent here = record { locked = refl; counted = refl }
Steps-IsConsistent (next r step) = Step-IsConsistent step (Steps-IsConsistent r)
