-- ===== src/Probes.antt =====
-- frontend/app/probes/page.tsx: running a probe of a node and telling its end.
pub mod Running
pub mod Stuck
use grouproxy.Base.{
  ltb, ℕ, zero, suc, ◌+◌, ◌-◌, String, Bool, true, false, not, ◌≡◌, ◌≢◌, ◌&&◌, ◌||◌, Option, none,
  some, List, [], ◌∷◌, any, if◌then◌else◌, str_eq,
}
use grouproxy.Api.Session.{is_truthy}
use grouproxy.Api.Calls.{Call}
use grouproxy.Api.Calls.Nodes.{create_node_probe}
use grouproxy.Api.Entities.Nodes.{Node}
use grouproxy.Api.Entities.Releases.{Task}
use grouproxy.Api.Settled.{Settled, fulfilled, rejected}
use grouproxy.Api.Transport.{Entropy}
use grouproxy.Release.{Translator, contains}

-- `isFinishedProbeTask`
unfoldable pub is_finished_probe_task : Option Task → Bool
unfolding contains
is_finished_probe_task none = false
is_finished_probe_task (some task) =
    contains task.status ("succeeded" ∷ "failed" ∷ "cancelled" ∷ "dead_letter" ∷ [])

pub record Notice : Type 0 where
  pub title : String
  pub description : Option String
  pub success : Bool

-- What the page remembers, with the calls that it has sent, how many of them are on their way, and the
-- notices. `completed_task` is the task that `completedTaskRef` holds. `run_data` is the answer of the
-- mutation `runProbe`, and `created` the answer that it has while its `onSuccess` still waits.
-- `last_task` is what the query of the followed task has: it keeps the last answer when it is given
-- another task or none, which is `placeholderData` of frontend/app/providers.tsx.
pub record ProbesPage : Type 0 where
  pub selected_node_id : String
  pub target_url : String
  pub probe_task_id : Option String
  pub completed_task : Option String
  pub start_lock : Bool
  pub run_pending : Bool
  pub run_data : Option Task
  pub created : Option Task
  pub last_task : Option Task
  pub in_flight : ℕ
  pub calls : List Call
  pub notices : List Notice

abbrev pub first_page : ProbesPage
first_page = record {
  selected_node_id = "";
  target_url = "";
  probe_task_id = none;
  completed_task = none;
  start_lock = false;
  run_pending = false;
  run_data = none;
  created = none;
  last_task = none;
  in_flight = 0;
  calls = [];
  notices = [];
}

abbrev pub or_task : Option Task → Option Task → Option Task
or_task none other = other
or_task (some task) other = some task

-- `probeTask.data || runProbe.data`
unfoldable pub tracked_task : ProbesPage → Option Task
tracked_task p = or_task p.last_task p.run_data

abbrev pub is_running : Option Task → Bool
is_running none = false
is_running (some task) = not (is_finished_probe_task (some task))

unfoldable pub probe_is_active : ProbesPage → Bool
unfolding tracked_task
probe_is_active p = is_running (tracked_task p)

-- `startProbe`, with what `mutationFn` sends. A mutation that begins anew has no answer.
unfoldable pub start_probe : Entropy → ProbesPage → ProbesPage
unfolding probe_is_active
start_probe e p =
    if p.start_lock || p.run_pending || probe_is_active p || not (is_truthy p.selected_node_id)
    then p
    else record p {
      start_lock = true;
      run_pending = true;
      run_data = none;
      in_flight = p.in_flight + 1;
      calls = create_node_probe e p.selected_node_id (some p.target_url) none ∷ p.calls;
    }

-- `onSuccess` up to its `await`, and what follows it: `onSettled` and the answer of the mutation.
unfoldable pub probe_created : Task → ProbesPage → ProbesPage
probe_created task p = record p { probe_task_id = some task.task_id; created = some task }

unfoldable pub run_succeeded : Task → ProbesPage → ProbesPage
run_succeeded task p = record p {
  run_data = some task;
  created = none;
  run_pending = false;
  start_lock = false;
  in_flight = p.in_flight - 1;
}

-- `onSettled` after an error.
unfoldable pub run_failed : ProbesPage → ProbesPage
run_failed p = record p { run_pending = false; start_lock = false; in_flight = p.in_flight - 1 }

-- Another node is selected, and the effect that forgets the task.
unfoldable pub select_node : String → ProbesPage → ProbesPage
select_node id p = record p { selected_node_id = id; probe_task_id = none; completed_task = none }

-- The effects that choose the first node and the address of the settings.
unfoldable pub choose_node : List Node → ProbesPage → ProbesPage
unfolding select_node
choose_node [] p = p
choose_node (n ∷ ns) p = if is_truthy p.selected_node_id then p else select_node n.id p

unfoldable pub choose_url : Option String → ProbesPage → ProbesPage
choose_url none p = p
choose_url (some url) p =
    if is_truthy url && not (is_truthy p.target_url) then record p { target_url = url } else p

-- The effect that tells the end of the tracked task.
abbrev pub is_told : Option String → String → Bool
is_told none id = false
is_told (some told) id = str_eq told id

abbrev pub notice_of : Translator → Task → Notice
notice_of t task = record {
  title = t (if str_eq task.status "succeeded" then "Probe completed" else "Probe failed") [];
  description = if is_truthy task.error then some (t task.error []) else none;
  success = str_eq task.status "succeeded";
}

unfoldable pub tell_task : Translator → Option Task → ProbesPage → ProbesPage
unfolding is_finished_probe_task
tell_task t none p = p
tell_task t (some task) p =
    if not (is_finished_probe_task (some task)) || is_told p.completed_task task.task_id
    then p
    else record p { completed_task = some task.task_id; notices = notice_of t task ∷ p.notices }

unfoldable pub tell : Translator → ProbesPage → ProbesPage
unfolding tell_task tracked_task
tell t p = tell_task t (tracked_task p) p

-- What can happen on the page.
pub data Step : ProbesPage → ProbesPage → Type 0 where
  node_selected : (p : ProbesPage) (id : String) → Step p (select_node id p)
  url_typed : (p : ProbesPage) (value : String) → Step p (record p { target_url = value })
  nodes_loaded : (p : ProbesPage) (nodes : List Node) → Step p (choose_node nodes p)
  settings_loaded : (p : ProbesPage) (url : Option String) → Step p (choose_url url p)
  rendered : (p : ProbesPage) (t : Translator) → Step p (tell t p)
  clicked : (p : ProbesPage) (e : Entropy) → Step p (start_probe e p)
  created_answered :
      (p : ProbesPage) (task : Task) → ltb 0 p.in_flight ≡ true → Step p (probe_created task p)
  succeeded :
      (p : ProbesPage) (task : Task)
      → ltb 0 p.in_flight ≡ true
      → p.created ≡ some task
      → Step p (run_succeeded task p)
  failed : (p : ProbesPage) → ltb 0 p.in_flight ≡ true → Step p (run_failed p)
  -- The query is enabled while the page follows a task.
  task_loaded :
      (p : ProbesPage) (task : Task)
      → p.probe_task_id ≡ some task.task_id
      → Step p (record p { last_task = some task })

-- Any number of steps.
pub data Steps (p : ProbesPage) : ProbesPage → Type 0 where
  here : Steps p p
  next : {q r : ProbesPage} → Steps p q → Step q r → Steps p r
