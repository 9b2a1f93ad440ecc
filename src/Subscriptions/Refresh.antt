-- ===== src/Subscriptions/Refresh.antt =====
-- `waitForRefreshTask` of frontend/app/subscriptions/page.tsx (lines 60-73).
use grouproxy.Base.{
  test_of_ne, String, ◌≢◌, refl, ◌∙◌, ◌⊎◌, inl, inr, ℕ, suc, ◌+◌, Bool, true, false, ◌||◌, ◌≡◌, ap,
  List, [], ◌∷◌, ◌++◌, length, All, arith, if◌then◌else◌, str_eq,
}
use grouproxy.Api.Session.{is_truthy}
use grouproxy.Api.Settled.{Settled, fulfilled, rejected}
use grouproxy.Api.Entities.Releases.{Task}

unfoldable pub is_finished_refresh_task : Task → Bool
is_finished_refresh_task task =
    str_eq task.status "succeeded"
    || str_eq task.status "failed"
    || str_eq task.status "cancelled"
    || str_eq task.status "dead_letter"

-- What a finished task ends the wait with.
unfoldable pub task_result : Task → Settled Task
task_result task =
    if str_eq task.status "succeeded"
    then fulfilled task
    else rejected (if is_truthy task.error then task.error else "subscription_refresh_failed")

-- How far the loop is: it waits still, after that many pauses of a second, or it has ended.
pub data Wait : Type 0 where
  waiting : ℕ → Wait
  ended : ℕ → Settled Task → Wait

-- The loop over the answers to `getTask`, in the order in which they come.
unfoldable pub wait_for_refresh_task : ℕ → List (Settled Task) → Wait
unfolding is_finished_refresh_task task_result
wait_for_refresh_task pauses [] = waiting pauses
wait_for_refresh_task pauses (rejected message ∷ answers) = ended pauses (rejected message)
wait_for_refresh_task pauses (fulfilled task ∷ answers) =
    let rest = wait_for_refresh_task (suc pauses) answers in
    if is_finished_refresh_task task then ended pauses (task_result task) else rest

-- The answer shows a task on its way: its state is none of the four that the server ends tasks in.
abbrev pub IsUnderway : Settled Task → Type 0
IsUnderway (fulfilled task) =
    (task.status ≢ "succeeded")
    × (task.status ≢ "failed")
    × (task.status ≢ "cancelled")
    × (task.status ≢ "dead_letter")
IsUnderway (rejected message) = ⊥

-- The task has ended without success.
abbrev pub IsLost : Task → Type 0
IsLost task = (task.status ≡ "failed") ⊎ (task.status ≡ "cancelled") ⊎ (task.status ≡ "dead_letter")

-- What the last answer should end the wait with.
pub data Outcome : Settled Task → Settled Task → Type 0 where
  refreshed : (task : Task) → task.status ≡ "succeeded" → Outcome (fulfilled task) (fulfilled task)
  explained :
      (task : Task) → IsLost task → task.error ≢ "" → Outcome (fulfilled task) (rejected task.error)
  unexplained :
      (task : Task)
      → IsLost task
      → task.error ≡ ""
      → Outcome (fulfilled task) (rejected "subscription_refresh_failed")
  refused : (message : String) → Outcome (rejected message) (rejected message)

underway-unfinished :
    (task : Task) → IsUnderway (fulfilled task) → is_finished_refresh_task task ≡ false
unfolding is_finished_refresh_task
underway-unfinished task h = rw (
  test_of_ne task.status "succeeded" h.0,
  test_of_ne task.status "failed" h.1,
  test_of_ne task.status "cancelled" h.2,
  test_of_ne task.status "dead_letter" h.3,
)

lost-finished :
    (task : Task)
    → IsLost task
    → (is_finished_refresh_task task ≡ true) × (str_eq task.status "succeeded" ≡ false)
unfolding is_finished_refresh_task
lost-finished task (inl e) = rw e (refl, refl)
lost-finished task (inr (inl e)) = rw e (refl, refl)
lost-finished task (inr (inr e)) = rw e (refl, refl)

-- The last answer ends the wait with its outcome.
wait-Outcome :
    (after : List (Settled Task)) (last result : Settled Task) (pauses : ℕ)
    → Outcome last result
    → wait_for_refresh_task pauses (last ∷ after) ≡ ended pauses result
unfolding wait_for_refresh_task is_finished_refresh_task task_result
wait-Outcome after _ _ pauses (refreshed task e) = rw e refl
wait-Outcome after _ _ pauses (explained task lost given) =
    let known = lost-finished task lost in
    rw (known.0, known.1, test_of_ne task.error "" given) refl
wait-Outcome after _ _ pauses (unexplained task lost none_given) =
    let known = lost-finished task lost in rw (known.0, known.1, none_given) refl
wait-Outcome after _ _ pauses (refused message) = refl

-- The wait for a refresh ends: after any number of answers that show a task on its way, the first
-- answer that shows a task that has succeeded, failed, been cancelled or been given up ends it,
-- whatever would come after it, and a pause has gone by for each answer before it. A success ends it
-- with the task, any other end with the error of the task or the general one, and an error of the
-- server ends it with that error. While every answer shows a task on its way, the wait goes on.
pub wait_for_refresh_task-Ends :
    (running after : List (Settled Task)) (last result : Settled Task) (pauses : ℕ)
    → All IsUnderway running
    → Outcome last result
    → (wait_for_refresh_task pauses (running ++ (last ∷ after))
        ≡ ended (length running + pauses) result)
      × (wait_for_refresh_task pauses running ≡ waiting (length running + pauses))
unfolding wait_for_refresh_task
wait_for_refresh_task-Ends [] after last result pauses h e = (
  wait-Outcome after last result pauses e ∙ ap (λ n. ended n result) (omega arith),
  ap waiting (omega arith),
)
wait_for_refresh_task-Ends (fulfilled task ∷ running) after last result pauses h e =
    let rest = wait_for_refresh_task-Ends running after last result (suc pauses) h.1 e in
    let free = underway-unfinished task h.0 in
    (
      rw (free, rest.0) (ap (λ n. ended n result) (omega arith)),
      rw (free, rest.1) (ap waiting (omega arith)),
    )
wait_for_refresh_task-Ends (rejected message ∷ running) after last result pauses h e = absurd h.0
