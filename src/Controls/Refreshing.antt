-- ===== src/Controls/Refreshing.antt =====
-- The refresh button of frontend/components/ui.tsx: one refresh at a time, and it comes back.
use grouproxy.Base.{
  ℕ, String, Bool, true, false, not, Option, none, some, ◌≡◌, refl, ltb, arith, if◌then◌else◌, ap,
  ◌∙◌,
}
use grouproxy.Controls.{
  RefreshState, idle, refreshing, succeeded, is_idle, RefreshButton, refresh, RefreshEnd,
  refresh_ended, refresh_settled, end_error, timer_fired, refresh_disabled, Step, clicked, settled,
  fired, Reach, start, next,
}

abbrev pub is_succeeded : RefreshState → Bool
is_succeeded idle = false
is_succeeded refreshing = false
is_succeeded succeeded = true

abbrev pub calls_in : RefreshState → ℕ
calls_in idle = 0
calls_in refreshing = 1
calls_in succeeded = 0

-- The lock is held exactly while the button is not idle, the timer runs exactly while it shows a
-- success, and exactly one call is on its way while it is refreshing.
pub record IsSteady (b : RefreshButton) : Type 0 where
  pub locked : b.lock ≡ not (is_idle b.state)
  pub timed : b.timer ≡ is_succeeded b.state
  pub counted : b.calls ≡ calls_in b.state

refresh-IsSteady :
    (disabled : Bool) (b : RefreshButton) → IsSteady b → IsSteady (refresh disabled b)
unfolding refresh
refresh-IsSteady disabled b h = ground arith

refresh_ended-IsSteady :
    (e : Option String) (b : RefreshButton)
    → ltb 0 b.calls ≡ true
    → IsSteady b
    → IsSteady (refresh_ended e b)
unfolding refresh_ended
refresh_ended-IsSteady none b waits h = ground arith
refresh_ended-IsSteady (some m) b waits h = ground arith

Step-IsSteady : {a b : RefreshButton} → Step a b → IsSteady a → IsSteady b
unfolding refresh_settled timer_fired
Step-IsSteady (clicked b disabled) h = refresh-IsSteady disabled b h
Step-IsSteady (settled b end waits) h = refresh_ended-IsSteady (end_error end) b waits h
Step-IsSteady (fired b runs) h = ground arith

-- In every state that the refresh button reaches, its lock is held exactly while it is not idle, its
-- timer runs exactly while it shows a success, and one call is on its way exactly while it is
-- refreshing, and else none: nothing is refreshed twice at once, and a button that is not idle has a
-- call or a timer to come.
pub Reach-IsSteady : {b : RefreshButton} → Reach b → IsSteady b
Reach-IsSteady start = record { locked = refl; timed = refl; counted = refl }
Reach-IsSteady (next r step) = Step-IsSteady step (Reach-IsSteady r)

-- A settled refresh and the timer that it may have started.
unfoldable pub come_back : RefreshEnd → RefreshButton → RefreshButton
come_back end b =
    let after = refresh_settled end b in if after.timer then timer_fired after else after

-- From every state that the button reaches while it is refreshing, once the call has ended, however it
-- does, and the timer has fired if one was started, the button can be used again.
pub come_back-enabled :
    {b : RefreshButton} (end : RefreshEnd)
    → Reach b
    → b.state ≡ refreshing
    → (refresh_disabled false (come_back end b) ≡ false)
      × ((come_back end b).lock ≡ false)
      × ((come_back end b).calls ≡ 0)
unfolding refresh_disabled come_back refresh_settled refresh_ended timer_fired
come_back-enabled {b} end reached busy = let h = Reach-IsSteady reached in ended (end_error end) h
  where
    ended :
        (e : Option String)
        → IsSteady b
        → let after = refresh_ended e b in
          let c = if after.timer then timer_fired after else after in
          (refresh_disabled false c ≡ false) × (c.lock ≡ false) × (c.calls ≡ 0)
    ended none h =
        let one : b.calls ≡ 1 = h.counted ∙ ap calls_in busy in (refl, refl, omega (arith, one))
    ended (some m) h = ground arith
