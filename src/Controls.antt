-- ===== src/Controls.antt =====
-- frontend/components/ui.tsx: the class names of buttons and badges, and the refresh button with its
-- lock and its timer.
pub mod Refreshing
use grouproxy.Base.{
  ℕ, zero, ltb, ◌≡◌, suc, ◌+◌, ◌-◌, String, Char, code, ◌<>◌, Bool, true, false, not, ◌&&◌, ◌||◌,
  Option, none, some, List, [], ◌∷◌, leb, ◌==◌, if◌then◌else◌, str_eq,
}
use grouproxy.Format.{cn}
use grouproxy.Release.{contains}

pub data ButtonVariant : Type 0 where
  primary secondary ghost danger : ButtonVariant

pub data ButtonSize : Type 0 where
  sm md : ButtonSize

abbrev pub variant_name : ButtonVariant → String
variant_name primary = "primary"
variant_name secondary = "secondary"
variant_name ghost = "ghost"
variant_name danger = "danger"

abbrev pub size_name : ButtonSize → String
size_name sm = "sm"
size_name md = "md"

unfoldable pub button_class : ButtonVariant → ButtonSize → Option String → String
unfolding cn
button_class variant size class_name = cn (
    some "button"
    ∷ some ("button-" <> variant_name variant)
    ∷ some ("button-" <> size_name size)
    ∷ class_name
    ∷ [])

-- `s.replaceAll("_", "-")`
unfoldable pub with_dashes : String → String
with_dashes String.[] = ""
with_dashes (String.◌∷◌ c s) =
    let rest = with_dashes s in if code c == b'_' then String.◌∷◌ "-" rest else String.◌∷◌ c rest

-- The tone of a badge; `lower` is `toLowerCase`.
unfoldable pub badge_tone : (String → String) → String → String
unfolding with_dashes contains
badge_tone lower status =
    let normalized = with_dashes (lower status) in
    if contains normalized (
      "online" ∷ "in-sync" ∷ "healthy" ∷ "succeeded" ∷ "allowed" ∷ "enabled" ∷ "valid" ∷ "active"
      ∷ "current" ∷ "published" ∷ "ready" ∷ [])
    then "success"
    else if contains normalized (
        "offline" ∷ "failed" ∷ "rollback-failed" ∷ "unhealthy" ∷ "dead-letter" ∷ "denied"
        ∷ "shutdown" ∷ [])
    then "danger"
    else if contains normalized ("critical" ∷ [])
    then "danger"
    else if contains normalized (
        "applying" ∷ "health-check" ∷ "queued" ∷ "running" ∷ "degraded" ∷ "drift" ∷ "pending"
        ∷ "attention" ∷ "high" ∷ "medium" ∷ "warning" ∷ "expired" ∷ "rolled-back" ∷ [])
    then "warning"
    else if contains normalized ("resolved" ∷ [])
    then "success"
    else "neutral"

-- What the promise of a refresh holds: an array, an object with or without an error, or another
-- value. An error is none where it counts as false.
mutual
  pub data RefreshResult : Type 0 where
    array : RefreshResults → RefreshResult
    with_error : Option String → RefreshResult
    other : RefreshResult

  pub data RefreshResults : Type 0 where
    nil : RefreshResults
    cons : RefreshResult → RefreshResults → RefreshResults

abbrev pub first_error : Option String → Option String → Option String
first_error none later = later
first_error (some error) later = some error

-- `refreshResultError`
unfoldable mutual
  pub refresh_result_error : RefreshResult → Option String
  refresh_result_error (array items) = first_result_error items
  refresh_result_error (with_error error) = error
  refresh_result_error other = none

  pub first_result_error : RefreshResults → Option String
  first_result_error nil = none
  first_result_error (cons item items) =
      first_error (refresh_result_error item) (first_result_error items)

pub data RefreshState : Type 0 where
  idle refreshing succeeded : RefreshState

abbrev pub is_idle : RefreshState → Bool
is_idle idle = true
is_idle refreshing = false
is_idle succeeded = false

-- The button: its state, its lock, whether its timer runs, how many calls of `onRefresh` are on their
-- way, and the failures that it has told.
pub record RefreshButton : Type 0 where
  pub state : RefreshState
  pub lock : Bool
  pub timer : Bool
  pub calls : ℕ
  pub failures : List String

abbrev pub first_button : RefreshButton
first_button = record { state = idle; lock = false; timer = false; calls = 0; failures = [] }

-- `refresh`, up to its `await`.
unfoldable pub refresh : Bool → RefreshButton → RefreshButton
refresh disabled b =
    if disabled || b.lock || not (is_idle b.state)
    then b
    else record b { lock = true; state = refreshing; calls = b.calls + 1 }

-- How `onRefresh` ends: with a value, or with the message of what it throws.
pub data RefreshEnd : Type 0 where
  returned : RefreshResult → RefreshEnd
  threw : String → RefreshEnd

unfoldable pub end_error : RefreshEnd → Option String
unfolding refresh_result_error
end_error (returned result) = refresh_result_error result
end_error (threw message) = some message

unfoldable pub refresh_ended : Option String → RefreshButton → RefreshButton
refresh_ended none b = record b { state = succeeded; timer = true; calls = b.calls - 1 }
refresh_ended (some message) b = record b {
  lock = false;
  state = idle;
  calls = b.calls - 1;
  failures = message ∷ b.failures;
}

-- `refresh`, after its `await`.
unfoldable pub refresh_settled : RefreshEnd → RefreshButton → RefreshButton
unfolding refresh_ended end_error
refresh_settled end b = refresh_ended (end_error end) b

-- The timer fires.
unfoldable pub timer_fired : RefreshButton → RefreshButton
timer_fired b = record b { lock = false; state = idle; timer = false }

unfoldable pub refresh_disabled : Bool → RefreshButton → Bool
refresh_disabled disabled b = disabled || not (is_idle b.state)

-- What can happen to a mounted button, whatever its `disabled` is at the time.
pub data Step : RefreshButton → RefreshButton → Type 0 where
  clicked : (b : RefreshButton) (disabled : Bool) → Step b (refresh disabled b)
  settled :
      (b : RefreshButton) (end : RefreshEnd) → ltb 0 b.calls ≡ true → Step b (refresh_settled end b)
  fired : (b : RefreshButton) → b.timer ≡ true → Step b (timer_fired b)

pub data Reach : RefreshButton → Type 0 where
  start : Reach first_button
  next : {a b : RefreshButton} → Reach a → Step a b → Reach b
