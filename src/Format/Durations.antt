-- ===== src/Format/Durations.antt =====
-- The unit that a time to come is shown in.
use grouproxy.Base.{ℕ, ◌+◌, ◌*◌, ◌/◌, ◌≤◌, ◌<◌, arith, ltb, ltb→lt, Bool-cases, inl, inr}
use grouproxy.Format.{TimeUnit, millisecond, second, minute, hour, day, relative_of}

-- The minutes of a unit, and the amounts that it is used for.
abbrev pub minutes_in : TimeUnit → ℕ
minutes_in millisecond = 0
minutes_in second = 0
minutes_in minute = 1
minutes_in hour = 60
minutes_in day = 1440

abbrev pub IsUsedFor : TimeUnit → ℕ → Type 0
IsUsedFor millisecond n = ⊥
IsUsedFor second n = ⊥
IsUsedFor minute n = n < 60
IsUsedFor hour n = (1 ≤ n) × (n < 48)
IsUsedFor day n = 2 ≤ n

-- A time to come is shown in minutes below an hour, in hours below two days, and else in days, and it
-- is at least the amount that is shown, and less than one more of its unit.
pub relative_of_lem :
    (minutes : ℕ)
    → let r = relative_of minutes in
      IsUsedFor r.unit r.count
      × (r.count * minutes_in r.unit ≤ minutes)
      × (minutes < (r.count + 1) * minutes_in r.unit)
unfolding relative_of
relative_of_lem minutes = elim (Bool-cases (ltb minutes 60)) [
  | inl short ↦ rw short (ltb→lt minutes 60 short, omega arith, omega arith)
  | inr longer ↦ elim (Bool-cases (ltb (minutes / 60) 48)) [
    | inl hours ↦
        let least : 60 ≤ minutes = ground arith in
        let most = ltb→lt (minutes / 60) 48 hours in
        rw (longer, hours) ((omega arith, most), omega arith, omega arith)
    | inr days ↦
        let most : 48 ≤ minutes / 60 = ground arith in
        rw (longer, days) (omega arith, omega arith, omega arith)
  ]
]
