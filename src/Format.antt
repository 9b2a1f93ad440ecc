-- ===== src/Format.antt =====
-- frontend/lib/utils.ts: class names, short hashes, byte counts and durations. A text's length counts code
-- points, which are the code's UTF-16 units for hashes; `format` is `Intl.NumberFormat`.
pub mod Bytes
pub mod Hashes
pub mod Durations
use grouproxy.Base.{
  ℕ, zero, suc, ◌+◌, ◌*◌, ◌/◌, ltb, String, ◌<>◌, Option, none, some, List, [], ◌∷◌, leb,
  if◌then◌else◌, str_eq, Bool,
}
use grouproxy.Base.Int.{ℤ, pos, negsuc}
use grouproxy.Locale.{size}

-- `values.filter(Boolean).join(" ")`; `none` is false, null or undefined.
unfoldable pub present : List (Option String) → List String
present [] = []
present (none ∷ values) = present values
present (some value ∷ values) =
    let rest = present values in if str_eq value "" then rest else value ∷ rest

unfoldable pub join_words : List String → String
join_words [] = ""
join_words (word ∷ []) = word
join_words (word ∷ next ∷ words) = word <> (" " <> join_words (next ∷ words))

unfoldable pub cn : List (Option String) → String
unfolding present join_words
cn values = join_words (present values)

-- `value.slice(0, length)`
unfoldable pub slice : ℕ → String → String
slice zero s = ""
slice (suc n) String.[] = ""
slice (suc n) (String.◌∷◌ c s) = String.◌∷◌ c (slice n s)

unfoldable pub short_hash : ℕ → String → String
unfolding slice
short_hash length value =
    if str_eq value ""
    then "-"
    else if leb (size value) length
    then value
    else slice length value <> "..."

pub data ByteUnit : Type 0 where
  byte kilobyte megabyte gigabyte terabyte : ByteUnit

-- `units[unitIndex]`
abbrev pub unit_at : ℕ → ByteUnit
unit_at zero = byte
unit_at (suc zero) = kilobyte
unit_at (suc (suc zero)) = megabyte
unit_at (suc (suc (suc zero))) = gigabyte
unit_at (suc (suc (suc (suc _)))) = terabyte

-- What `formatBytes` is given: nothing, no finite number, a negative one, or a count.
pub data ByteCount : Type 0 where
  missing not_finite negative : ByteCount
  count : ℕ → ByteCount

-- The amount is `value / scale`.
pub record Scaled : Type 0 where
  pub unit_index : ℕ
  pub scale : ℕ

-- The loop, with the units that are left. The amount is 1000 or more when the value is 1000 scales.
unfoldable pub scale_bytes : ℕ → ℕ → Scaled → Scaled
scale_bytes value zero s = s
scale_bytes value (suc left) s =
    let rest =
      scale_bytes value left (record { unit_index = suc s.unit_index; scale = 1000 * s.scale }) in
    if leb (1000 * s.scale) value then rest else s

abbrev pub first_scale : Scaled
first_scale = record { unit_index = 0; scale = 1 }

abbrev digits : ℕ → ℕ
digits zero = 0
digits (suc _) = 1

-- `format` takes the unit, the most digits of the fraction, and the amount as two numbers.
unfoldable pub format_bytes : (ByteUnit → ℕ → ℕ → ℕ → String) → ByteCount → String
unfolding scale_bytes
format_bytes format missing = "-"
format_bytes format not_finite = "-"
format_bytes format negative = "-"
format_bytes format (count value) =
    let s = scale_bytes value 4 first_scale in
    format (unit_at s.unit_index) (digits s.unit_index) value s.scale

-- A number that is missing or not finite is shown as a dash.
pub data Amount : Type 0 where
  missing not_finite negative : Amount
  amount : ℕ → Amount

pub data TimeUnit : Type 0 where
  millisecond second minute hour day : TimeUnit

-- `formatDuration` of whole milliseconds: `format` takes the unit, the most digits of the fraction, and
-- the amount as two numbers.
unfoldable pub format_duration : (TimeUnit → ℕ → ℕ → ℕ → String) → Amount → String
format_duration format missing = "-"
format_duration format not_finite = "-"
format_duration format negative = "-"
format_duration format (amount value) =
    if ltb value 1000
    then format millisecond 0 value 1
    else if ltb value 60000
    then format second 1 value 1000
    else if ltb value 3600000
    then format minute 1 value 60000
    else format hour 1 value 3600000

-- `formatPercent`: the ratio as two numbers; a negative one is formatted as `minus` does it.
unfoldable pub format_percent : (ℕ → ℕ → String) → (ℕ → ℕ → String) → Option ℤ → String
format_percent format minus none = "-"
format_percent format minus (some (pos value)) = format value 100
format_percent format minus (some (negsuc value)) = minus (suc value) 100

-- The unit and the amount that `formatDurationUntil` shows.
pub record Relative : Type 0 where
  pub unit : TimeUnit
  pub count : ℕ

unfoldable pub relative_of : ℕ → Relative
relative_of minutes =
    if ltb minutes 60
    then record { unit = minute; count = minutes }
    else if ltb (minutes / 60) 48
    then record { unit = hour; count = minutes / 60 }
    else record { unit = day; count = minutes / 60 / 24 }

-- `Math.round(milliseconds / 60_000)`, with 0 for what is negative, which is shown as 0 minutes.
unfoldable pub minutes_until : ℤ → ℕ
minutes_until (pos milliseconds) = (milliseconds + 30000) / 60000
minutes_until (negsuc _) = 0

-- The argument is the time less the present one: none where there is no time that can be read.
unfoldable pub format_duration_until : (Relative → String) → Option ℤ → String
unfolding relative_of minutes_until
format_duration_until format none = "-"
format_duration_until format (some milliseconds) = format (relative_of (minutes_until milliseconds))

-- `formatDate`, with the two formatters of the locale and the time that the text stands for.
unfoldable pub format_date : (ℤ → String) → (ℤ → String) → Option ℤ → Bool → String
format_date with_time date_only none timed = "-"
format_date with_time date_only (some time) timed = if timed then with_time time else date_only time
