-- ===== src/Schedule/Recurrence.antt =====
-- internal/domain/scheduledmessage/recurrence.go: the next occurrence of a recurring message at the
-- same wall-clock time of its timezone. A `time.Location` is a function from an instant to the
-- offset east of UTC in seconds, and `time.LoadLocation` is a parameter. A local time is its
-- nanoseconds since 0001-01-01 on the local clock, a civil date the number of days since then.
-- Times within two days of that epoch are outside the model: there `-` stops at 0.
pub mod Clock
pub mod Found
pub mod Rounds
pub mod First
pub mod FixedOffset
mod Examples
use family_assistant.Base.{
  ℕ, zero, suc, ◌+◌, ◌-◌, ◌*◌, ◌/◌, ◌%◌, String, Bool, true, false, not, ◌&&◌, Option, none, some,
  List, [], ◌∷◌, ltb, leb, ◌==◌, if◌then◌else◌,
}
use family_assistant.Base.Int.{ℤ, pos, negsuc, ◌==ℤ◌}
use family_assistant.Base.Result.{Result, ok, err, ◌>>=◌}
use family_assistant.Base.Text.{◌=ₛ◌}
use family_assistant.Schedule.Model.{Time, Recurrence}
use Prim.Native.Nat.{min}

pub data RecurrenceError : Type 0 where
  invalid_recurrence invalid_timezone ambiguous_local_time nonexistent_local_time : RecurrenceError

-- Nanoseconds.
abbrev pub second_ns : ℕ
second_ns = 1_000_000_000

abbrev pub minute_ns : ℕ
minute_ns = 60_000_000_000

abbrev pub hour_ns : ℕ
hour_ns = 3_600_000_000_000

abbrev pub day_ns : ℕ
day_ns = 86_400_000_000_000

-- `math.MaxInt64` nanoseconds, where `Time.Sub` saturates.
abbrev pub max_duration : ℕ
max_duration = 9_223_372_036_854_775_807

abbrev pub Zone : Type 0
Zone = Time → ℤ

-- `t.In(loc)`: the local clock at an instant.
abbrev pub shift : ℕ → ℤ → ℕ
shift t (pos s) = t + s * second_ns
shift t (negsuc s) = t - (s + 1) * second_ns

abbrev pub unshift : ℕ → ℤ → ℕ
unshift t (pos s) = t - s * second_ns
unshift t (negsuc s) = t + (s + 1) * second_ns

unfoldable pub local : Zone → Time → ℕ
local zone t = shift t (zone t)

abbrev pub civil_date : ℕ → ℕ
civil_date clock = clock / day_ns

abbrev pub hour : ℕ → ℕ
hour clock = clock % day_ns / hour_ns

abbrev pub minute : ℕ → ℕ
minute clock = clock % hour_ns / minute_ns

abbrev pub second : ℕ → ℕ
second clock = clock % minute_ns / second_ns

abbrev pub nanosecond : ℕ → ℕ
nanosecond clock = clock % second_ns

unfoldable pub recurrence_period : Recurrence → Result RecurrenceError ℕ
recurrence_period Recurrence.daily = ok 1
recurrence_period Recurrence.weekly = ok 7
recurrence_period _ = err invalid_recurrence

unfoldable pub wall_clock_passed : ℕ → ℕ → Bool
wall_clock_passed wall clock =
    if not (hour clock == hour wall)
    then ltb (hour wall) (hour clock)
    else if not (minute clock == minute wall)
    then ltb (minute wall) (minute clock)
    else if not (second clock == second wall)
    then ltb (second wall) (second clock)
    else leb (nanosecond wall) (nanosecond clock)

-- `time.Date` of a civil date and the four clock fields of `wall`, in UTC.
abbrev pub wall_utc : ℕ → ℕ → ℕ
wall_utc date wall =
    date * day_ns
    + hour wall * hour_ns
    + minute wall * minute_ns
    + second wall * second_ns
    + nanosecond wall

unfoldable pub same_clock : ℕ → ℕ → ℕ → Bool
same_clock date wall clock =
    civil_date clock == date
    && hour clock == hour wall
    && minute clock == minute wall
    && second clock == second wall
    && nanosecond clock == nanosecond wall

unfoldable pub add_offset : ℤ → List ℤ → List ℤ
add_offset o [] = o ∷ []
add_offset o (p ∷ ps) = if o ==ℤ p then p ∷ ps else p ∷ add_offset o ps

-- The offsets in use at `n` instants half an hour apart, each once.
unfoldable pub offsets_from : Zone → ℕ → ℕ → List ℤ
unfolding add_offset
offsets_from zone zero t = []
offsets_from zone (suc n) t = add_offset (zone t) (offsets_from zone n (t + 30 * minute_ns))

unfoldable pub matches_of : Zone → ℕ → ℕ → List ℤ → List Time
unfolding local same_clock
matches_of zone date wall [] = []
matches_of zone date wall (o ∷ os) =
    let candidate = unshift (wall_utc date wall) o in
    let rest = matches_of zone date wall os in
    if same_clock date wall (local zone candidate) then candidate ∷ rest else rest

-- 193 probes: from 48 hours before to 48 hours after, both included.
unfoldable pub wall_time_matches : Zone → ℕ → ℕ → List Time
unfolding matches_of offsets_from
wall_time_matches zone date wall =
    matches_of zone date wall (offsets_from zone 193 (wall_utc date wall - 48 * hour_ns))

-- The `switch` on the number of matches; `none` sends the loop to the next date.
unfoldable pub judge : ℕ → ℕ → ℕ → Time → List Time → Result RecurrenceError (Option Time)
unfolding wall_clock_passed
judge date wall after_clock after [] =
    if date == civil_date after_clock && wall_clock_passed wall after_clock
    then ok none
    else err nonexistent_local_time
judge date wall after_clock after (m ∷ []) = if ltb after m then ok (some m) else ok none
judge date wall after_clock after (m ∷ n ∷ []) =
    if ltb after m
    then err ambiguous_local_time
    else if ltb after n
    then err ambiguous_local_time
    else ok none
judge date wall after_clock after (m ∷ n ∷ o ∷ more) = err ambiguous_local_time

unfoldable pub occurrence_on_date : Zone → ℕ → ℕ → ℕ → Time → Result RecurrenceError (Option Time)
unfolding wall_time_matches judge
occurrence_on_date zone date wall after_clock after =
    judge date wall after_clock after (wall_time_matches zone date wall)

-- The `for` loop of `firstFutureOccurrence`, with fuel; `none` means that the fuel ran out.
unfoldable pub first_future_occurrence :
    ℕ → Zone → ℕ → ℕ → ℕ → Time → ℕ → ℕ → Option (Result RecurrenceError Time)
unfolding occurrence_on_date
first_future_occurrence zero zone start_date wall after_clock after period step = none
first_future_occurrence (suc fuel) zone start_date wall after_clock after period step =
    elim (occurrence_on_date zone (start_date + step * period) wall after_clock after) [
      | err e ↦ some (err e)
      | ok o ↦ elim o [
        | some t ↦ some (ok t)
        | none ↦
            first_future_occurrence fuel zone start_date wall after_clock after period (step + 1)
      ]
    ]

-- The number of whole days of `afterDate.Sub(startDate)`, which saturates. A negative number and 0
-- both lead to step 0.
abbrev pub days_after_start : ℕ → ℕ → ℕ
days_after_start start_date after_date =
    min ((after_date - start_date) * day_ns) max_duration / day_ns

unfoldable pub first_step : ℕ → ℕ → ℕ
first_step days period =
    if ltb 0 days then (if days % period == 0 then days / period else days / period + 1) else 0

abbrev pub lift_found :
    Option (Result RecurrenceError Time) → Option (Result RecurrenceError (Option Time))
lift_found none = none
lift_found (some (ok t)) = some (ok (some t))
lift_found (some (err e)) = some (err e)

unfoldable pub recur :
    ℕ
    → Zone
    → Result RecurrenceError ℕ
    → Time
    → Time
    → Option (Result RecurrenceError (Option Time))
unfolding first_future_occurrence first_step local
recur fuel zone (err e) start after = some (err e)
recur fuel zone (ok period) start after =
    let start_clock = local zone start in
    let after_clock = local zone after in
    let start_date = civil_date start_clock in
    lift_found (
      first_future_occurrence fuel zone start_date start_clock after_clock after period
        (first_step (days_after_start start_date (civil_date after_clock)) period))

unfoldable pub next_in_zone :
    ℕ → Recurrence → Time → Time → Option Zone → Option (Result RecurrenceError (Option Time))
unfolding recur recurrence_period
next_in_zone fuel rule start after none = some (err invalid_timezone)
next_in_zone fuel Recurrence.once start after (some zone) = some (ok none)
next_in_zone fuel rule start after (some zone) =
    recur fuel zone (recurrence_period rule) start after

unfoldable pub next_occurrence :
    ℕ
    → (String → Option Zone)
    → Recurrence
    → Time
    → Time
    → String
    → Option (Result RecurrenceError (Option Time))
unfolding next_in_zone
next_occurrence fuel load_location rule start after timezone =
    if timezone =ₛ "Local"
    then some (err invalid_timezone)
    else next_in_zone fuel rule start after (load_location timezone)
