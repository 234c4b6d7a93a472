-- ===== src/Schedule/Recurrence/Examples.antt =====
-- Occurrences in three timezones: Jakarta, and one that puts its clock forward and one that puts
-- it back by an hour at 02:00 UTC of day 103.
use family_assistant.Base.{
  ℕ, ◌+◌, ◌-◌, ◌*◌, Bool-cases, inl, inr, ◌≡◌, refl, Option, none, some, String, ltb, if◌then◌else◌,
  arith,
}
use family_assistant.Base.Int.{pos}
use family_assistant.Base.Result.{Result, ok, err}
use family_assistant.Schedule.Model.{Time, Recurrence}
use family_assistant.Schedule.Recurrence.{
  Zone, day_ns, hour_ns, minute_ns, RecurrenceError, nonexistent_local_time, ambiguous_local_time,
  invalid_timezone, invalid_recurrence, local, next_occurrence,
}
use family_assistant.Schedule.Recurrence.Found.{IsNext}
use family_assistant.Schedule.Recurrence.First.{IsFirst, IsSteady, next_occurrence-IsFirst}
use family_assistant.Schedule.Recurrence.Rounds.{rounds, IsBounded, next_occurrence_returns}
use family_assistant.Schedule.Recurrence.FixedOffset.{fixed, next_occurrence-fixed}

abbrev change : Time
change = 103 * day_ns + 2 * hour_ns

abbrev forward : Zone
forward t = if ltb t change then pos 3600 else pos 7200

abbrev back : Zone
back t = if ltb t change then pos 7200 else pos 3600

abbrev jakarta : Zone
jakarta = fixed (pos 25_200)

abbrev in_zone : Zone → String → Option Zone
in_zone zone name = some zone

abbrev start_day : Time
start_day = 100 * day_ns + 2 * hour_ns

daily_in_jakarta :
    next_occurrence rounds
      (in_zone jakarta)
      Recurrence.daily
      start_day
      (102 * day_ns)
      "Asia/Jakarta"
    ≡ some (ok (some (102 * day_ns + 2 * hour_ns)))
unfolding next_occurrence
daily_in_jakarta = refl

weekly_in_jakarta :
    next_occurrence rounds (in_zone jakarta) Recurrence.weekly start_day start_day "Asia/Jakarta"
    ≡ some (ok (some (107 * day_ns + 2 * hour_ns)))
unfolding next_occurrence
weekly_in_jakarta = refl

-- 03:30 on the local clock is skipped on day 103.
skipped_time :
    next_occurrence rounds
      (in_zone forward)
      Recurrence.daily
      (100 * day_ns + 9_000_000_000_000)
      (102 * day_ns + 5 * hour_ns)
      "Europe/Test"
    ≡ some (err nonexistent_local_time)
unfolding next_occurrence
skipped_time = refl

-- 03:30 comes twice there.
doubled_time :
    next_occurrence rounds
      (in_zone back)
      Recurrence.daily
      (100 * day_ns + 5_400_000_000_000)
      (102 * day_ns + 5 * hour_ns)
      "Europe/Test"
    ≡ some (err ambiguous_local_time)
unfolding next_occurrence
doubled_time = refl

once_has_no_next :
    next_occurrence rounds (in_zone back) Recurrence.once start_day start_day "Europe/Test"
    ≡ some (ok none)
unfolding next_occurrence
once_has_no_next = refl

refused :
    (next_occurrence rounds (in_zone back) Recurrence.daily 0 0 "Local"
      ≡ some (err invalid_timezone))
    × (next_occurrence rounds (λ name. none) Recurrence.daily 0 0 "Mars"
        ≡ some (err invalid_timezone))
    × (next_occurrence rounds (in_zone back) (Recurrence.other "HOURLY") 0 0 "Europe/Test"
        ≡ some (err invalid_recurrence))
unfolding next_occurrence
refused = (refl, refl, refl)

abbrev half_hour : ℕ
half_hour = 30 * minute_ns

forward-IsSteady : IsSteady forward
forward-IsSteady u = elim (Bool-cases (ltb u change)) [
  | inl before ↦ elim (Bool-cases (ltb (u + half_hour) change)) [
    | inl early ↦ (u, omega arith, omega arith, λ v low high. ground arith)
    | inr late ↦ (change - half_hour, ground arith, ground arith, λ v low high. ground arith)
  ]
  | inr after ↦ (u, omega arith, omega arith, λ v low high. ground arith)
]

forward-IsBounded : IsBounded forward
forward-IsBounded t = ground arith

-- Daily at 06:00 on the local clock, across the change: an hour earlier in UTC.
daily_across_change :
    next_occurrence rounds
      (in_zone forward)
      Recurrence.daily
      (100 * day_ns + 5 * hour_ns)
      (102 * day_ns + 6 * hour_ns)
      "Europe/Test"
    ≡ some (ok (some (103 * day_ns + 4 * hour_ns)))
unfolding next_occurrence
daily_across_change = refl

next_occurrence-IsFirst_example :
    IsFirst forward Recurrence.daily
      (100 * day_ns + 5 * hour_ns)
      (102 * day_ns + 6 * hour_ns)
      (103 * day_ns + 4 * hour_ns)
unfolding local
next_occurrence-IsFirst_example =
    next_occurrence-IsFirst rounds (in_zone forward) Recurrence.daily (100 * day_ns + 5 * hour_ns)
      (102 * day_ns + 6 * hour_ns) (103 * day_ns + 4 * hour_ns) "Europe/Test" forward
      forward-IsBounded forward-IsSteady refl (omega arith) (omega arith) daily_across_change

next_occurrence_returns_example :
    (r : Result RecurrenceError (Option Time)) × (next_occurrence rounds
        (in_zone jakarta)
        Recurrence.weekly
        start_day
        start_day
        "Asia/Jakarta"
      ≡ some r)
unfolding local
next_occurrence_returns_example =
    next_occurrence_returns (in_zone jakarta) Recurrence.weekly start_day start_day "Asia/Jakarta"
      jakarta refl (λ t. omega arith) (omega arith)

next_occurrence-fixed_example :
    (t : Time) × (next_occurrence rounds
        (in_zone jakarta)
        Recurrence.daily
        start_day
        (102 * day_ns)
        "Asia/Jakarta"
      ≡ some (ok (some t)))
    × IsNext jakarta Recurrence.daily start_day (102 * day_ns) t
unfolding local
next_occurrence-fixed_example =
    next_occurrence-fixed (in_zone jakarta) Recurrence.daily start_day (102 * day_ns) "Asia/Jakarta"
      (pos 25_200) refl refl (omega arith) (omega arith) (omega arith) (omega arith)
