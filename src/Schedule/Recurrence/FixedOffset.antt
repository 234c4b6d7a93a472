-- ===== src/Schedule/Recurrence/FixedOffset.antt =====
-- Timezones whose offset never changes: every local time exists, and exists once.
use family_assistant.Base.{
  ℕ, zero, suc, ◌+◌, ◌*◌, ◌-◌, ◌≤◌, ◌<◌, ◌≡◌, refl, false, [], ◌∷◌, arith, Option, none, some,
  String, ltb, if◌then◌else◌,
}
use family_assistant.Base.Int.{ℤ, pos, negsuc, abs, ==ℤ_iff}
use family_assistant.Base.Result.{Result, ok, err}
use family_assistant.Base.Text.{◌=ₛ◌}
use family_assistant.Schedule.Model.{Time, Recurrence}
use family_assistant.Schedule.Recurrence.{
  Zone, day_ns, civil_date, RecurrenceError, local, wall_time_matches, judge, shift,
  occurrence_on_date, first_future_occurrence, recur, recurrence_period, next_in_zone,
  next_occurrence, unshift, wall_utc, offsets_from, lift_found,
}
use family_assistant.Schedule.Recurrence.Clock.{same_clock_iff, wall_utc_lem}
use family_assistant.Schedule.Recurrence.Found.{
  max_span, period_days, IsNext, next_occurrence-IsNext,
}
use family_assistant.Schedule.Recurrence.Rounds.{rounds, next_occurrence_returns}

abbrev pub fixed : ℤ → Zone
fixed o = λ t. o

offsets_from-fixed : (o : ℤ) (n t : ℕ) → offsets_from (fixed o) (suc n) t ≡ o ∷ []
unfolding offsets_from
offsets_from-fixed o zero t = refl
offsets_from-fixed o (suc n) t =
    ground (arith, offsets_from-fixed o n (t + 1_800_000_000_000), ==ℤ_iff o o)

shift-unshift : (w : ℕ) (o : ℤ) → abs o < 86_400 → day_ns ≤ w → shift (unshift w o) o ≡ w
shift-unshift w (pos n) h k = omega arith
shift-unshift w (negsuc n) h k = omega arith

local-fixed :
    (o : ℤ) (date wall : ℕ)
    → abs o < 86_400
    → 0 < date
    → local (fixed o) (unshift (wall_utc date wall) o) ≡ wall_utc date wall
unfolding local
local-fixed o date wall h k = shift-unshift (wall_utc date wall) o h (omega arith)

one_match :
    (o : ℤ) (date wall : ℕ)
    → abs o < 86_400
    → 0 < date
    → wall_time_matches (fixed o) date wall ≡ unshift (wall_utc date wall) o ∷ []
unfolding wall_time_matches
one_match o date wall h k =
    rw (offsets_from-fixed o 192 (wall_utc date wall - 172_800_000_000_000)) (
      rw (local-fixed o date wall h k)
        (rw ((same_clock_iff date wall (wall_utc date wall)).1 (wall_utc_lem date wall))))

occurrence-fixed :
    (o : ℤ) (date wall after_clock : ℕ) (after : Time)
    → abs o < 86_400
    → 0 < date
    → (r : Option Time) × (occurrence_on_date (fixed o) date wall after_clock after ≡ ok r)
unfolding occurrence_on_date judge
occurrence-fixed o date wall after_clock after h k =
    let m = unshift (wall_utc date wall) o in
    rw (one_match o date wall h k) (if ltb after m then some m else none, ground arith)

module _ (o : ℤ) (start_date wall after_clock : ℕ) (after : Time) (period : ℕ) (h : abs o < 86_400)
    (k : 0 < start_date) where
  loop_ok :
      (fuel step : ℕ) (e : RecurrenceError)
      → ¬ (
          first_future_occurrence fuel (fixed o) start_date wall after_clock after period step
          ≡ some (err e))
  unfolding first_future_occurrence
  loop_ok zero step e q = ground arith
  loop_ok (suc fuel) step e q =
      go (occurrence-fixed o (start_date + step * period) wall after_clock after h (omega arith))
        (loop_ok fuel (step + 1) e)
    where
      go :
          (r : Option Time) × (occurrence_on_date
                (fixed o)
                (start_date + step * period)
                wall
                after_clock
                after
              ≡ ok r)
          → ¬ (
              first_future_occurrence fuel
                (fixed o)
                start_date
                wall
                after_clock
                after
                period
                (step + 1)
              ≡ some (err e))
          → ⊥
      go (some t, p) rest = ground arith
      go (none, p) rest = rest (ground arith)

finish :
    (found : Option (Result RecurrenceError Time)) (r : Result RecurrenceError (Option Time))
    → ((e : RecurrenceError) → ¬ (found ≡ some (err e)))
    → lift_found found ≡ some r
    → (t : Time) × (r ≡ ok (some t))
finish none r never q = absurd (ground arith)
finish (some (ok t)) r never q = (t, ground arith)
finish (some (err e)) r never q = absurd (never e refl)

recur_ok :
    (o : ℤ) (rule : Recurrence) (start after : Time) (fuel : ℕ)
    (r : Result RecurrenceError (Option Time))
    → abs o < 86_400
    → 0 < civil_date (local (fixed o) start)
    → 0 < period_days rule
    → recur fuel (fixed o) (recurrence_period rule) start after ≡ some r
    → (t : Time) × (r ≡ ok (some t))
unfolding recur recurrence_period
recur_ok o Recurrence.daily start after fuel r h k p q =
    finish _ r (loop_ok o _ (local (fixed o) start) (local (fixed o) after) after 1 h k fuel _) q
recur_ok o Recurrence.weekly start after fuel r h k p q =
    finish _ r (loop_ok o _ (local (fixed o) start) (local (fixed o) after) after 7 h k fuel _) q
recur_ok o Recurrence.once start after fuel r h k p q = absurd (omega arith)
recur_ok o (Recurrence.other name) start after fuel r h k p q = absurd (omega arith)

in_zone :
    (zone : Zone) (start after : Time) (rule : Recurrence)
    (r : Result RecurrenceError (Option Time))
    → 0 < period_days rule
    → next_in_zone rounds rule start after (some zone) ≡ some r
    → recur rounds zone (recurrence_period rule) start after ≡ some r
unfolding next_in_zone
in_zone zone start after Recurrence.daily r p q = q
in_zone zone start after Recurrence.weekly r p q = q
in_zone zone start after Recurrence.once r p q = absurd (omega arith)
in_zone zone start after (Recurrence.other name) r p q = absurd (omega arith)

-- In a timezone whose offset is constant and below a day, a daily or weekly message always has its
-- next occurrence: NextOccurrence returns it, and neither fails nor returns nil. (The timezone is
-- not named Local, the start is not on the first day of the calendar, and the dates lie within the
-- span in which Go's Sub is exact.)
pub next_occurrence-fixed :
    (load_location : String → Option Zone) (rule : Recurrence) (start after : Time)
    (timezone : String) (o : ℤ)
    → load_location timezone ≡ some (fixed o)
    → (timezone =ₛ "Local") ≡ false
    → abs o < 86_400
    → 0 < period_days rule
    → 0 < civil_date (local (fixed o) start)
    → civil_date (local (fixed o) after) ≤ civil_date (local (fixed o) start) + max_span
    → (t : Time) × (next_occurrence rounds load_location rule start after timezone
        ≡ some (ok (some t)))
      × IsNext (fixed o) rule start after t
unfolding next_occurrence
next_occurrence-fixed load rule start after timezone o e l h p k span =
    let (r, q) = next_occurrence_returns load rule start after timezone (fixed o) e (λ t. h) span in
    let (t, found) =
      recur_ok o rule start after rounds r h k p
        (in_zone (fixed o) start after rule r p (rw (l, e) at q)) in
    let q' : next_occurrence rounds load rule start after timezone ≡ some (ok (some t)) =
      rw (← found) q in
    (t, q', next_occurrence-IsNext rounds load rule start after t timezone (fixed o) e span q')
