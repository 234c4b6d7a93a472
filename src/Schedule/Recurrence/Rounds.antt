-- ===== src/Schedule/Recurrence/Rounds.antt =====
-- The search loop of `firstFutureOccurrence` ends: where no offset reaches a day, four rounds do.
use family_assistant.Base.{
  ℕ, zero, suc, ◌+◌, ◌*◌, ◌≤◌, ◌<◌, ◌≡◌, refl, true, List, [], ◌∷◌, arith, All, Option, none, some,
  Bool-cases, inl, inr, String, dec_lt,
}
use family_assistant.Base.Int.{ℤ, pos, negsuc, abs}
use family_assistant.Base.Result.{Result, ok, err}
use family_assistant.Base.Text.{◌=ₛ◌}
use family_assistant.Schedule.Model.{Time, Recurrence}
use family_assistant.Schedule.Recurrence.{
  Zone, day_ns, civil_date, RecurrenceError, same_clock, local, wall_time_matches, judge, shift,
  occurrence_on_date, first_future_occurrence, recur, recurrence_period, next_in_zone,
  next_occurrence, invalid_recurrence, invalid_timezone, lift_found,
}
use family_assistant.Schedule.Recurrence.Clock.{same_clock_iff}
use family_assistant.Schedule.Recurrence.Found.{matches_of-All, first_step_lem, max_span}

-- An offset from UTC is less than a day, as for every timezone of the tz database.
abbrev pub IsBounded : Zone → Type 0
IsBounded zone = (t : Time) → abs (zone t) < 86_400

pub near_local :
    (zone : Zone) (t : Time)
    → IsBounded zone
    → (local zone t < t + day_ns) × (t < local zone t + day_ns)
unfolding local
near_local zone t b = go (zone t) (b t)
  where
    go : (o : ℤ) → abs o < 86_400 → (shift t o < t + day_ns) × (t < shift t o + day_ns)
    go (pos n) h = omega arith
    go (negsuc n) h = omega arith

-- A date three days after that of `after` has its matches in the future.
late_match :
    (zone : Zone) (date wall : ℕ) (after m : Time)
    → IsBounded zone
    → civil_date (local zone after) + 3 ≤ date
    → same_clock date wall (local zone m) ≡ true
    → after < m
late_match zone date wall after m b late on = omega (
  arith,
  near_local zone m b,
  near_local zone after b,
  (same_clock_iff date wall (local zone m)).0 on,
)

judge_late :
    (zone : Zone) (date wall : ℕ) (after : Time) (ms : List Time)
    → IsBounded zone
    → civil_date (local zone after) + 3 ≤ date
    → All (λ t. same_clock date wall (local zone t) ≡ true) ms
    → ¬ (judge date wall (local zone after) after ms ≡ ok none)
unfolding judge
judge_late zone date wall after [] b late every h = ground arith
judge_late zone date wall after (m ∷ []) b late every h =
    ground (arith, late_match zone date wall after m b late every.0)
judge_late zone date wall after (m ∷ n ∷ []) b late every h =
    ground (arith, late_match zone date wall after m b late every.0)
judge_late zone date wall after (m ∷ n ∷ o ∷ more) b late every h = ground arith

occurrence_late :
    (zone : Zone) (date wall : ℕ) (after : Time)
    → IsBounded zone
    → occurrence_on_date zone date wall (local zone after) after ≡ ok none
    → date < civil_date (local zone after) + 3
unfolding occurrence_on_date wall_time_matches
occurrence_late zone date wall after b h = elim (dec_lt date (civil_date (local zone after) + 3)) [
  | yes p ↦ p
  | no q ↦ absurd (
      judge_late zone date wall after (wall_time_matches zone date wall) b (omega arith)
        (matches_of-All zone date wall _) h)
]

abbrev Ends : Option (Result RecurrenceError Time) → Type 0
Ends o = (r : Result RecurrenceError Time) × (o ≡ some r)

module _ (zone : Zone) (start_date wall : ℕ) (after : Time) (period : ℕ) (b : IsBounded zone)
    (h : 0 < period) where
  loop-Ends :
      (fuel step : ℕ)
      → civil_date (local zone after) + 3 ≤ start_date + step * period + fuel
      → Ends (
          first_future_occurrence
            (suc fuel)
            zone
            start_date
            wall
            (local zone after)
            after
            period
            step)
  unfolding first_future_occurrence
  loop-Ends zero step enough =
      go (occurrence_on_date zone (start_date + step * period) wall (local zone after) after) refl
    where
      go :
          (r : Result RecurrenceError (Option Time))
          → occurrence_on_date zone (start_date + step * period) wall (local zone after) after ≡ r
          → Ends
              (first_future_occurrence 1 zone start_date wall (local zone after) after period step)
      go (err e) q = (err e, ground arith)
      go (ok (some t)) q = (ok t, ground arith)
      go (ok none) q =
          absurd (omega (arith, occurrence_late zone (start_date + step * period) wall after b q))
  loop-Ends (suc fuel) step enough =
      go (occurrence_on_date zone (start_date + step * period) wall (local zone after) after) refl
        (loop-Ends fuel (step + 1) (omega arith))
    where
      go :
          (r : Result RecurrenceError (Option Time))
          → occurrence_on_date zone (start_date + step * period) wall (local zone after) after ≡ r
          → Ends (
              first_future_occurrence
                (suc fuel)
                zone
                start_date
                wall
                (local zone after)
                after
                period
                (step + 1))
          → Ends (
              first_future_occurrence
                (suc (suc fuel))
                zone
                start_date
                wall
                (local zone after)
                after
                period
                step)
      go (err e) q rest = (err e, ground arith)
      go (ok (some t)) q rest = (ok t, ground arith)
      go (ok none) q (r, e) = (r, ground arith)

-- Enough rounds for every timezone with offsets below a day.
abbrev pub rounds : ℕ
rounds = 4

lifted :
    (o : Option (Result RecurrenceError Time))
    → Ends o
    → (r : Result RecurrenceError (Option Time)) × (lift_found o ≡ some r)
lifted none (r, e) = absurd (ground arith)
lifted (some (ok t)) e = (ok (some t), refl)
lifted (some (err x)) e = (err x, refl)

recur_ends :
    (zone : Zone) (rule : Recurrence) (start after : Time)
    → IsBounded zone
    → civil_date (local zone after) ≤ civil_date (local zone start) + max_span
    → (r : Result RecurrenceError (Option Time)) × (recur rounds zone
          (recurrence_period rule)
          start
          after
        ≡ some r)
unfolding recur recurrence_period
recur_ends zone Recurrence.once start after b span = (err invalid_recurrence, refl)
recur_ends zone (Recurrence.other name) start after b span = (err invalid_recurrence, refl)
recur_ends zone Recurrence.daily start after b span =
    let (reached, least) =
      first_step_lem Recurrence.daily (civil_date (local zone start))
        (civil_date (local zone after)) (omega arith) span in
    lifted _
      (loop-Ends zone _ (local zone start) after 1 b (omega arith) 3 _ (omega (arith, reached)))
recur_ends zone Recurrence.weekly start after b span =
    let (reached, least) =
      first_step_lem Recurrence.weekly (civil_date (local zone start))
        (civil_date (local zone after)) (omega arith) span in
    lifted _
      (loop-Ends zone _ (local zone start) after 7 b (omega arith) 3 _ (omega (arith, reached)))

-- NextOccurrence returns, within four rounds of its search loop, for every rule, if the offsets of
-- the timezone are less than a day and the dates lie within the span in which Go's Sub is exact.
pub next_occurrence_returns :
    (load_location : String → Option Zone) (rule : Recurrence) (start after : Time)
    (timezone : String) (zone : Zone)
    → load_location timezone ≡ some zone
    → IsBounded zone
    → civil_date (local zone after) ≤ civil_date (local zone start) + max_span
    → (r : Result RecurrenceError (Option Time)) × (next_occurrence rounds load_location rule start
          after timezone
        ≡ some r)
unfolding next_occurrence
next_occurrence_returns load rule start after timezone zone e b span =
    elim (Bool-cases (timezone =ₛ "Local")) [
      | inl hit ↦ (err invalid_timezone, rw hit)
      | inr miss ↦ rw (miss, e) (in_zone rule)
    ]
  where
    in_zone :
        (rule : Recurrence)
        → (r : Result RecurrenceError (Option Time)) × (next_in_zone rounds rule start after
              (some zone)
            ≡ some r)
    in_zone Recurrence.once = (ok none, refl)
    in_zone Recurrence.daily = recur_ends zone Recurrence.daily start after b span
    in_zone Recurrence.weekly = recur_ends zone Recurrence.weekly start after b span
    in_zone (Recurrence.other name) = recur_ends zone (Recurrence.other name) start after b span
