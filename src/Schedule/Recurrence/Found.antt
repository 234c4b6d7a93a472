-- ===== src/Schedule/Recurrence/Found.antt =====
-- What an occurrence that `NextOccurrence` returns satisfies.
use family_assistant.Base.{
  ℕ, zero, suc, ◌+◌, ◌-◌, ◌*◌, ◌%◌, ◌≤◌, ◌<◌, ◌≡◌, refl, true, List, [], ◌∷◌, arith, All, Option,
  none, some, Bool-cases, inl, inr, ℕ_discrete, String,
}
use family_assistant.Base.Int.{ℤ}
use family_assistant.Base.Result.{Result, ok, err}
use family_assistant.Schedule.Model.{Time, Recurrence}
use family_assistant.Schedule.Recurrence.{
  Zone, day_ns, civil_date, RecurrenceError, same_clock, local, matches_of, wall_time_matches,
  judge, occurrence_on_date, first_future_occurrence, first_step, days_after_start, recur,
  recurrence_period, next_in_zone, next_occurrence, unshift, wall_utc, offsets_from,
}
use family_assistant.Schedule.Recurrence.Clock.{same_clock_iff}

-- Every match shows the wanted date and time of day on the local clock.
pub matches_of-All :
    (zone : Zone) (date wall : ℕ) (os : List ℤ)
    → All (λ t. same_clock date wall (local zone t) ≡ true) (matches_of zone date wall os)
unfolding matches_of
matches_of-All zone date wall [] = tt
matches_of-All zone date wall (o ∷ os) =
    let rest = matches_of-All zone date wall os in
    elim (Bool-cases (same_clock date wall (local zone (unshift (wall_utc date wall) o)))) [
      | inl e ↦ ground (arith, rest)
      | inr e ↦ ground (arith, rest)
    ]

pub judge_found :
    (date wall after_clock : ℕ) (after : Time) (ms : List Time) (t : Time)
    → judge date wall after_clock after ms ≡ ok (some t)
    → (after < t) × (ms ≡ t ∷ [])
unfolding judge
judge_found date wall after_clock after [] t h = ground arith
judge_found date wall after_clock after (m ∷ []) t h = ground arith
judge_found date wall after_clock after (m ∷ n ∷ []) t h = ground arith
judge_found date wall after_clock after (m ∷ n ∷ o ∷ more) t h = ground arith

-- An occurrence found on a date lies after `after`, and shows that date and the wanted time of day.
pub occurrence_found :
    (zone : Zone) (date wall after_clock : ℕ) (after : Time) (t : Time)
    → occurrence_on_date zone date wall after_clock after ≡ ok (some t)
    → (after < t) × (local zone t ≡ date * day_ns + wall % day_ns)
unfolding occurrence_on_date wall_time_matches
occurrence_found zone date wall after_clock after t h =
    let (later, one) =
      judge_found date wall after_clock after (wall_time_matches zone date wall) t h in
    let every =
      matches_of-All zone date wall
        (offsets_from zone 193 (wall_utc date wall - 172_800_000_000_000)) in
    (later, (same_clock_iff date wall (local zone t)).0 (rw one at every).0)

-- What the loop returns: an occurrence on the first date of its sequence, from `step` on, that has
-- one and on no date before it.
pub record Found (zone : Zone) (start_date wall after_clock : ℕ) (after : Time) (period step : ℕ)
    (t : Time) : Type 0 where
  pub round : ℕ
  pub from_step : step ≤ round
  pub later : after < t
  pub found :
      occurrence_on_date zone (start_date + round * period) wall after_clock after ≡ ok (some t)
  pub on_clock : local zone t ≡ (start_date + round * period) * day_ns + wall % day_ns
  pub first :
      (j : ℕ)
      → step ≤ j
      → j < round
      → occurrence_on_date zone (start_date + j * period) wall after_clock after ≡ ok none

module _ (zone : Zone) (start_date wall after_clock : ℕ) (after : Time) (period : ℕ)
    (t : Time) where
  abbrev FoundFrom : ℕ → Type 0
  FoundFrom step = Found zone start_date wall after_clock after period step t

  FoundFrom-here :
      (step : ℕ)
      → occurrence_on_date zone (start_date + step * period) wall after_clock after ≡ ok (some t)
      → FoundFrom step
  FoundFrom-here step q =
      let (later, clock) =
        occurrence_found zone (start_date + step * period) wall after_clock after t q in
      record {
        round = step;
        from_step = omega arith;
        later = later;
        found = q;
        on_clock = clock;
        first = λ j a b. absurd (omega arith);
      }

  FoundFrom-next :
      (step : ℕ)
      → occurrence_on_date zone (start_date + step * period) wall after_clock after ≡ ok none
      → FoundFrom (step + 1)
      → FoundFrom step
  FoundFrom-next step q f = record {
    round = f.round;
    from_step = omega arith;
    later = f.later;
    found = f.found;
    on_clock = f.on_clock;
    first = λ j a b. elim (ℕ_discrete step j) [
      | yes e ↦ rw (← e) q
      | no ne ↦ f.first j (omega arith) b
    ];
  }

  loop-Found :
      (fuel step : ℕ)
      → first_future_occurrence fuel zone start_date wall after_clock after period step
        ≡ some (ok t)
      → FoundFrom step
  unfolding first_future_occurrence
  loop-Found zero step h = ground arith
  loop-Found (suc fuel) step h =
      go (occurrence_on_date zone (start_date + step * period) wall after_clock after) refl
        (loop-Found fuel (step + 1))
    where
      go :
          (r : Result RecurrenceError (Option Time))
          → occurrence_on_date zone (start_date + step * period) wall after_clock after ≡ r
          → (first_future_occurrence fuel zone start_date wall after_clock after period (step + 1)
                ≡ some (ok t)
              → FoundFrom (step + 1))
          → FoundFrom step
      go (err e) q rest = absurd (ground arith)
      go (ok (some u)) q rest = let e : u ≡ t = ground arith in FoundFrom-here step (rw (← e) q)
      go (ok none) q rest = FoundFrom-next step q (rest (ground arith))

abbrev pub period_days : Recurrence → ℕ
period_days Recurrence.daily = 1
period_days Recurrence.weekly = 7
period_days _ = 0

recur-Found :
    (fuel : ℕ) (zone : Zone) (rule : Recurrence) (start after t : Time)
    → recur fuel zone (recurrence_period rule) start after ≡ some (ok (some t))
    → let s = local zone start in
      let a = local zone after in
      let period = period_days rule in
      Found zone
        (civil_date s)
        s
        a
        after
        period
        (first_step (days_after_start (civil_date s) (civil_date a)) period)
        t
unfolding recur recurrence_period
recur-Found fuel zone Recurrence.once start after t h = ground arith
recur-Found fuel zone Recurrence.daily start after t h =
    loop-Found zone _ _ _ after 1 t fuel _ (ground arith)
recur-Found fuel zone Recurrence.weekly start after t h =
    loop-Found zone _ _ _ after 7 t fuel _ (ground arith)
recur-Found fuel zone (Recurrence.other name) start after t h = ground arith

-- `Sub` does not saturate below this many days, some 292 years.
abbrev pub max_span : ℕ
max_span = 106_751

days_after_start_exact :
    (start_date after_date : ℕ)
    → after_date ≤ start_date + max_span
    → days_after_start start_date after_date ≡ after_date - start_date
days_after_start_exact s a span = omega arith

first_step_daily : (d : ℕ) → first_step d 1 ≡ d
unfolding first_step
first_step_daily d = ground arith

first_step_weekly : (d : ℕ) → (d ≤ first_step d 7 * 7) × (first_step d 7 * 7 < d + 7)
unfolding first_step
first_step_weekly d = ground arith

-- The first date that the loop tries is the first of the sequence that is not before the date of
-- `after`.
pub first_step_lem :
    (rule : Recurrence) (start_date after_date : ℕ)
    → 0 < period_days rule
    → after_date ≤ start_date + max_span
    → let p = period_days rule in
      let n = first_step (days_after_start start_date after_date) p in
      (after_date ≤ start_date + n * p) × ((j : ℕ) → after_date ≤ start_date + j * p → n ≤ j)
first_step_lem Recurrence.daily s a h span =
    rw (days_after_start_exact s a span, first_step_daily (a - s)) (omega arith, λ j k. omega arith)
first_step_lem Recurrence.weekly s a h span =
    rw (days_after_start_exact s a span)
      (omega (arith, first_step_weekly (a - s)), λ j k. omega (arith, first_step_weekly (a - s)))
first_step_lem Recurrence.once s a h span = absurd (omega arith)
first_step_lem (Recurrence.other name) s a h span = absurd (omega arith)

-- A future occurrence at the wall-clock time of `start`, on the first date on which the search finds
-- one.
pub record IsNext (zone : Zone) (rule : Recurrence) (start after t : Time) : Type 0 where
  pub later : after < t
  pub round : ℕ
  pub found :
      occurrence_on_date zone
        (civil_date (local zone start) + round * period_days rule)
        (local zone start)
        (local zone after)
        after
      ≡ ok (some t)
  -- The same time of day on the local clock, a whole number of periods after the start's date.
  pub on_clock :
      local zone t
      ≡ (civil_date (local zone start) + round * period_days rule) * day_ns
        + local zone start % day_ns
  pub not_before : civil_date (local zone after) ≤ civil_date (local zone t)
  -- No earlier date of the sequence, from the date of `after` on, has an occurrence.
  pub first :
      (j : ℕ)
      → j < round
      → civil_date (local zone after) ≤ civil_date (local zone start) + j * period_days rule
      → occurrence_on_date zone
          (civil_date (local zone start) + j * period_days rule)
          (local zone start)
          (local zone after)
          after
        ≡ ok none

mul_mono : (a b p : ℕ) → a ≤ b → a * p ≤ b * p
mul_mono a b p h = grind arith

Found-IsNext :
    (zone : Zone) (rule : Recurrence) (start after t : Time)
    → 0 < period_days rule
    → civil_date (local zone after) ≤ civil_date (local zone start) + max_span
    → Found zone
        (civil_date (local zone start))
        (local zone start)
        (local zone after)
        after
        (period_days rule)
        (first_step
          (days_after_start (civil_date (local zone start)) (civil_date (local zone after)))
          (period_days rule))
        t
    → IsNext zone rule start after t
Found-IsNext zone rule start after t h span f =
    let (reached, least) =
      first_step_lem rule (civil_date (local zone start)) (civil_date (local zone after)) h span in
    record {
      later = f.later;
      round = f.round;
      found = f.found;
      on_clock = f.on_clock;
      not_before = omega (arith, reached, mul_mono _ _ (period_days rule) f.from_step, f.on_clock);
      first = λ j a b. f.first j (least j b) a;
    }

next_in_zone-rule :
    (fuel : ℕ) (rule : Recurrence) (start after t : Time) (zone : Zone)
    → next_in_zone fuel rule start after (some zone) ≡ some (ok (some t))
    → (0 < period_days rule)
      × (recur fuel zone (recurrence_period rule) start after ≡ some (ok (some t)))
unfolding next_in_zone recur recurrence_period
next_in_zone-rule fuel Recurrence.once start after t zone h = ground arith
next_in_zone-rule fuel Recurrence.daily start after t zone h = (omega arith, h)
next_in_zone-rule fuel Recurrence.weekly start after t zone h = (omega arith, h)
next_in_zone-rule fuel (Recurrence.other name) start after t zone h = ground arith

-- Of a daily or weekly message in a known timezone, NextOccurrence returns an occurrence of the first
-- date on which the search finds one, if the date of `after` lies within 106,751 days of the start's
-- date, the span in which Go's Sub is exact.
pub next_occurrence-IsNext :
    (fuel : ℕ) (load_location : String → Option Zone) (rule : Recurrence) (start after t : Time)
    (timezone : String) (zone : Zone)
    → load_location timezone ≡ some zone
    → civil_date (local zone after) ≤ civil_date (local zone start) + max_span
    → next_occurrence fuel load_location rule start after timezone ≡ some (ok (some t))
    → IsNext zone rule start after t
unfolding next_occurrence
next_occurrence-IsNext fuel load rule start after t timezone zone e span h =
    let (p, r) = next_in_zone-rule fuel rule start after t zone (ground arith) in
    Found-IsNext zone rule start after t p span (recur-Found fuel zone rule start after t r)
