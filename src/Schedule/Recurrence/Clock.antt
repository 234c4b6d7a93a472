-- ===== src/Schedule/Recurrence/Clock.antt =====
-- The clock fields of a local time, and the times that `wallTimeMatches` collects.
use family_assistant.Base.{ℕ, ◌+◌, ◌*◌, ◌%◌, ◌≤◌, ◌≡◌, true, arith, ◌↔◌}
use family_assistant.Schedule.Recurrence.{day_ns, wall_clock_passed, same_clock, wall_utc}

-- The comparison field by field is the comparison of the times of day.
pub wall_clock_passed_iff :
    (wall clock : ℕ) → (wall_clock_passed wall clock ≡ true) ↔ (wall % day_ns ≤ clock % day_ns)
unfolding wall_clock_passed
wall_clock_passed_iff wall clock = (λ h. ground arith, λ h. ground arith)

pub wall_utc_lem : (date wall : ℕ) → wall_utc date wall ≡ date * day_ns + wall % day_ns
wall_utc_lem date wall = omega arith

pub same_clock_iff :
    (date wall clock : ℕ)
    → (same_clock date wall clock ≡ true) ↔ (clock ≡ date * day_ns + wall % day_ns)
unfolding same_clock
same_clock_iff date wall clock = (λ h. ground arith, λ h. ground arith)
