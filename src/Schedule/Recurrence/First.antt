-- ===== src/Schedule/Recurrence/First.antt =====
-- No instant is missed by the search of `NextOccurrence`: its probes meet every offset that a
-- timezone uses near a date, if an offset is in use for half an hour at least.
use family_assistant.Base.{
  ℕ, zero, suc, ◌+◌, ◌-◌, ◌*◌, ◌/◌, ◌%◌, ◌≤◌, ◌<◌, ◌≡◌, ◌⊎◌, refl, true, List, [], ◌∷◌, arith,
  Option, none, some, Bool-cases, inl, inr, String, ◌∙◌, sym, ap, subst,
}
use family_assistant.Base.Int.{ℤ, pos, negsuc, abs, ◌==ℤ◌, ==ℤ_iff}
use family_assistant.Base.Result.{ok}
use family_assistant.Schedule.Model.{Time, Recurrence}
use family_assistant.Schedule.Recurrence.{
  Zone, day_ns, minute_ns, civil_date, same_clock, local, matches_of, wall_time_matches, judge,
  shift, occurrence_on_date, next_occurrence, unshift, wall_utc, offsets_from, add_offset,
}
use family_assistant.Schedule.Recurrence.Clock.{same_clock_iff, wall_utc_lem}
use family_assistant.Schedule.Recurrence.Found.{
  judge_found, max_span, period_days, next_occurrence-IsNext,
}
use family_assistant.Schedule.Recurrence.Rounds.{IsBounded, near_local}

abbrev Has : {A : Type 0} → A → List A → Type 0
Has a [] = ⊥
Has a (b ∷ bs) = (a ≡ b) ⊎ Has a bs

add_offset-Has : (o : ℤ) (ps : List ℤ) → Has o (add_offset o ps)
unfolding add_offset
add_offset-Has o [] = inl refl
add_offset-Has o (p ∷ ps) =
    let rest = add_offset-Has o ps in
    elim (Bool-cases (o ==ℤ p)) [ inl e ↦ rw e (inl ((==ℤ_iff o p).0 e)) | inr e ↦ rw e (inr rest) ]

add_offset-keeps : (q o : ℤ) (ps : List ℤ) → Has q ps → Has q (add_offset o ps)
unfolding add_offset
add_offset-keeps q o [] h = absurd h
add_offset-keeps q o (p ∷ ps) h =
    let rest = add_offset-keeps q o ps in
    elim (Bool-cases (o ==ℤ p)) [
      | inl e ↦ rw e h
      | inr e ↦ rw e (elim h [ inl a ↦ inl a | inr b ↦ inr (rest b) ])
    ]

-- The offset in use at the `k`-th probe is among the offsets.
offsets_from-Has :
    (zone : Zone) (n k t : ℕ)
    → k < n
    → Has (zone (t + k * 1_800_000_000_000)) (offsets_from zone n t)
unfolding offsets_from
offsets_from-Has zone zero k t h = absurd (omega arith)
offsets_from-Has zone (suc n) zero t h =
    let e : t ≡ t + 0 * 1_800_000_000_000 = omega arith in
    subst (λ x. Has (zone x) (offsets_from zone (suc n) t)) e
      (add_offset-Has (zone t) (offsets_from zone n (t + 1_800_000_000_000)))
offsets_from-Has zone (suc n) (suc k) t h =
    let rest = offsets_from-Has zone n k (t + 1_800_000_000_000) (omega arith) in
    let e : t + 1_800_000_000_000 + k * 1_800_000_000_000 ≡ t + suc k * 1_800_000_000_000 =
      omega arith in
    add_offset-keeps _ (zone t) _ (rw e at rest)

matches_of-Has :
    (zone : Zone) (date wall : ℕ) (o : ℤ) (os : List ℤ)
    → Has o os
    → same_clock date wall (local zone (unshift (wall_utc date wall) o)) ≡ true
    → Has (unshift (wall_utc date wall) o) (matches_of zone date wall os)
unfolding matches_of
matches_of-Has zone date wall o [] h on = absurd h
matches_of-Has zone date wall o (p ∷ ps) h on =
    let rest = matches_of-Has zone date wall o ps in
    elim (Bool-cases (same_clock date wall (local zone (unshift (wall_utc date wall) p)))) [
      | inl e ↦
          rw e
            (elim h [ inl a ↦ inl (ap (unshift (wall_utc date wall)) a) | inr b ↦ inr (rest b on) ])
      | inr e ↦ rw e (elim h [ inl a ↦ absurd (ground (arith, a)) | inr b ↦ rest b on ])
    ]

-- Every instant lies in half an hour throughout which the timezone keeps its offset.
abbrev pub IsSteady : Zone → Type 0
IsSteady zone =
    (u : Time)
    → (a : Time) × (a ≤ u)
      × (u < a + 30 * minute_ns)
      × ((v : Time) → a ≤ v → v < a + 30 * minute_ns → zone v ≡ zone u)

unshift-shift : (u : ℕ) (o : ℤ) → abs o < 86_400 → day_ns ≤ u → unshift (shift u o) o ≡ u
unshift-shift u (pos n) h k = omega arith
unshift-shift u (negsuc n) h k = omega arith

module _ (zone : Zone) (bounded : IsBounded zone) (steady : IsSteady zone) where
  -- Some probe of the date meets the offset in use at an instant with that local time.
  probed :
      (w : ℕ) (u : Time)
      → 2 * day_ns ≤ w
      → local zone u ≡ w
      → Has (zone u) (offsets_from zone 193 (w - 172_800_000_000_000))
  probed w u h e =
      let (a, low, high, same) = steady u in
      let (x, y) = near_local zone u bounded in
      let k = (a + 1_800_000_000_000 - 1 - (w - 172_800_000_000_000)) / 1_800_000_000_000 in
      let v = w - 172_800_000_000_000 + k * 1_800_000_000_000 in
      let s : zone v ≡ zone u = same v (omega arith) (omega arith) in
      rw s at (offsets_from-Has zone 193 k (w - 172_800_000_000_000) (omega arith))

  -- `wallTimeMatches` collects every instant that shows the date and the time of day.
  wall_time_matches-Has :
      (date wall : ℕ) (u : Time)
      → 2 ≤ date
      → local zone u ≡ date * day_ns + wall % day_ns
      → Has u (wall_time_matches zone date wall)
  unfolding wall_time_matches local
  wall_time_matches-Has date wall u h e =
      let w = wall_utc_lem date wall in
      let (x, y) = near_local zone u bounded in
      let q : local zone u ≡ wall_utc date wall = e ∙ sym w in
      let back : unshift (wall_utc date wall) (zone u) ≡ u =
        rw q at (unshift-shift u (zone u) (bounded u) (omega arith)) in
      let on : same_clock date wall (local zone (unshift (wall_utc date wall) (zone u))) ≡ true =
        (same_clock_iff date wall _).1 (ap (local zone) back ∙ e) in
      rw back at (
        matches_of-Has zone date wall (zone u) _ (probed (wall_utc date wall) u (omega arith) q) on)

judge-none :
    (date wall after_clock : ℕ) (after : Time) (ms : List Time) (u : Time)
    → judge date wall after_clock after ms ≡ ok none
    → Has u ms
    → u ≤ after
unfolding judge
judge-none date wall after_clock after [] u h found = absurd found
judge-none date wall after_clock after (m ∷ []) u h found = ground (arith, found)
judge-none date wall after_clock after (m ∷ n ∷ []) u h found = ground (arith, found)
judge-none date wall after_clock after (m ∷ n ∷ o ∷ more) u h found = absurd (ground arith)

judge_one :
    (date wall after_clock : ℕ) (after : Time) (ms : List Time) (t u : Time)
    → judge date wall after_clock after ms ≡ ok (some t)
    → Has u ms
    → u ≡ t
judge_one date wall after_clock after ms t u h found =
    let (_, one) = judge_found date wall after_clock after ms t h in
    elim (rw one at found) [ inl e ↦ e | inr none_left ↦ absurd none_left ]

-- The first future instant at the wall-clock time of `start`, told by the local clock alone.
pub record IsFirst (zone : Zone) (rule : Recurrence) (start after t : Time) : Type 0 where
  pub later : after < t
  pub round : ℕ
  -- The time of day of the start, a whole number of periods after the start's date.
  pub on_clock :
      local zone t
      ≡ (civil_date (local zone start) + round * period_days rule) * day_ns
        + local zone start % day_ns
  pub not_before : civil_date (local zone after) ≤ civil_date (local zone t)
  -- No other instant shows that date and time of day.
  pub only : (u : Time) → local zone u ≡ local zone t → u ≡ t
  -- No instant that shows the time of day on an earlier date of the sequence, from the date of
  -- `after` on, is in the future.
  pub first :
      (j : ℕ) (u : Time)
      → j < round
      → civil_date (local zone after) ≤ civil_date (local zone start) + j * period_days rule
      → local zone u
        ≡ (civil_date (local zone start) + j * period_days rule) * day_ns
          + local zone start % day_ns
      → u ≤ after

-- NextOccurrence of a daily or weekly message in a known timezone returns the first instant after
-- `after` whose local clock shows the start's time of day on a date a whole number of periods after
-- the start's, of the dates from that of `after` on, and no other instant shows that local time. The
-- offsets of the timezone are below a day and each instant lies in half an hour of constant offset,
-- the date of `after` lies within 106,751 days of the start's, the span in which Go's Sub is exact,
-- and is not one of the first two days of the calendar.
pub next_occurrence-IsFirst :
    (fuel : ℕ) (load_location : String → Option Zone) (rule : Recurrence) (start after t : Time)
    (timezone : String) (zone : Zone)
    → IsBounded zone
    → IsSteady zone
    → load_location timezone ≡ some zone
    → 2 ≤ civil_date (local zone after)
    → civil_date (local zone after) ≤ civil_date (local zone start) + max_span
    → next_occurrence fuel load_location rule start after timezone ≡ some (ok (some t))
    → IsFirst zone rule start after t
unfolding occurrence_on_date
next_occurrence-IsFirst fuel load rule start after t timezone zone bounded steady e h span q =
    let n = next_occurrence-IsNext fuel load rule start after t timezone zone e span q in
    let wall = local zone start in
    let date = λ (j : ℕ). civil_date wall + j * period_days rule in
    record {
      later = n.later;
      round = n.round;
      on_clock = n.on_clock;
      not_before = n.not_before;
      only = λ u same. judge_one (date n.round) wall (local zone after) after _ t u n.found (
          wall_time_matches-Has zone bounded steady (date n.round) wall u
            (omega (arith, n.on_clock, n.not_before)) (same ∙ n.on_clock));
      first = λ j u k reached shown.
          judge-none (date j) wall (local zone after) after _ u (n.first j k reached)
            (wall_time_matches-Has zone bounded steady (date j) wall u (omega arith) shown);
    }
