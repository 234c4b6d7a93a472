-- ===== src/Activity/Select.antt =====
-- internal/domain/activity/feeding.go: `SelectFeeding`, which finds the feeding that a report is about.
pub mod Laws
use family_assistant.Base.{
  ℕ, zero, suc, ◌-◌, String, Option, none, some, Bool, true, false, not, ◌&&◌, ◌||◌, List, [], ◌∷◌,
  map, ltb, leb, ◌==◌, if◌then◌else◌, length, take, select,
}
use family_assistant.Base.Int.{ℤ, pos, negsuc, ltb_ℤ, leb_ℤ}
use family_assistant.Base.Result.{Result, ok, err}
use family_assistant.Base.Text.{◌=ₛ◌}
use family_assistant.Schedule.Model.{Time}
use family_assistant.Schedule.Recurrence.{minute_ns, hour_ns, max_duration}
use family_assistant.Activity.Report.{string_at, int_at}
use family_assistant.Activity.Model.{
  Activity, FeedingSelector, FeedingCandidate, FeedingTargetError,
}

abbrev pub feeding_time_tolerance : ℕ
feeding_time_tolerance = 1_200_000_000_000

abbrev pub feeding_open_lookback : ℕ
feeding_open_lookback = 10_800_000_000_000

abbrev max_feeding_candidates : ℕ
max_feeding_candidates = 5

abbrev at_most_duration : ℕ → ℕ
at_most_duration n = if ltb max_duration n then max_duration else n

-- Go's `a.Sub(b)`: a signed 64-bit number of nanoseconds, the nearest one where the difference has none.
unfoldable pub sub_time : Time → Time → ℤ
sub_time a b =
    if leb b a then pos (at_most_duration (a - b)) else negsuc (at_most_duration (b - a - 1))

-- `-d` on 64 bits: the least number is its own negation.
unfoldable pub neg_duration : ℤ → ℤ
neg_duration (pos zero) = pos 0
neg_duration (pos (suc n)) = negsuc n
neg_duration (negsuc n) = if n == max_duration then negsuc n else pos (suc n)

unfoldable pub is_open_feeding : Activity → Bool
unfolding string_at
is_open_feeding a = string_at "outcome" a.details =ₛ ""

unfoldable pub candidate_of : Activity → FeedingCandidate
unfolding is_open_feeding int_at
candidate_of a = record {
  id = a.id;
  occurred_at = a.occurred_at;
  volume_ml = int_at "volume_ml" a.details;
  open_feeding = is_open_feeding a;
}

-- `sort.SliceStable`: an entry moves behind those that are less than it.
abbrev pub insert_stable :
    (FeedingCandidate → FeedingCandidate → Bool)
    → FeedingCandidate
    → List FeedingCandidate
    → List FeedingCandidate
insert_stable less x [] = x ∷ []
insert_stable less x (y ∷ ys) =
    let rest = insert_stable less x ys in if less y x then y ∷ rest else x ∷ y ∷ ys

abbrev pub sort_stable :
    (FeedingCandidate → FeedingCandidate → Bool) → List FeedingCandidate → List FeedingCandidate
sort_stable less [] = []
sort_stable less (x ∷ xs) = insert_stable less x (sort_stable less xs)

abbrev pub is_before : FeedingCandidate → FeedingCandidate → Bool
is_before a b = ltb a.occurred_at b.occurred_at

abbrev is_after : FeedingCandidate → FeedingCandidate → Bool
is_after a b = ltb b.occurred_at a.occurred_at

unfoldable pub candidates : List Activity → List FeedingCandidate
unfolding candidate_of
candidates feedings = sort_stable is_before (map candidate_of feedings)

unfoldable pub recent : List Activity → List FeedingCandidate
unfolding candidates
recent feedings = take max_feeding_candidates (sort_stable is_after (candidates feedings))

abbrev no_target : List Activity → FeedingTargetError
no_target feedings = record { reason = "none"; candidates = recent feedings }

unfoldable pub pick : List Activity → List Activity → Result FeedingTargetError Activity
unfolding recent candidates
pick [] feedings = err (no_target feedings)
pick (a ∷ []) feedings = ok a
pick (a ∷ b ∷ matches) feedings =
    err (record { reason = "ambiguous"; candidates = candidates (a ∷ b ∷ matches) })

abbrev absolute : ℤ → ℤ
absolute d = if ltb_ℤ d (pos 0) then neg_duration d else d

-- The loop's test where a feeding time is given.
unfoldable pub is_near : Time → Activity → Bool
unfolding sub_time neg_duration
is_near t a = leb_ℤ (absolute (sub_time a.occurred_at t)) (pos feeding_time_tolerance)

-- The loop's test without one.
unfoldable pub is_default : Time → Activity → Bool
unfolding is_open_feeding sub_time
is_default message_at a = not (
    not (is_open_feeding a)
    || ltb message_at a.occurred_at
    || ltb_ℤ (pos feeding_open_lookback) (sub_time message_at a.occurred_at))

abbrev with_id : String → List Activity → List Activity → Result FeedingTargetError Activity
with_id id [] feedings = err (no_target feedings)
with_id id (a ∷ rest) feedings =
    let later = with_id id rest feedings in if a.id =ₛ id then ok a else later

abbrev by_time : Option Time → Time → List Activity → Result FeedingTargetError Activity
by_time none message_at feedings = pick (select (is_default message_at) feedings) feedings
by_time (some t) message_at feedings = pick (select (is_near t) feedings) feedings

-- `SelectFeeding`
unfoldable pub select_feeding : List Activity → FeedingSelector → Result FeedingTargetError Activity
unfolding pick recent is_near is_default
select_feeding feedings sel =
    if sel.feeding_id =ₛ ""
    then by_time sel.feeding_time sel.message_at feedings
    else with_id sel.feeding_id feedings feedings
