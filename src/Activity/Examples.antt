-- ===== src/Activity/Examples.antt =====
-- Runs of the feeding report on a bottle of 120 ml of which 20 ml were left.
use family_assistant.Base.{String, some, true, false, [], ◌∷◌, ◌≡◌, ◌↔◌, refl}
use family_assistant.Base.Int.{pos}
use family_assistant.Base.Result.{ok, err}
use family_assistant.Base.Text.{◌=ₛ◌, trim_space, to_lower, fields_func, cut_fields, join}
use family_assistant.Activity.Values.{text, int, number, whole, Details, to_int}
use family_assistant.Activity.Details.{opt_int, validate_feeding, normalize_kind}
use family_assistant.Activity.Details.Laws.{IsFeeding, validate_feeding_iff}
use family_assistant.Activity.Report.{
  Rfc3339, FeedingReport, string_at, int_at, merge_outcome, is_changed, conclude, check_report,
  apply_feeding_report,
}
use family_assistant.Activity.Report.Repeat.{Reported, apply_feeding_report-Reported}
use family_assistant.Activity.Report.Again.{apply_feeding_report_again}
use family_assistant.Base.Dict.{lookup, erase, assign}

abbrev noon : String
noon = "2026-01-01T12:00:00Z"

abbrev clock : Rfc3339
clock = record { format = λ n. noon; parses = λ s. s =ₛ noon }

abbrev bottle : Details
bottle = ("volume_ml", number (whole (pos 120))) ∷ []

abbrev thrown_away : FeedingReport
thrown_away = record {
  leftover_ml = some (pos 20);
  expired_ml = some (pos 20);
  outcome = "expired";
}

abbrev bottle_after : Details
bottle_after =
    ("leftover_reported_at", text noon)
    ∷ ("expired_ml", int (pos 20))
    ∷ ("outcome", text "expired")
    ∷ ("leftover_ml", int (pos 20))
    ∷ bottle

thrown_away_runs : apply_feeding_report clock false bottle thrown_away 7 ≡ ok (bottle_after, true)
unfolding apply_feeding_report check_report merge_outcome conclude is_changed string_at int_at
    to_int validate_feeding opt_int lookup erase assign
thrown_away_runs = refl

-- More than the bottle held.
too_much :
    validate_feeding clock.parses (("leftover_ml", int (pos 200)) ∷ bottle)
    ≡ err (record { field = "details.leftover_ml"; reason = "must not exceed volume_ml" })
unfolding validate_feeding opt_int to_int lookup
too_much = refl

validate_feeding_iff_example :
    (validate_feeding clock.parses bottle_after ≡ ok tt) ↔ IsFeeding clock.parses bottle_after
validate_feeding_iff_example = validate_feeding_iff clock.parses bottle_after

apply_feeding_report-Reported_example : Reported clock.parses bottle thrown_away bottle_after true
apply_feeding_report-Reported_example =
    apply_feeding_report-Reported clock false bottle bottle_after thrown_away 7 true refl
      thrown_away_runs

apply_feeding_report_again_example :
    apply_feeding_report clock true bottle_after thrown_away 9 ≡ ok (bottle_after, false)
apply_feeding_report_again_example =
    apply_feeding_report_again clock false true bottle bottle_after thrown_away 7 9 true refl
      thrown_away_runs

-- A kind that is not normal after NormalizeKind, as the spaces are trimmed before the hyphens go.
kind_not_normal : normalize_kind "feeding\n-" ≡ "feeding\n"
unfolding normalize_kind trim_space to_lower fields_func cut_fields join
kind_not_normal = refl
