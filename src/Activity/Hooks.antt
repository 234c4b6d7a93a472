-- ===== src/Activity/Hooks.antt =====
-- internal/services/activity/details.go and feeding.go: how the details and the note of a new or a
-- changed activity are prepared, with what a feeding adds to it.
pub mod Laws
pub mod Created
use family_assistant.Base.{
  ℕ, String, Option, none, some, Bool, true, false, not, ◌&&◌, ◌||◌, List, [], ◌∷◌, ltb, leb,
  if◌then◌else◌, is_some,
}
use family_assistant.Base.Int.{ℤ, pos, negsuc}
use family_assistant.Base.Dict.{lookup, erase}
use family_assistant.Base.Result.{Result, ok, err, ◌>>=◌, ◌>>◌}
use family_assistant.Base.Text.{
  ◌=ₛ◌, trim_space, join, fields_func, blank_controls, rune_count, has_prefix, is_space,
}
use Prim.Native.String.{◌++◌ as append}
use Prim.Native.Nat.{suc, zero}
use family_assistant.Schedule.Model.{Time}
use family_assistant.Activity.Values.{
  Value, text, int, number, Float, special, whole, between, Details,
}
use family_assistant.Activity.Details.{
  DetailsError, apply_details_patch, normalize_kind, validate_details,
}
use family_assistant.Activity.Report.{Rfc3339, FeedingReport, apply_feeding_report}
use family_assistant.Activity.Model.{Activity, UpdateFields}
use family_assistant.Activity.Note.{feeding_note, is_generated_feeding_note}
use family_assistant.Activity.Store.{ActivityError, validation, Outcome, fail_if, is_empty}
use family_assistant.Activity.Store.Report.{Outside}

abbrev subject_fits : String → Outcome String
subject_fits s =
    if ltb 128 (rune_count s)
    then err (validation "subject" "must be at most 128 characters")
    else ok s

-- `normalizeSubject`
unfoldable pub normalize_subject : String → Outcome String
normalize_subject s = subject_fits (join " " (fields_func is_space (blank_controls s)))

abbrev prefixed : String → String → String
prefixed prefix field =
    if prefix =ₛ "" || field =ₛ "details" || has_prefix field "details."
    then field
    else if field =ₛ "report"
    then "details"
    else append prefix field

-- `detailsValidationError` on a details error.
unfoldable pub details_validation_error : DetailsError → String → ActivityError
details_validation_error e prefix = validation (prefixed prefix e.field) e.reason

abbrev pub checked_details {ℓ} : {A : Type ℓ} → String → Result DetailsError A → Outcome A
checked_details prefix (ok a) = ok a
checked_details prefix (err e) = err (details_validation_error e prefix)

abbrev truncated : Float → ℤ
truncated special = pos 0
truncated (whole n) = n
truncated (between (pos n)) = pos n
truncated (between (negsuc zero)) = pos 0
truncated (between (negsuc (suc n))) = negsuc n

-- `intValue`, without its flag; the code calls it on details that are valid, where no float is special.
abbrev pub int_value : Value → ℤ
int_value (int n) = n
int_value (number f) = truncated f
int_value _ = pos 0

abbrev string_value : Value → String
string_value (text s) = s
string_value _ = ""

abbrev amount_of : Option Value → Option ℤ
amount_of none = none
amount_of (some v) = some (int_value v)

abbrev reported_outcome : Option Value → String
reported_outcome none = ""
reported_outcome (some v) = string_value v

abbrev without_report : Details → Details
without_report d =
    erase "expired_ml" (erase "outcome" (erase "leftover_reported_at" (erase "leftover_ml" d)))

pub record SplitReport : Type 0 where
  pub base : Details
  pub report : FeedingReport
  pub found : Bool

-- `splitFeedingReport`
unfoldable pub split_feeding_report : Details → SplitReport
split_feeding_report d = record {
  base = without_report d;
  report = record {
    leftover_ml = amount_of (lookup "leftover_ml" d);
    expired_ml = amount_of (lookup "expired_ml" d);
    outcome = reported_outcome (lookup "outcome" d);
  };
  found =
      is_some (lookup "leftover_ml" d)
      || is_some (lookup "expired_ml" d)
      || is_some (lookup "outcome" d);
}

abbrev pub has_key : String → Details → Bool
has_key k d = is_some (lookup k d)

abbrev pub given_note : Details → String → Outcome (Details × String)
given_note d note =
    if trim_space note =ₛ "" then err (validation "note" "is required") else ok (d, trim_space note)

-- A note that was sent wins over a generated one.
abbrev pub choose_note : String → Details × String → Outcome (Details × String)
choose_note note r =
    if r.1 =ₛ ""
    then given_note r.0 note
    else if trim_space note =ₛ ""
    then ok r
    else ok (r.0, trim_space note)

abbrev pub by_report_only : Bool → String → Details → Outcome (Unit {0})
by_report_only stored_feeding k d = fail_if (has_key k d) (
    validation "details" (
      append k (
        if stored_feeding
        then " can only be set by the feeding leftover report"
        else " can only be set by the feeding leftover report; remove it when changing the kind to feeding")))

-- The loops over FeedingReportedKeys.
abbrev pub guard_reported : Bool → Details → Outcome (Unit {0})
guard_reported stored_feeding d = do
  by_report_only stored_feeding "leftover_ml" d
  by_report_only stored_feeding "leftover_reported_at" d
  by_report_only stored_feeding "outcome" d
  by_report_only stored_feeding "expired_ml" d

abbrev pub or_old {ℓ} : {A : Type ℓ} → Option A → A → A
or_old none a = a
or_old (some b) a = b

abbrev pub set_note : String → UpdateFields → UpdateFields
set_note note f = record {
  kind = f.kind;
  subject = f.subject;
  note = some note;
  occurred_at = f.occurred_at;
  details_patch = f.details_patch;
}

abbrev pub is_stored_feeding : String → Bool
is_stored_feeding stored = stored =ₛ "feeding"

module _ (outside : Outside) (json_size : Details → Option ℕ) where
  abbrev pub validate : String → Details → Outcome (Unit {0})
  validate kind d = checked_details "" (validate_details outside.rfc3339.parses json_size kind d)

  abbrev with_note : String → Details × Bool → Details × String
  with_note subject r = (r.0, feeding_note outside.show subject r.0)

  -- The `switch` of feedingCreate.
  abbrev created_feeding : String → Details → SplitReport → Time → Outcome (Details × String)
  created_feeding subject d split reported_at =
      if has_key "volume_ml" d
      then (if split.found
          then checked_details "details." (
              apply_feeding_report outside.rfc3339 outside.expired_first split.base split.report
                reported_at)
            >>= (λ r. ok (with_note subject r))
          else ok (d, feeding_note outside.show subject d))
      else if split.found
      then err (
          validation "details.volume_ml"
            "is required when reporting leftover_ml, outcome or expired_ml")
      else ok (d, "")

  -- `feedingCreate`
  unfoldable pub feeding_create : String → Details → Time → Outcome (Details × String)
  unfolding split_feeding_report apply_feeding_report validate_details feeding_note
      details_validation_error
  feeding_create subject d reported_at = do
    fail_if (has_key "leftover_reported_at" d)
        (validation "details.leftover_reported_at" "is set by the server")
    validate "feeding" d
    created_feeding subject d (split_feeding_report d) reported_at

  -- `createDetails`: the details and the note to store. The only hooks are those of feedings.
  unfoldable pub create_details :
      String → String → Details → String → Time → Outcome (Details × String)
  unfolding feeding_create apply_details_patch validate_details details_validation_error
  create_details kind subject raw note reported_at =
      let d = apply_details_patch [] raw in
      if kind =ₛ "feeding"
      then feeding_create subject d reported_at >>= choose_note note
      else validate kind d >> given_note d note

  abbrev pub regenerated : Activity → UpdateFields → Details → UpdateFields
  regenerated a f merged =
      if not (is_some f.note) && is_generated_feeding_note outside.show a.subject a.details a.note
      then set_note (feeding_note outside.show (or_old f.subject a.subject) merged) f
      else f

  -- The validation is left out where neither the kind nor the details change.
  abbrev pub validate_update : String → UpdateFields → Details → Outcome (Unit {0})
  validate_update kind f merged =
      if is_some f.kind || not (is_empty f.details_patch) then validate kind merged else ok tt

  -- `feedingUpdate`: the fields with the note that follows the details.
  unfoldable pub feeding_update : String → Activity → UpdateFields → Details → Outcome UpdateFields
  unfolding is_generated_feeding_note feeding_note validate_details details_validation_error
  feeding_update stored a f merged = do
    guard_reported (is_stored_feeding stored)
        (if is_stored_feeding stored then f.details_patch else merged)
    validate_update "feeding" f merged
    ok (regenerated a f merged)

  -- `prepareDetailsUpdate`
  unfoldable pub prepare_details_update : Activity → UpdateFields → Outcome UpdateFields
  unfolding feeding_update normalize_kind apply_details_patch validate_details
      details_validation_error
  prepare_details_update a f =
      let stored = normalize_kind a.kind in
      let kind = or_old f.kind stored in
      let merged = apply_details_patch a.details f.details_patch in
      if kind =ₛ "feeding"
      then feeding_update stored a f merged
      else validate_update kind f merged >> ok f
