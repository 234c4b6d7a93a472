-- ===== src/Activity/Report.antt =====
-- internal/domain/activity/feeding.go: `ApplyFeedingReport`, which merges what was left of a feeding,
-- or how it ended, into its details, and `FeedingReportOverwrites`. The RFC3339 layout of Go's time
-- package is a parameter: its formatting and its test.
pub mod Laws
pub mod Repeat
pub mod Remerge
pub mod Again
use family_assistant.Base.{
  ℕ, String, Option, none, some, Bool, true, false, not, ◌&&◌, ◌||◌, if◌then◌else◌, is_some, ◌==◌,
}
use family_assistant.Base.Int.{ℤ, pos, ltb_ℤ, ◌==ℤ◌}
use family_assistant.Base.Dict.{lookup, erase, assign}
use family_assistant.Base.Result.{ok, ◌>>=◌, ◌>>◌}
use family_assistant.Base.Text.{◌=ₛ◌}
use family_assistant.Activity.Values.{Value, text, int, Details, to_int}
use family_assistant.Activity.Details.{
  Checked, details_err, reject_if, is_outcome, validate_feeding,
}

pub record Rfc3339 : Type 0 where
  pub format : ℕ → String
  pub parses : String → Bool

pub record FeedingReport : Type 0 where
  pub leftover_ml : Option ℤ
  pub expired_ml : Option ℤ
  pub outcome : String

abbrev pub text_of : Option Value → String
text_of (some (text s)) = s
text_of _ = ""

-- `stringOf(d[key])`
unfoldable pub string_at : String → Details → String
string_at key d = text_of (lookup key d)

abbrev to_int_of : Option Value → Option ℤ
to_int_of none = none
to_int_of (some v) = to_int v

-- `toInt(d[key])`
unfoldable pub int_at : String → Details → Option ℤ
int_at key d = to_int_of (lookup key d)

abbrev pub same_number : Option ℤ → Option ℤ → Bool
same_number none none = true
same_number (some a) (some b) = a ==ℤ b
same_number _ _ = false

abbrev pub is_negative : Option ℤ → Bool
is_negative none = false
is_negative (some n) = ltb_ℤ n (pos 0)

-- The order in which Go walks over the map of the two amounts is not fixed: `expired_first` says it.
abbrev pub check_negative : Bool → FeedingReport → Checked (Unit {0})
check_negative true r = do
  reject_if (is_negative r.expired_ml) "expired_ml" "must be >= 0"
  reject_if (is_negative r.leftover_ml) "leftover_ml" "must be >= 0"
check_negative false r = do
  reject_if (is_negative r.leftover_ml) "leftover_ml" "must be >= 0"
  reject_if (is_negative r.expired_ml) "expired_ml" "must be >= 0"

abbrev pub with_leftover : Option ℤ → Details → Details
with_leftover none d = d
with_leftover (some n) d = assign "leftover_ml" (int n) d

abbrev pub not_zero : Option ℤ → Bool
not_zero none = false
not_zero (some n) = not (n ==ℤ pos 0)

abbrev pub reopened : FeedingReport → Details → Checked Details
reopened r next = do
  reject_if (is_some r.expired_ml) "expired_ml" "requires outcome expired"
  ok (erase "expired_ml" (erase "outcome" next))

abbrev pub finished : FeedingReport → Details → Checked Details
finished r next = do
  reject_if (not_zero r.expired_ml) "expired_ml" "must be 0 when outcome is finished"
  ok (assign "expired_ml" (int (pos 0)) (assign "outcome" (text "finished") next))

-- A stored 0 of a finished feeding is no expired amount.
abbrev pub stored_expired : String → Option ℤ → Checked ℤ
stored_expired outcome none = details_err "expired_ml" "is required when outcome is expired"
stored_expired outcome (some n) =
    if outcome =ₛ "finished" && n ==ℤ pos 0
    then details_err "expired_ml" "is required when outcome is expired"
    else ok n

abbrev pub expired_amount : Details → Option ℤ → Checked ℤ
expired_amount current (some n) = ok n
expired_amount current none =
    stored_expired (string_at "outcome" current) (int_at "expired_ml" current)

abbrev pub expired : Details → FeedingReport → Details → Checked Details
expired current r next = do
  n ← expired_amount current r.expired_ml
  ok (assign "expired_ml" (int n) (assign "outcome" (text "expired") next))

-- The `switch report.Outcome`.
unfoldable pub merge_outcome : Details → FeedingReport → Details → Checked Details
unfolding string_at int_at
merge_outcome current r next =
    if r.outcome =ₛ ""
    then reopened r next
    else if r.outcome =ₛ "finished"
    then finished r next
    else expired current r next

-- The leftover, the outcome or the expired amount differs.
abbrev pub leftover_changed : Details → Details → Bool
leftover_changed a b = not (same_number (int_at "leftover_ml" a) (int_at "leftover_ml" b))

abbrev pub outcome_changed : Details → Details → Bool
outcome_changed a b = not (string_at "outcome" a =ₛ string_at "outcome" b)

abbrev pub expired_changed : Details → Details → Bool
expired_changed a b = not (same_number (int_at "expired_ml" a) (int_at "expired_ml" b))

unfoldable pub is_changed : Details → Details → Bool
unfolding string_at int_at
is_changed a b = leftover_changed a b || outcome_changed a b || expired_changed a b

abbrev pub stamped : Bool → String → Details → Details
stamped true at next = assign "leftover_reported_at" (text at) next
stamped false at next = next

unfoldable pub conclude : Rfc3339 → Details → Details → ℕ → Details × Bool
unfolding is_changed string_at int_at
conclude rfc3339 current next reported_at =
    if is_changed current next
    then (
      stamped (leftover_changed current next || outcome_changed current next)
          (rfc3339.format reported_at) next,
      true,
    )
    else (current, false)

unfoldable pub check_report : Bool → FeedingReport → Checked (Unit {0})
check_report expired_first r = do
  reject_if (not (is_some r.leftover_ml) && r.outcome =ₛ "") "report"
      "leftover_ml or outcome is required"
  reject_if (not (r.outcome =ₛ "") && not (is_outcome r.outcome)) "outcome"
      "must be finished or expired"
  check_negative expired_first r

-- `ApplyFeedingReport`: the details after it, and whether they changed.
unfoldable pub apply_feeding_report :
    Rfc3339 → Bool → Details → FeedingReport → ℕ → Checked (Details × Bool)
unfolding check_report merge_outcome conclude
apply_feeding_report rfc3339 expired_first current r reported_at = do
  check_report expired_first r
  next ← merge_outcome current r (with_leftover r.leftover_ml current)
  validate_feeding rfc3339.parses next
  ok (conclude rfc3339 current next reported_at)

abbrev number_overwritten : String → Details → Details → Bool
number_overwritten key a b =
    is_some (lookup key a) && not (same_number (int_at key a) (int_at key b))

-- `FeedingReportOverwrites`
unfoldable pub feeding_report_overwrites : Details → Details → Bool
unfolding string_at int_at
feeding_report_overwrites a b =
    number_overwritten "leftover_ml" a b
    || number_overwritten "expired_ml" a b
    || (is_some (lookup "outcome" a) && outcome_changed a b)
