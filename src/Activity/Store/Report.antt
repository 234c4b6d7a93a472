-- ===== src/Activity/Store/Report.antt =====
-- internal/repositories/activity/repository.go: `ReportFeeding` and the rows it locks. The rows of the
-- subquery are the five newest ones; the order in which PostgreSQL returns rows of equal time is the one
-- of the table.
use family_assistant.Base.{
  ◌+◌, ◌-◌, String, Option, none, some, Bool, true, false, not, ◌&&◌, ◌||◌, List, [], ◌∷◌, ltb, leb,
  if◌then◌else◌, select, take,
}
use family_assistant.Base.Int.{ℤ}
use family_assistant.Base.Table.{find_where, update_where}
use family_assistant.Base.Result.{Result, ok, err, ◌>>=◌, ◌>>◌}
use family_assistant.Base.Text.{◌=ₛ◌, trim_space}
use family_assistant.Schedule.Model.{Time}
use family_assistant.Activity.Values.{Details}
use family_assistant.Activity.Details.{DetailsError}
use family_assistant.Activity.Report.{Rfc3339, apply_feeding_report}
use family_assistant.Activity.Model.{
  Activity, FeedingSelector, FeedingTargetError, FeedingReportRequest, FeedingReportResult,
}
use family_assistant.Activity.Note.{feeding_note, is_generated_feeding_note}
use family_assistant.Activity.Select.{select_feeding, feeding_time_tolerance, feeding_open_lookback}
use family_assistant.Activity.Store.{
  record_not_found, space_id_required, feeding_forbidden, target, details, Outcome, fail_if,
  or_fail, is_blank, is_live_in, key,
}

-- What the repository calls outside of this repository's code.
pub record Outside : Type 0 where
  pub rfc3339 : Rfc3339
  pub show : ℤ → String
  pub is_uuid : String → Bool
  -- `ORDER BY id`: the first text comes before the second.
  pub id_before : String → String → Bool
  pub expired_first : Bool

-- `WHERE space_id = ? AND kind = 'feeding'`.
abbrev pub is_feeding_of : String → Activity → Bool
is_feeding_of space_id a = is_live_in space_id a && a.kind =ₛ "feeding"

module _ (before : Activity → Activity → Bool) where
  abbrev pub insert_row_by : Activity → List Activity → List Activity
  insert_row_by a [] = a ∷ []
  insert_row_by a (b ∷ rows) =
      let rest = insert_row_by a rows in if before b a then b ∷ rest else a ∷ b ∷ rows

  -- `ORDER BY`
  abbrev pub sort_rows : List Activity → List Activity
  sort_rows [] = []
  sort_rows (a ∷ rows) = insert_row_by a (sort_rows rows)

abbrev earlier_of : Option Time → Time → Time
earlier_of none t = t
earlier_of (some u) t = if ltb (u - feeding_time_tolerance) t then u - feeding_time_tolerance else t

abbrev later_of : Option Time → Time → Time
later_of none t = t
later_of (some u) t = if ltb t (u + feeding_time_tolerance) then u + feeding_time_tolerance else t

abbrev has_id : String → List Activity → Bool
has_id id [] = false
has_id id (a ∷ rows) = a.id =ₛ id || has_id id rows

abbrev newest_first : Activity → Activity → Bool
newest_first a b = ltb b.occurred_at a.occurred_at

abbrev pub within_bounds : Time → Time → List Activity → Activity → Bool
within_bounds lower upper recent a =
    (leb lower a.occurred_at && leb a.occurred_at upper) || has_id a.id recent

abbrev in_window : Outside → Time → Time → List Activity → List Activity
in_window outside lower upper rows =
    let recent = take 5 (sort_rows newest_first (select (λ a. leb a.occurred_at upper) rows)) in
    sort_rows (λ a b. outside.id_before a.id b.id) (select (within_bounds lower upper recent) rows)

abbrev one_feeding : Outside → String → String → List Activity → Outcome (List Activity)
one_feeding outside space_id id rows = do
  fail_if (not (outside.is_uuid id)) record_not_found
  a ← or_fail record_not_found (find_where key id (is_feeding_of space_id) rows)
  ok (a ∷ [])

-- `lockFeedingCandidates`
unfoldable pub lock_feeding_candidates :
    Outside → String → FeedingSelector → List Activity → Outcome (List Activity)
lock_feeding_candidates outside space_id sel rows =
    if is_blank sel.feeding_id
    then ok (
        in_window outside (earlier_of sel.feeding_time (sel.message_at - feeding_open_lookback))
          (later_of sel.feeding_time sel.message_at) (select (is_feeding_of space_id) rows))
    else one_feeding outside space_id (trim_space sel.feeding_id) rows

abbrev pub as_target {ℓ} : {A : Type ℓ} → Result FeedingTargetError A → Outcome A
as_target (ok a) = ok a
as_target (err e) = err (target e)

abbrev pub as_details {ℓ} : {A : Type ℓ} → Result DetailsError A → Outcome A
as_details (ok a) = ok a
as_details (err e) = err (details e)

-- The note that follows the report: only a generated one is written anew.
abbrev pub next_note : (ℤ → String) → Activity → Details → String
next_note show a next =
    if is_generated_feeding_note show a.subject a.details a.note
    then feeding_note show a.subject next
    else a.note

-- The row with the reported details.
abbrev pub reported_row : Details → String → Time → Activity → Activity
reported_row next note now a = record {
  id = a.id;
  space_id = a.space_id;
  created_by_member_id = a.created_by_member_id;
  kind = a.kind;
  subject = a.subject;
  note = note;
  details = next;
  occurred_at = a.occurred_at;
  created_at = a.created_at;
  updated_at = now;
  deleted_at = a.deleted_at;
}

abbrev pub result_of : Activity → Details → Bool → FeedingReportResult
result_of a previous changed = record { activity = a; previous = previous; changed = changed }

unfoldable pub write_report :
    Outside
    → String
    → FeedingReportRequest
    → Activity
    → List Activity
    → Details × Bool
    → Outcome (FeedingReportResult × List Activity)
unfolding is_generated_feeding_note feeding_note
write_report outside space_id req a rows (next, false) = ok (result_of a a.details false, rows)
write_report outside space_id req a rows (next, true) =
    let note = next_note outside.show a next in
    or_fail record_not_found
      (update_where key a.id (is_live_in space_id) (reported_row next note req.now) rows)
    >>= λ rows'. ok (result_of (reported_row next note req.now a) a.details true, rows')

-- `ReportFeeding`: the result and the new rows.
unfoldable pub report_feeding :
    Outside → FeedingReportRequest → List Activity → Outcome (FeedingReportResult × List Activity)
unfolding lock_feeding_candidates select_feeding apply_feeding_report write_report
report_feeding outside req rows = do
  fail_if (is_blank req.space_id) space_id_required
  feedings ← lock_feeding_candidates outside (trim_space req.space_id) req.selector rows
  a ← as_target (select_feeding feedings req.selector)
  fail_if (not (req.can_mutate a)) feeding_forbidden
  next ← as_details (
      apply_feeding_report outside.rfc3339 outside.expired_first a.details req.report
        req.reported_at)
  write_report outside (trim_space req.space_id) req a rows next
