-- ===== src/Activity/Service.antt =====
-- internal/services/activity/service.go and `ReportFeedingLeftover` of feeding.go: the operations on
-- activities with their permission checks, over the transactions of the repository. The authorizer and
-- the query on the members of a space are a parameter, as are the clock and the new ids. The audit
-- events and the test that the service is configured are not modelled.
mod Members
pub mod Laws
pub mod Guard
mod Examples
use family_assistant.Base.{
  ℕ, ◌+◌, ◌-◌, String, Option, none, some, Bool, true, false, not, ◌&&◌, ◌||◌, List, [], ◌∷◌, ltb,
  leb, ◌==◌, if◌then◌else◌, is_some,
}
use family_assistant.Base.Int.{ℤ, pos, ltb_ℤ, ◌==ℤ◌}
use family_assistant.Base.Result.{Result, ok, err, ◌>>=◌, ◌>>◌}
use family_assistant.Base.Text.{◌=ₛ◌, trim_space, to_lower, byte_length}
use family_assistant.Schedule.Model.{Time}
use family_assistant.Activity.Values.{Details}
use family_assistant.Activity.Details.{normalize_kind}
use family_assistant.Activity.Report.{FeedingReport}
use family_assistant.Activity.Model.{
  Activity, UpdateFields, FeedingSelector, FeedingReportRequest, FeedingReportResult,
}
use family_assistant.Activity.Select.{feeding_time_tolerance}
use family_assistant.Activity.Store.{
  ActivityError, record_not_found, not_found, forbidden, feeding_forbidden, validation, details,
  Outcome, fail_if, or_fail, create, find_by_id_in_space, update_locked, soft_delete, deleted_row,
  is_empty, nothing_to_update,
}
use family_assistant.Activity.Store.Report.{Outside, report_feeding}
use family_assistant.Activity.Hooks.{normalize_subject, create_details, prepare_details_update}
unfoldable pub use Members.*

abbrev pub space_of : String → Actor → String
space_of space actor =
    if trim_space space =ₛ "" then trim_space actor.space_id else trim_space space

abbrev opt_kind : Option String → Outcome (Option String)
opt_kind none = ok none
opt_kind (some k) =
    if normalize_kind k =ₛ ""
    then err (validation "kind" "is required")
    else ok (some (normalize_kind k))

abbrev opt_subject : Option String → Outcome (Option String)
opt_subject none = ok none
opt_subject (some s) = normalize_subject s >>= λ t. ok (some t)

abbrev opt_note : Option String → Outcome (Option String)
opt_note none = ok none
opt_note (some s) =
    if trim_space s =ₛ "" then err (validation "note" "is required") else ok (some (trim_space s))

abbrev opt_occurred_at : Option Time → Outcome (Option Time)
opt_occurred_at none = ok none
opt_occurred_at (some t) =
    if t == 0 then err (validation "occurred_at" "is required") else ok (some t)

-- `activityUpdateFields`
unfoldable pub activity_update_fields : UpdateInput → Outcome UpdateFields
unfolding normalize_kind normalize_subject
activity_update_fields input = do
  kind ← opt_kind input.kind
  subject ← opt_subject input.subject
  note ← opt_note input.note
  occurred_at ← opt_occurred_at input.occurred_at
  let fields : UpdateFields = record {
    kind = kind;
    subject = subject;
    note = note;
    occurred_at = occurred_at;
    details_patch = input.details;
  }
  fail_if (nothing_to_update fields) (validation "update" "at least one field is required")
  ok fields

-- gorm's ErrRecordNotFound becomes the service's ErrNotFound.
abbrev pub not_found_of : ActivityError → ActivityError
not_found_of record_not_found = not_found
not_found_of e = e

abbrev pub hide_record {ℓ} : {A : Type ℓ} → Outcome A → Outcome A
hide_record (ok a) = ok a
hide_record (err e) = err (not_found_of e)

-- The member for whom an update, a deletion or a report runs.
unfoldable pub acting_member : Access → Actor → String → String → Outcome Membership
unfolding activity_member
acting_member access actor permission space_id = do
  access.authorize actor permission space_id
  members ← access.list_active_members space_id
  or_fail not_found (activity_member members actor.member_id actor.user_id)

module _ (outside : Outside) (json_size : Details → Option ℕ) where
  -- The function that Update passes to UpdateLocked.
  unfoldable pub prepare_update : Membership → UpdateInput → Activity → Outcome UpdateFields
  unfolding can_mutate_activity activity_update_fields prepare_details_update
  prepare_update m input current = do
    fail_if (not (can_mutate_activity m.role_name m.id current)) forbidden
    fields ← activity_update_fields input
    prepare_details_update outside json_size current fields

  -- `Update`: the stored activity and the new rows.
  unfoldable pub update_activity :
      Access
      → Actor
      → String
      → String
      → UpdateInput
      → Time
      → List Activity
      → Outcome (Activity × List Activity)
  unfolding acting_member prepare_update update_locked
  update_activity access actor space activity_id input now rows = do
    m ← acting_member access actor "activities:update" (space_of space actor)
    hide_record (
        update_locked (space_of space actor) (trim_space activity_id) (prepare_update m input) now
          rows)

  abbrev pub stamp_time : CreateInput → Time
  stamp_time input = if input.message_at == 0 then input.occurred_at else input.message_at

  abbrev pub new_activity :
      Actor → CreateInput → String → Time → String → Details × String → Activity
  new_activity actor input id now subject prepared = record {
    id = id;
    space_id = space_of input.space actor;
    created_by_member_id = trim_space actor.member_id;
    kind = normalize_kind input.kind;
    subject = subject;
    note = prepared.1;
    details = prepared.0;
    occurred_at = input.occurred_at;
    created_at = now;
    updated_at = now;
    deleted_at = none;
  }

  -- `Create`: the new rows. `id` and `now` are the new id and the clock's time.
  unfoldable pub create_activity :
      Access
      → Actor
      → CreateInput
      → String
      → Time
      → List Activity
      → Outcome (Activity × List Activity)
  unfolding has_member create_details normalize_kind normalize_subject create
  create_activity access actor input id now rows = do
    fail_if (normalize_kind input.kind =ₛ "") (validation "kind" "is required")
    subject ← normalize_subject input.subject
    fail_if (input.occurred_at == 0) (validation "occurred_at" "is required")
    prepared ←
        create_details outside json_size (normalize_kind input.kind) subject input.details
          input.note (stamp_time input)
    access.authorize actor "activities:create" (space_of input.space actor)
    fail_if (not (has_member access (space_of input.space actor) actor)) not_found
    rows' ← create id (new_activity actor input id now subject prepared) rows
    ok (new_activity actor input id now subject prepared, rows')

-- `Delete`: the deleted activity and the new rows.
unfoldable pub delete_activity :
    Access → Actor → String → String → Time → List Activity → Outcome (Activity × List Activity)
unfolding acting_member can_mutate_activity find_by_id_in_space soft_delete
delete_activity access actor space activity_id now rows = do
  m ← acting_member access actor "activities:delete" (space_of space actor)
  a ← hide_record (find_by_id_in_space (space_of space actor) (trim_space activity_id) rows)
  fail_if (not (can_mutate_activity m.role_name m.id a)) forbidden
  rows' ← hide_record (soft_delete (space_of space actor) (trim_space activity_id) now rows)
  ok (deleted_row now a, rows')

abbrev max_feeding_report_age : ℕ
max_feeding_report_age = 172_800_000_000_000

abbrev selected_id : Outside → String → Outcome String
selected_id outside id =
    if id =ₛ ""
    then ok ""
    else if not (outside.is_uuid id) || not (byte_length id == 36)
    then err (validation "feeding_id" "must be a UUID")
    else ok (to_lower id)

abbrev selected_time : Time → Option Time → Outcome (Option Time)
selected_time message_at none = ok none
selected_time message_at (some t) =
    if ltb t (message_at - max_feeding_report_age) || ltb (message_at + feeding_time_tolerance) t
    then err
        (validation "feeding_time" "must be within 48 hours before the message and not after it")
    else ok (some t)

-- `feedingSelector`
unfoldable pub feeding_selector : Outside → LeftoverInput → Outcome FeedingSelector
unfolding byte_length
feeding_selector outside input = do
  fail_if (input.message_at == 0) (validation "message_at" "is required")
  id ← selected_id outside (trim_space input.feeding_id)
  t ← selected_time input.message_at input.feeding_time
  ok (record { feeding_id = id; feeding_time = t; message_at = input.message_at })

-- `feedingReportError`
abbrev pub feeding_report_error : ActivityError → ActivityError
feeding_report_error (details e) = validation e.field e.reason
feeding_report_error feeding_forbidden = forbidden
feeding_report_error record_not_found = not_found
feeding_report_error e = e

abbrev pub report_error {ℓ} : {A : Type ℓ} → Outcome A → Outcome A
report_error (ok a) = ok a
report_error (err e) = err (feeding_report_error e)

abbrev pub leftover_request :
    LeftoverInput → String → FeedingSelector → Time → Membership → FeedingReportRequest
leftover_request input space_id sel now m = record {
  space_id = space_id;
  selector = sel;
  report = record {
    leftover_ml = input.leftover_ml;
    expired_ml = input.expired_ml;
    outcome = to_lower (trim_space input.outcome);
  };
  reported_at = sel.message_at;
  now = now;
  can_mutate = can_mutate_activity m.role_name m.id;
}

-- `ReportFeedingLeftover`: the result and the new rows.
unfoldable pub report_feeding_leftover :
    Outside
    → Access
    → Actor
    → LeftoverInput
    → Time
    → List Activity
    → Outcome (FeedingReportResult × List Activity)
unfolding acting_member can_mutate_activity feeding_selector report_feeding
report_feeding_leftover outside access actor input now rows = do
  sel ← feeding_selector outside input
  m ← acting_member access actor "activities:update" (space_of input.space actor)
  report_error
      (report_feeding outside (leftover_request input (space_of input.space actor) sel now m) rows)
