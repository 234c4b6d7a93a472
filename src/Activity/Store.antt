-- ===== src/Activity/Store.antt =====
-- internal/repositories/activity/repository.go: the transactions on the table space_activities. A
-- transaction returns the new rows or an error, which stands for its rollback. The queries see the rows
-- that are not deleted, as gorm adds to them. The parameters are Go's uuid.Parse, the decimal text of a
-- number, the timestamps, and utils.CreateUUID's answer.
pub mod Report
pub mod Laws
pub mod Writes
use family_assistant.Base.{
  ℕ, ◌+◌, ◌-◌, String, Option, none, some, Bool, true, false, not, ◌&&◌, ◌||◌, List, [], ◌∷◌, ltb,
  leb, ◌==◌, if◌then◌else◌, is_some, select,
}
use family_assistant.Base.Table.{get, modify, find_where, update_where}
use family_assistant.Base.Result.{Result, ok, err, ◌>>=◌, ◌>>◌}
use family_assistant.Base.Text.{◌=ₛ◌, trim_space}
use family_assistant.Schedule.Model.{Time}
use family_assistant.Activity.Values.{Details}
use family_assistant.Activity.Details.{DetailsError, apply_details_patch}
use family_assistant.Activity.Model.{Activity, UpdateFields, FeedingTargetError}

-- The errors of the service and of the repository.
pub data ActivityError : Type 0 where
  activity_required : ActivityError
  space_id_required : ActivityError
  activity_id_required : ActivityError
  update_required : ActivityError
  record_not_found : ActivityError
  duplicate_key : ActivityError
  feeding_forbidden : ActivityError
  not_configured : ActivityError
  forbidden : ActivityError
  not_found : ActivityError
  invalid_resource : ActivityError
  validation : String → String → ActivityError
  details : DetailsError → ActivityError
  target : FeedingTargetError → ActivityError
  internal : String → ActivityError

abbrev pub Outcome {ℓ} : Type ℓ → Type ℓ
Outcome A = Result ActivityError A

abbrev pub fail_if : Bool → ActivityError → Outcome (Unit {0})
fail_if true e = err e
fail_if false e = ok tt

abbrev pub is_blank : String → Bool
is_blank s = trim_space s =ₛ ""

abbrev pub or_fail {ℓ} : {A : Type ℓ} → ActivityError → Option A → Outcome A
or_fail e none = err e
or_fail e (some a) = ok a

-- `WHERE space_id = …`, and not deleted.
abbrev pub is_live_in : String → Activity → Bool
is_live_in space_id a = not (is_some a.deleted_at) && a.space_id =ₛ space_id

abbrev pub key : Activity → String
key a = a.id

abbrev with_new_id : String → String → String
with_new_id new_id id = if is_blank id then new_id else id

abbrev blank_to_empty : String → String
blank_to_empty s = if is_blank s then "" else s

abbrev pub stored : String → Activity → Activity
stored new_id a = record {
  id = with_new_id new_id a.id;
  space_id = a.space_id;
  created_by_member_id = a.created_by_member_id;
  kind = a.kind;
  subject = blank_to_empty a.subject;
  note = a.note;
  details = a.details;
  occurred_at = a.occurred_at;
  created_at = a.created_at;
  updated_at = a.updated_at;
  deleted_at = none;
}

abbrev pub insert_row : Activity → List Activity → Outcome (List Activity)
insert_row a rows = if is_some (get key a.id rows) then err duplicate_key else ok (a ∷ rows)

-- `Create`: the id column is the primary key of the table.
unfoldable pub create : String → Activity → List Activity → Outcome (List Activity)
create new_id a rows = do
  fail_if (is_blank a.space_id) space_id_required
  insert_row (stored new_id a) rows

abbrev pub no_ids : String → String → Outcome (Unit {0})
no_ids space_id activity_id = do
  fail_if (is_blank space_id) space_id_required
  fail_if (is_blank activity_id) activity_id_required

unfoldable pub find_by_id_in_space : String → String → List Activity → Outcome Activity
find_by_id_in_space space_id activity_id rows = do
  no_ids space_id activity_id
  or_fail record_not_found (find_where key activity_id (is_live_in space_id) rows)

abbrev pub set_trimmed : Option String → String → String
set_trimmed none old = old
set_trimmed (some s) old = trim_space s

abbrev pub set_time : Option Time → Time → Time
set_time none old = old
set_time (some t) old = t

-- The `UPDATE` that applyUpdate builds; the patch is merged in SQL.
unfoldable pub updated_row : UpdateFields → Time → Activity → Activity
unfolding apply_details_patch
updated_row fields updated_at a = record {
  id = a.id;
  space_id = a.space_id;
  created_by_member_id = a.created_by_member_id;
  kind = set_trimmed fields.kind a.kind;
  subject = set_trimmed fields.subject a.subject;
  note = set_trimmed fields.note a.note;
  details = apply_details_patch a.details fields.details_patch;
  occurred_at = set_time fields.occurred_at a.occurred_at;
  created_at = a.created_at;
  updated_at = updated_at;
  deleted_at = a.deleted_at;
}

abbrev pub is_empty : Details → Bool
is_empty [] = true
is_empty (e ∷ d) = false

abbrev pub nothing_to_update : UpdateFields → Bool
nothing_to_update f =
    not (is_some f.kind)
    && not (is_some f.subject)
    && not (is_some f.note)
    && not (is_some f.occurred_at)
    && is_empty f.details_patch

unfoldable pub apply_update :
    String → String → UpdateFields → Time → List Activity → Outcome (List Activity)
unfolding updated_row
apply_update space_id activity_id fields updated_at rows = do
  fail_if (nothing_to_update fields) update_required
  or_fail record_not_found
      (update_where key activity_id (is_live_in space_id) (updated_row fields updated_at) rows)

-- `Update`
unfoldable pub update :
    String → String → UpdateFields → Time → List Activity → Outcome (List Activity)
unfolding apply_update
update space_id activity_id fields updated_at rows = do
  no_ids space_id activity_id
  apply_update space_id activity_id fields updated_at rows

-- `UpdateLocked`: the row as it is after the update, and the new rows.
unfoldable pub update_locked :
    String
    → String
    → (Activity → Outcome UpdateFields)
    → Time
    → List Activity
    → Outcome (Activity × List Activity)
unfolding apply_update
update_locked space_id activity_id prepare updated_at rows = do
  no_ids space_id activity_id
  current ← or_fail record_not_found (find_where key activity_id (is_live_in space_id) rows)
  fields ← prepare current
  rows' ← apply_update space_id activity_id fields updated_at rows
  updated ← or_fail record_not_found (find_where key activity_id (is_live_in space_id) rows')
  ok (updated, rows')

abbrev pub deleted_row : Time → Activity → Activity
deleted_row t a = record {
  id = a.id;
  space_id = a.space_id;
  created_by_member_id = a.created_by_member_id;
  kind = a.kind;
  subject = a.subject;
  note = a.note;
  details = a.details;
  occurred_at = a.occurred_at;
  created_at = a.created_at;
  updated_at = t;
  deleted_at = some t;
}

unfoldable pub soft_delete : String → String → Time → List Activity → Outcome (List Activity)
soft_delete space_id activity_id deleted_at rows = do
  no_ids space_id activity_id
  or_fail record_not_found
      (update_where key activity_id (is_live_in space_id) (deleted_row deleted_at) rows)
