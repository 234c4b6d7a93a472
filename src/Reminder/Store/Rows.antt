-- ===== src/Reminder/Store/Rows.antt =====
-- internal/repositories/reminder/repository.go: the rows of the table, its constraints, and how its
-- queries test, sort and write them.
use family_assistant.Base.{
  String, Option, none, some, Bool, true, false, not, ◌&&◌, ◌||◌, List, [], ◌∷◌, ltb, if◌then◌else◌,
  is_some,
}
use family_assistant.Base.Result.{ok, err}
use family_assistant.Base.Text.{◌=ₛ◌, trim_space}
use family_assistant.Schedule.Model.{Time}
use family_assistant.Reminder.Model.{Status, Reminder, ReminderError, Outcome, is_pending}

abbrev pub key : Reminder → String
key r = r.id

abbrev pub fail_if : Bool → ReminderError → Outcome (Unit {0})
fail_if true e = err e
fail_if false e = ok tt

abbrev pub or_fail {ℓ} : {A : Type ℓ} → ReminderError → Option A → Outcome A
or_fail e none = err e
or_fail e (some a) = ok a

abbrev pub is_blank : String → Bool
is_blank s = trim_space s =ₛ ""

abbrev pub is_live : Reminder → Bool
is_live r = not (is_some r.deleted_at)

-- A reminder that may still be sent.
abbrev pub is_open : Reminder → Bool
is_open r = is_pending r.status && is_live r

abbrev pub same_key : Option String → Option String → Bool
same_key (some a) (some b) = a =ₛ b
same_key _ _ = false

abbrev pub same_slot : Reminder → Reminder → Bool
same_slot a b = a.space_id =ₛ b.space_id && same_key a.replace_key b.replace_key

-- ux_reminders_pending_replace_key: no other pending reminder of the space has the key.
abbrev pub slot_taken : Reminder → List Reminder → Bool
slot_taken r [] = false
slot_taken r (x ∷ rows) = (is_open x && same_slot x r) || slot_taken r rows

abbrev pub with_id : String → Reminder → Reminder
with_id new_id r = record {
  id = if is_blank r.id then new_id else r.id;
  space_id = r.space_id;
  created_by_member_id = r.created_by_member_id;
  assignee_member_id = r.assignee_member_id;
  title = r.title;
  description = r.description;
  scheduled_at = r.scheduled_at;
  status = r.status;
  delivery_provider = r.delivery_provider;
  delivery_target = r.delivery_target;
  notification_claimed_at = none;
  notified_at = none;
  completed_at = r.completed_at;
  created_at = r.created_at;
  updated_at = r.updated_at;
  deleted_at = none;
  replace_key = r.replace_key;
}

-- Every column but these is kept.
abbrev pub changed_row :
    Status → Option Time → Option Time → Option Time → Option Time → Time → Reminder → Reminder
changed_row status claimed notified completed_at deleted now r = record {
  id = r.id;
  space_id = r.space_id;
  created_by_member_id = r.created_by_member_id;
  assignee_member_id = r.assignee_member_id;
  title = r.title;
  description = r.description;
  scheduled_at = r.scheduled_at;
  status = status;
  delivery_provider = r.delivery_provider;
  delivery_target = r.delivery_target;
  notification_claimed_at = claimed;
  notified_at = notified;
  completed_at = completed_at;
  created_at = r.created_at;
  updated_at = now;
  deleted_at = deleted;
  replace_key = r.replace_key;
}

module _ (before : Reminder → Reminder → Bool) where
  abbrev pub insert_sorted : Reminder → List Reminder → List Reminder
  insert_sorted r [] = r ∷ []
  insert_sorted r (x ∷ rows) =
      let rest = insert_sorted r rows in if before x r then x ∷ rest else r ∷ x ∷ rows

  -- `ORDER BY`
  abbrev pub sort_rows : List Reminder → List Reminder
  sort_rows [] = []
  sort_rows (r ∷ rows) = insert_sorted r (sort_rows rows)

abbrev pub earlier : Reminder → Reminder → Bool
earlier a b = ltb a.scheduled_at b.scheduled_at

abbrev pub later : Reminder → Reminder → Bool
later a b = ltb b.scheduled_at a.scheduled_at

-- `WHERE id IN ?`
abbrev pub has_id : String → List Reminder → Bool
has_id id [] = false
has_id id (r ∷ rows) = r.id =ₛ id || has_id id rows

-- `UPDATE … WHERE p`
abbrev pub update_all : (Reminder → Bool) → (Reminder → Reminder) → List Reminder → List Reminder
update_all p f [] = []
update_all p f (r ∷ rows) = (if p r then f r else r) ∷ update_all p f rows
