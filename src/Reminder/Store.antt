-- ===== src/Reminder/Store.antt =====
-- internal/repositories/reminder/repository.go: the transactions on the table reminders. A transaction
-- returns the new rows or an error, which stands for its rollback. The queries see the rows that are not
-- deleted, as gorm adds to them. Of the constraints of the table the primary key and the unique index on
-- the replace keys of pending reminders are modelled.
mod Rows
pub mod Laws
pub mod Replace
use family_assistant.Base.{
  ℕ, zero, suc, String, Option, none, some, Bool, true, false, not, ◌&&◌, ◌||◌, List, [], ◌∷◌, map,
  ltb, leb, ◌==◌, if◌then◌else◌, is_some, select, take,
}
use family_assistant.Base.Int.{ℤ, pos, negsuc}
use family_assistant.Base.Table.{get, update_where, find_where}
use family_assistant.Base.Result.{Result, ok, err, ◌>>=◌, ◌>>◌}
use family_assistant.Base.Text.{◌=ₛ◌, trim_space}
use family_assistant.Schedule.Model.{Time}
use family_assistant.Reminder.Model.{
  Status, pending, sent, completed, cancelled, Reminder, UpdateFields, ReminderError,
  space_id_required, reminder_id_required, update_required, status_conflict, record_not_found,
  duplicate_key, replace_key_violation, Outcome, is_pending, is_sent,
}
pub use Rows.*

-- `insertReminder`: the columns that are not selected stay NULL.
unfoldable pub insert_reminder : Reminder → List Reminder → Outcome (List Reminder)
insert_reminder r rows =
    if is_some (get key r.id rows)
    then err duplicate_key
    else if is_pending r.status && slot_taken r rows
    then err replace_key_violation
    else ok (r ∷ rows)

-- `Create`: the new row has the id `new_id` where none was given.
unfoldable pub create : String → Reminder → List Reminder → Outcome (List Reminder)
unfolding insert_reminder
create new_id r rows = do
  fail_if (is_blank r.space_id) space_id_required
  insert_reminder (with_id new_id r) rows

abbrev limit_of : ℤ → ℕ
limit_of (pos zero) = 50
limit_of (pos (suc n)) = suc n
limit_of (negsuc n) = 50

abbrev is_stale : Option Time → Time → Bool
is_stale none before = true
is_stale (some t) before = ltb t before

-- The WHERE clause of ClaimDueForNotification.
abbrev pub is_claimable : Time → Time → Reminder → Bool
is_claimable now stale_before r =
    is_open r
    && leb r.scheduled_at now
    && not (is_some r.notified_at)
    && is_stale r.notification_claimed_at stale_before

abbrev pub claimed_row : Time → Reminder → Reminder
claimed_row now r = changed_row r.status (some now) r.notified_at r.completed_at r.deleted_at now r

-- The claimed reminder that is returned: as it was read, with the time of the claim.
abbrev pub read_row : Time → Reminder → Reminder
read_row now r =
    changed_row r.status (some now) r.notified_at r.completed_at r.deleted_at r.updated_at r

abbrev pub due_rows : Time → Time → ℤ → List Reminder → List Reminder
due_rows now stale_before limit rows =
    take (limit_of limit) (sort_rows earlier (select (is_claimable now stale_before) rows))

abbrev pub to_claim : List Reminder → Reminder → Bool
to_claim due r = has_id r.id due && is_open r && not (is_some r.notified_at)

-- `ClaimDueForNotification`: the claimed reminders and the new rows.
unfoldable pub claim_due : Time → Time → ℤ → List Reminder → List Reminder × List Reminder
claim_due now stale_before limit rows =
    let due = due_rows now stale_before limit rows in
    (map (read_row now) due, update_all (to_claim due) (claimed_row now) rows)

abbrev same_time : Option Time → Time → Bool
same_time none t = false
same_time (some u) t = u == t

-- Pending, not notified, and claimed at that time.
abbrev pub is_claimed : Time → Reminder → Bool
is_claimed claimed_at r =
    is_open r && not (is_some r.notified_at) && same_time r.notification_claimed_at claimed_at

abbrev pub guard_claim : String → Time → Outcome (Unit {0})
guard_claim id claimed_at = do
  fail_if (is_blank id) reminder_id_required
  fail_if (claimed_at == 0) status_conflict

abbrev pub notified_row : Time → Reminder → Reminder
notified_row now r = changed_row sent none (some now) r.completed_at r.deleted_at now r

-- `MarkNotificationSent`
unfoldable pub mark_notification_sent :
    String → Time → Time → List Reminder → Outcome (List Reminder)
mark_notification_sent id claimed_at sent_at rows = do
  guard_claim id claimed_at
  or_fail status_conflict (update_where key id (is_claimed claimed_at) (notified_row sent_at) rows)

abbrev pub released_row : Time → Reminder → Reminder
released_row now r = changed_row r.status none r.notified_at r.completed_at r.deleted_at now r

-- `ReleaseNotificationClaim`; `now` is the clock's time.
unfoldable pub release_notification_claim :
    String → Time → Time → List Reminder → Outcome (List Reminder)
release_notification_claim id claimed_at now rows = do
  guard_claim id claimed_at
  or_fail status_conflict (update_where key id (is_claimed claimed_at) (released_row now) rows)

abbrev pub guard_ids : String → String → Outcome (Unit {0})
guard_ids space_id id = do
  fail_if (is_blank space_id) space_id_required
  fail_if (is_blank id) reminder_id_required

abbrev pub is_unfinished : String → Reminder → Bool
is_unfinished space_id r =
    is_live r && r.space_id =ₛ space_id && (is_pending r.status || is_sent r.status)

abbrev pub completed_row : Time → Reminder → Reminder
completed_row now r =
    changed_row completed r.notification_claimed_at r.notified_at (some now) r.deleted_at now r

-- `CompleteUnfinished`
unfoldable pub complete_unfinished :
    String → String → Time → List Reminder → Outcome (List Reminder)
complete_unfinished space_id id now rows = do
  guard_ids space_id id
  or_fail status_conflict (update_where key id (is_unfinished space_id) (completed_row now) rows)

abbrev set_to {ℓ} : {A : Type ℓ} → Option A → A → A
set_to none old = old
set_to (some a) old = a

abbrev set_trimmed : Option String → String → String
set_trimmed none old = old
set_trimmed (some s) old = trim_space s

abbrev set_assignee : Bool → Option String → Option String → Option String
set_assignee true new old = none
set_assignee false none old = old
set_assignee false (some s) old = some (trim_space s)

abbrev pub updated_row : UpdateFields → Time → Reminder → Reminder
updated_row f now r = record {
  id = r.id;
  space_id = r.space_id;
  created_by_member_id = r.created_by_member_id;
  assignee_member_id = set_assignee f.clear_assignee f.assignee_member_id r.assignee_member_id;
  title = set_trimmed f.title r.title;
  description = set_to f.description r.description;
  scheduled_at = set_to f.scheduled_at r.scheduled_at;
  status = r.status;
  delivery_provider = r.delivery_provider;
  delivery_target = r.delivery_target;
  notification_claimed_at = r.notification_claimed_at;
  notified_at = r.notified_at;
  completed_at = r.completed_at;
  created_at = r.created_at;
  updated_at = now;
  deleted_at = r.deleted_at;
  replace_key = r.replace_key;
}

abbrev pub nothing_to_update : UpdateFields → Bool
nothing_to_update f =
    not (is_some f.title)
    && not (is_some f.description)
    && not (is_some f.scheduled_at)
    && not (f.clear_assignee)
    && not (is_some f.assignee_member_id)

-- `UpdatePending`
unfoldable pub update_pending :
    String → String → UpdateFields → Time → List Reminder → Outcome (List Reminder)
update_pending space_id id f now rows = do
  guard_ids space_id id
  fail_if (nothing_to_update f) update_required
  or_fail status_conflict
      (update_where key id (λ r. is_open r && r.space_id =ₛ space_id) (updated_row f now) rows)

abbrev pub deleted_row : Status → Time → Reminder → Reminder
deleted_row status now r =
    changed_row status r.notification_claimed_at r.notified_at r.completed_at (some now) now r

-- `SoftDelete`
unfoldable pub soft_delete :
    String → String → Status → Time → List Reminder → Outcome (List Reminder)
soft_delete space_id id status now rows = do
  guard_ids space_id id
  or_fail record_not_found
      (update_where key id (λ r. is_live r && r.space_id =ₛ space_id) (deleted_row status now) rows)
