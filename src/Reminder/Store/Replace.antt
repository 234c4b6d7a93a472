-- ===== src/Reminder/Store/Replace.antt =====
-- internal/repositories/reminder/repository.go: `CreateReplacing` and `replaceOnce`.
pub mod Laws
use family_assistant.Base.{
  ℕ, String, Option, none, some, Bool, true, false, not, ◌&&◌, ◌||◌, List, [], ◌∷◌, ltb, leb,
  if◌then◌else◌, is_some, select,
}
use family_assistant.Base.Result.{Result, ok, err, ◌>>=◌, ◌>>◌}
use family_assistant.Base.Text.{◌=ₛ◌}
use family_assistant.Schedule.Model.{Time}
use family_assistant.Reminder.Model.{
  Status, pending, sent, completed, cancelled, Reminder, ReminderError, space_id_required,
  replace_key_violation, replace_key_conflict, Outcome, is_pending, is_sent, ReplaceOutcome, no_key,
  created, replaced, kept_existing, ReplaceResult,
}
use family_assistant.Reminder.Store.{
  fail_if, is_blank, is_live, same_slot, insert_reminder, create, with_id, sort_rows, later, has_id,
  update_all, changed_row,
}

-- The WHERE clause: pending or sent, of the same space and key.
abbrev pub is_matching : Reminder → Reminder → Bool
is_matching r x = is_live x && same_slot x r && (is_pending x.status || is_sent x.status)

abbrev pub pending_of : List Reminder → List Reminder
pending_of matching = select (λ x. is_pending x.status) matching

abbrev pub sent_of : Reminder → List Reminder → List Reminder
sent_of r matching =
    select (λ x. not (is_pending x.status) && leb x.scheduled_at r.scheduled_at) matching

abbrev pub cancelled_row : Time → Reminder → Reminder
cancelled_row now r =
    changed_row cancelled r.notification_claimed_at r.notified_at r.completed_at (some now) now r

abbrev pub superseded_row : Time → Reminder → Reminder
superseded_row now r =
    changed_row completed r.notification_claimed_at r.notified_at (some now) r.deleted_at now r

abbrev outcome_of : List Reminder → ReplaceOutcome
outcome_of [] = created
outcome_of (x ∷ rows) = replaced

abbrev result_of : ReplaceOutcome → Reminder → List Reminder → List Reminder → ReplaceResult
result_of o r old done = record {
  outcome = o;
  reminder = r;
  replaced_rows = old;
  completed_rows = done;
}

-- The two updates, of which an empty list of ids changes nothing.
abbrev pub closed_rows : Time → List Reminder → List Reminder → List Reminder → List Reminder
closed_rows now old done rows =
    update_all (λ x. is_live x && has_id x.id done) (superseded_row now)
      (update_all (λ x. is_live x && has_id x.id old) (cancelled_row now) rows)

abbrev pub replace_earlier :
    Reminder
    → Time
    → List Reminder
    → List Reminder
    → List Reminder
    → Outcome (ReplaceResult × List Reminder)
replace_earlier r now old done rows =
    insert_reminder r (closed_rows now old done rows)
    >>= (λ rows'. ok (result_of (outcome_of old) r old done, rows'))

-- A later pending reminder is kept.
abbrev pub keep_or_replace :
    Reminder
    → Time
    → List Reminder
    → List Reminder
    → List Reminder
    → Outcome (ReplaceResult × List Reminder)
keep_or_replace r now [] done rows = replace_earlier r now [] done rows
keep_or_replace r now (x ∷ old) done rows =
    if ltb r.scheduled_at x.scheduled_at
    then ok (result_of kept_existing x [] [], rows)
    else replace_earlier r now (x ∷ old) done rows

-- `replaceOnce`
unfoldable pub replace_once :
    Reminder → Time → List Reminder → Outcome (ReplaceResult × List Reminder)
unfolding insert_reminder
replace_once r now rows =
    let matching = sort_rows later (select (is_matching r) rows) in
    keep_or_replace r now (pending_of matching) (sent_of r matching) rows

abbrev give_up : ReminderError → ReminderError
give_up replace_key_violation = replace_key_conflict
give_up e = e

abbrev last_attempt {ℓ} : {A : Type ℓ} → Outcome A → Outcome A
last_attempt (ok a) = ok a
last_attempt (err e) = err (give_up e)

abbrev attempt_again {ℓ} : {A : Type ℓ} → Outcome A → Outcome A → Outcome A
attempt_again (err replace_key_violation) again = last_attempt again
attempt_again first again = first

abbrev without_key : String → Reminder → List Reminder → Outcome (ReplaceResult × List Reminder)
without_key new_id r rows =
    create new_id r rows >>= (λ rows'. ok (result_of no_key (with_id new_id r) [] [], rows'))

abbrev by_key :
    Option String
    → String
    → Reminder
    → Time
    → List Reminder
    → List Reminder
    → Outcome (ReplaceResult × List Reminder)
by_key none new_id r now rows rows2 = without_key new_id r rows
by_key (some k) new_id r now rows rows2 =
    attempt_again (replace_once (with_id new_id r) now rows)
      (replace_once (with_id new_id r) now rows2)

-- `CreateReplacing`: `rows2` is the table that a second attempt finds.
unfoldable pub create_replacing :
    String
    → Reminder
    → Time
    → List Reminder
    → List Reminder
    → Outcome (ReplaceResult × List Reminder)
unfolding replace_once create
create_replacing new_id r now rows rows2 = do
  fail_if (is_blank r.space_id) space_id_required
  by_key r.replace_key new_id r now rows rows2
