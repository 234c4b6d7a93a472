-- ===== src/Reminder/Model.antt =====
-- internal/domain/reminder/model.go
pub mod Laws
use family_assistant.Base.{
  ℕ, String, Option, none, some, Bool, true, false, List, ltb, if◌then◌else◌,
}
use family_assistant.Base.Result.{Result, ok, err}
use family_assistant.Base.Text.{◌=ₛ◌, trim_space, to_lower, rune_count}
use family_assistant.Schedule.Model.{Time}

pub data Status : Type 0 where
  pending sent completed cancelled : Status

-- The errors of the package and of the database.
pub data ReminderError : Type 0 where
  space_id_required reminder_id_required update_required status_conflict : ReminderError
  invalid_status invalid_replace_key record_not_found duplicate_key : ReminderError
  replace_key_violation replace_key_conflict : ReminderError

abbrev pub Outcome {ℓ} : Type ℓ → Type ℓ
Outcome A = Result ReminderError A

abbrev pub known_status : String → Outcome (Option Status)
known_status s =
    if s =ₛ "PENDING"
    then ok (some pending)
    else if s =ₛ "SENT"
    then ok (some sent)
    else if s =ₛ "COMPLETED"
    then ok (some completed)
    else if s =ₛ "CANCELLED"
    then ok (some cancelled)
    else err invalid_status

-- `ParseStatus`
unfoldable pub parse_status : String → Outcome (Option Status)
parse_status value = if trim_space value =ₛ "" then ok none else known_status (trim_space value)

-- The text that the database and the API hold for a status.
unfoldable pub status_text : Status → String
status_text pending = "PENDING"
status_text sent = "SENT"
status_text completed = "COMPLETED"
status_text cancelled = "CANCELLED"

abbrev normal_key : String → Outcome (Option String)
normal_key key =
    if key =ₛ ""
    then ok none
    else if ltb 128 (rune_count key)
    then err invalid_replace_key
    else ok (some key)

-- `NormalizeReplaceKey`
unfoldable pub normalize_replace_key : String → Outcome (Option String)
normalize_replace_key raw = normal_key (to_lower (trim_space raw))

pub record Reminder : Type 0 where
  pub id : String
  pub space_id : String
  pub created_by_member_id : String
  pub assignee_member_id : Option String
  pub title : String
  pub description : String
  pub scheduled_at : Time
  pub status : Status
  pub delivery_provider : String
  pub delivery_target : String
  pub notification_claimed_at : Option Time
  pub notified_at : Option Time
  pub completed_at : Option Time
  pub created_at : Time
  pub updated_at : Time
  pub deleted_at : Option Time
  pub replace_key : Option String

pub record UpdateFields : Type 0 where
  pub title : Option String
  pub description : Option String
  pub scheduled_at : Option Time
  pub assignee_member_id : Option String
  pub clear_assignee : Bool

pub data ReplaceOutcome : Type 0 where
  no_key created replaced kept_existing : ReplaceOutcome

pub record ReplaceResult : Type 0 where
  pub outcome : ReplaceOutcome
  pub reminder : Reminder
  pub replaced_rows : List Reminder
  pub completed_rows : List Reminder

abbrev pub is_pending : Status → Bool
is_pending pending = true
is_pending _ = false

abbrev pub is_sent : Status → Bool
is_sent sent = true
is_sent _ = false
