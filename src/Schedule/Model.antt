-- ===== src/Schedule/Model.antt =====
-- internal/domain/scheduledmessage/model.go: the rows of scheduled_messages,
-- scheduled_message_deliveries and space_channels. A text enum of the source is a data type with
-- its constants, and `other` for any text that is none of them where the code has such a branch.
-- A time is a number of nanoseconds since Go's zero time, so the zero time is 0.
use family_assistant.Base.{ℕ, String, Option, Bool, true, false, if◌then◌else◌}
use family_assistant.Base.Text.{◌=ₛ◌}

abbrev pub Time : Type 0
Time = ℕ

pub data Recurrence : Type 0 where
  once daily weekly : Recurrence
  other : String → Recurrence

pub data ContentMode : Type 0 where
  fixed ai : ContentMode
  other : String → ContentMode

pub data TargetKind : Type 0 where
  dm group : TargetKind
  other : String → TargetKind

pub data ScheduleStatus : Type 0 where
  active sent failed cancelled unsubscribed : ScheduleStatus
  other : String → ScheduleStatus

pub data DeliveryStatus : Type 0 where
  pending sent skipped failed cancelled : DeliveryStatus
  -- The zero value: the empty text.
  unset : DeliveryStatus

pub record Schedule : Type 0 where
  pub id : String
  pub space_id : String
  pub created_by_member_id : String
  pub target : TargetKind
  pub recipient_member_id : Option String
  pub space_channel_id : Option String
  pub content_mode : ContentMode
  pub content : String
  pub recurrence : Recurrence
  pub timezone : String
  pub start_at : Time
  pub next_scheduled_at : Option Time
  pub status : ScheduleStatus
  pub unsubscribed_by_member_id : Option String
  pub unsubscribed_at : Option Time
  pub created_at : Time
  pub updated_at : Time

pub record Delivery : Type 0 where
  pub id : String
  pub scheduled_message_id : String
  pub scheduled_at : Time
  pub content_snapshot : Option String
  pub generation_attempts : ℕ
  pub delivery_attempts : ℕ
  pub next_attempt_at : Option Time
  pub lease_token : Option String
  pub lease_expires_at : Option Time
  pub status : DeliveryStatus
  pub failure_category : Option String
  pub sent_at : Option Time
  pub created_at : Time
  pub updated_at : Time

pub record SpaceChannel : Type 0 where
  pub id : String
  pub space_id : String
  pub channel : String
  pub external_chat_id : String

abbrev pub is_active : ScheduleStatus → Bool
is_active ScheduleStatus.active = true
is_active _ = false

abbrev pub is_pending : DeliveryStatus → Bool
is_pending DeliveryStatus.pending = true
is_pending _ = false

abbrev pub is_once : Recurrence → Bool
is_once Recurrence.once = true
is_once _ = false

-- `from == to` on two statuses.
abbrev pub same_status : ScheduleStatus → ScheduleStatus → Bool
same_status ScheduleStatus.active ScheduleStatus.active = true
same_status ScheduleStatus.sent ScheduleStatus.sent = true
same_status ScheduleStatus.failed ScheduleStatus.failed = true
same_status ScheduleStatus.cancelled ScheduleStatus.cancelled = true
same_status ScheduleStatus.unsubscribed ScheduleStatus.unsubscribed = true
same_status (ScheduleStatus.other a) (ScheduleStatus.other b) = a =ₛ b
same_status _ _ = false

-- The `switch to` of `CanTransitionStatus`.
abbrev pub is_final : ScheduleStatus → Bool
is_final ScheduleStatus.sent = true
is_final ScheduleStatus.failed = true
is_final ScheduleStatus.cancelled = true
is_final ScheduleStatus.unsubscribed = true
is_final _ = false

unfoldable pub can_transition_status : ScheduleStatus → ScheduleStatus → Bool
can_transition_status from to =
    if same_status from to then true else if is_active from then is_final to else false
