-- ===== src/Activity/Model.antt =====
-- internal/domain/activity/model.go, and the types of feeding.go and feeding_report.go. A nil map of
-- details is the empty one.
use family_assistant.Base.{String, Option, Bool, List}
use family_assistant.Schedule.Model.{Time}
use family_assistant.Activity.Values.{Details}
use family_assistant.Activity.Report.{FeedingReport}
use family_assistant.Base.Int.{ℤ}

-- A row of space_activities.
pub record Activity : Type 0 where
  pub id : String
  pub space_id : String
  pub created_by_member_id : String
  pub kind : String
  pub subject : String
  pub note : String
  pub details : Details
  pub occurred_at : Time
  pub created_at : Time
  pub updated_at : Time
  pub deleted_at : Option Time

pub record UpdateFields : Type 0 where
  pub kind : Option String
  pub subject : Option String
  pub note : Option String
  pub occurred_at : Option Time
  pub details_patch : Details

pub record FeedingSelector : Type 0 where
  pub feeding_id : String
  pub feeding_time : Option Time
  pub message_at : Time

pub record FeedingCandidate : Type 0 where
  pub id : String
  pub occurred_at : Time
  pub volume_ml : Option ℤ
  pub open_feeding : Bool

-- No single feeding could be chosen: the reason is "ambiguous" or "none".
pub record FeedingTargetError : Type 0 where
  pub reason : String
  pub candidates : List FeedingCandidate

pub record FeedingReportRequest : Type 0 where
  pub space_id : String
  pub selector : FeedingSelector
  pub report : FeedingReport
  pub reported_at : Time
  pub now : Time
  -- `true` where none is set.
  pub can_mutate : Activity → Bool

pub record FeedingReportResult : Type 0 where
  pub activity : Activity
  pub previous : Details
  pub changed : Bool
