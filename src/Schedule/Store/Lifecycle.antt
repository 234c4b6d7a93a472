-- ===== src/Schedule/Store/Lifecycle.antt =====
-- repository.go: the transactions that the clients run on the two tables. `Create` inserts a
-- schedule with its first delivery, `UpdateActive` changes an active schedule and replaces its
-- pending delivery, `Cancel` and `Unsubscribe` close it. A fresh UUID is the parameter `fresh`.
pub mod Cancelled
pub mod Closed
pub mod Created
pub mod Placed
pub mod Replaced
mod Examples
use family_assistant.Base.{
  ℕ, String, Option, none, some, Bool, true, false, ◌&&◌, ◌||◌, not, List, [], ◌∷◌, map, select,
  leb, ltb, ◌==◌, if◌then◌else◌, is_some,
}
use family_assistant.Base.Int.{ℤ, pos, negsuc}
use family_assistant.Base.Result.{Result, ok, err, ◌>>=◌, ◌>>◌}
use family_assistant.Base.Table.{find_where, insert, modify}
use family_assistant.Base.Text.{◌=ₛ◌, trim_space}
use family_assistant.Schedule.Model.{
  Time, Schedule, Delivery, DeliveryStatus, ScheduleStatus, ContentMode, Recurrence, is_active,
  is_pending,
}
use family_assistant.Schedule.Store.Rows.{
  StoreError, conflict, duplicate_key, Store, Directory, or_error, update_schedule, schedule_key,
  delivery_key, space_active, find_occurrence, insert_delivery,
}
use family_assistant.Schedule.Store.Claim.{in_order}
use family_assistant.Schedule.Store.Finish.{or_now, is_cancelled}

abbrev pub require : Bool → StoreError → Result StoreError (Unit {0})
require true e = ok tt
require false e = err e

abbrev pub fill : String → String → String
fill fresh id = if trim_space id =ₛ "" then fresh else id

abbrev pub fill_time : Option Time → Time → Option Time
fill_time none t = some t
fill_time (some u) t = some u

abbrev pub fill_delivery_status : DeliveryStatus → DeliveryStatus
fill_delivery_status DeliveryStatus.unset = DeliveryStatus.pending
fill_delivery_status s = s

abbrev pub fill_schedule_status : ScheduleStatus → ScheduleStatus
fill_schedule_status (ScheduleStatus.other t) =
    if t =ₛ "" then ScheduleStatus.active else ScheduleStatus.other t
fill_schedule_status s = s

abbrev pub is_fixed : ContentMode → Bool
is_fixed ContentMode.fixed = true
is_fixed _ = false

abbrev pub fill_snapshot : Bool → Option String → String → Option String
fill_snapshot true none content = some content
fill_snapshot _ snapshot content = snapshot

-- The schedule and the first delivery after `setCreationDefaults`.
abbrev pub created_schedule : String → Time → Schedule → Schedule
created_schedule fresh now s = record s {
  id = fill fresh s.id;
  next_scheduled_at = fill_time s.next_scheduled_at s.start_at;
  status = fill_schedule_status s.status;
  created_at = or_now s.created_at now;
  updated_at = or_now s.updated_at now;
}

abbrev pub created_delivery : String → Time → Schedule → Delivery → Delivery
created_delivery fresh now s d = record d {
  id = fill fresh d.id;
  scheduled_message_id = s.id;
  status = fill_delivery_status d.status;
  next_attempt_at = fill_time d.next_attempt_at d.scheduled_at;
  content_snapshot =
      fill_snapshot (is_pending (fill_delivery_status d.status) && is_fixed s.content_mode)
        d.content_snapshot s.content;
  created_at = or_now d.created_at now;
  updated_at = or_now d.updated_at now;
}

unfoldable pub insert_schedule : Store → Schedule → Result StoreError Store
insert_schedule st s = do
  rows ← or_error (insert schedule_key s st.schedules) duplicate_key
  ok (record st { schedules = rows })

unfoldable pub insert_first : Store → Delivery → Result StoreError Store
insert_first st d = do
  rows ← or_error (insert_delivery d st.deliveries) duplicate_key
  ok (record st { deliveries = rows })

unfoldable pub create_both :
    String → Time → Store → Schedule → Delivery → Bool → Result StoreError Store
unfolding insert_schedule insert_first
create_both fresh now st s d false = err conflict
create_both fresh now st s d true = do
  st1 ← insert_schedule st s
  insert_first st1 (created_delivery fresh now s d)

unfoldable pub create :
    String → String → Time → Store → Schedule → Delivery → Result StoreError Store
unfolding create_both
create fresh_schedule fresh_delivery now st s d =
    create_both fresh_delivery now st (created_schedule fresh_schedule now s) d
      (d.scheduled_at == s.start_at)

-- `lockSchedule`
unfoldable pub lock_schedule : Directory → Store → String → String → Result StoreError Schedule
lock_schedule dir st space id =
    or_error
      (find_where schedule_key id
        (λ s. s.space_id =ₛ space && is_active s.status && space_active dir s.space_id)
        st.schedules)
      conflict

-- `pendingDeliveryWhere`
unfoldable pub is_pending_of : String → Delivery → Bool
is_pending_of schedule_id d = d.scheduled_message_id =ₛ schedule_id && is_pending d.status

abbrev pub scheduled_time : Delivery → Time
scheduled_time d = d.scheduled_at

unfoldable pub pending_deliveries : Store → String → List Delivery
unfolding is_pending_of
pending_deliveries st id =
    in_order scheduled_time delivery_key (select (is_pending_of id) st.deliveries)

abbrev pub cancelled_row : Time → Delivery → Delivery
cancelled_row at d = record d {
  status = DeliveryStatus.cancelled;
  lease_token = none;
  lease_expires_at = none;
  updated_at = at;
}

-- The update of every row that passes a test.
abbrev pub cancel_where : (Delivery → Bool) → Time → Delivery → Delivery
cancel_where test at d = if test d then cancelled_row at d else d

abbrev pub cancel_if_any : List Delivery → String → Time → Store → Store
cancel_if_any [] id at st = st
cancel_if_any (d ∷ ds) id at st = record st {
  deliveries = map (cancel_where (is_pending_of id) at) st.deliveries;
}

abbrev member_or : Option String → Option String → Option String
member_or none old = old
member_or (some m) old = some m

abbrev time_or_old : Option String → Time → Option Time → Option Time
time_or_old none at old = old
time_or_old (some m) at old = some at

abbrev pub closed_row : Option String → ScheduleStatus → Time → Schedule → Schedule
closed_row by status at s = record s {
  status = status;
  next_scheduled_at = none;
  updated_at = at;
  unsubscribed_by_member_id = member_or by s.unsubscribed_by_member_id;
  unsubscribed_at = time_or_old by at s.unsubscribed_at;
}

unfoldable pub transition_terminal :
    Directory
    → Store
    → String
    → String
    → Option String
    → ScheduleStatus
    → Time
    → Result StoreError (List String × Store)
unfolding lock_schedule pending_deliveries is_pending_of
transition_terminal dir st space id by status at = do
  s ← lock_schedule dir st space id
  let pending : List Delivery = pending_deliveries st s.id
  closed ← update_schedule (cancel_if_any pending s.id at st) s.id (closed_row by status at)
  ok (map delivery_key pending, closed)

unfoldable pub cancel :
    Directory → Store → String → String → Time → Result StoreError (List String × Store)
unfolding transition_terminal
cancel dir st space id at = transition_terminal dir st space id none ScheduleStatus.cancelled at

unfoldable pub unsubscribe :
    Directory → Store → String → String → String → Time → Result StoreError (List String × Store)
unfolding transition_terminal
unsubscribe dir st space id member at =
    transition_terminal dir st space id (some member) ScheduleStatus.unsubscribed at

-- internal/dto/scheduled_message.go: a field that is not given stays.
pub record UpdateInput : Type 0 where
  pub content_mode : Option ContentMode
  pub content : Option String
  pub recurrence : Option Recurrence
  pub timezone : Option String
  pub start_at : Option Time

unfoldable pub needs_occurrence_replacement : UpdateInput → Bool
needs_occurrence_replacement u =
    is_some u.content_mode
    || is_some u.content
    || is_some u.recurrence
    || is_some u.timezone
    || is_some u.start_at

abbrev given {ℓ} : {A : Type ℓ} → Option A → A → A
given none old = old
given (some new) old = new

abbrev next_or : Option Delivery → Option Time → Option Time
next_or none old = old
next_or (some next) old = some next.scheduled_at

-- `scheduleUpdates` and the entry of the next occurrence, on a row.
abbrev pub updated_row : UpdateInput → Option Delivery → Time → Schedule → Schedule
updated_row u next at s = record s {
  content_mode = given u.content_mode s.content_mode;
  content = given u.content s.content;
  recurrence = given u.recurrence s.recurrence;
  timezone = given u.timezone s.timezone;
  start_at = given u.start_at s.start_at;
  next_scheduled_at = next_or next s.next_scheduled_at;
  updated_at = at;
}

-- A pending delivery of the schedule that is not the existing one.
unfoldable pub is_replaced : String → Option Delivery → Delivery → Bool
unfolding is_pending_of
is_replaced id none d = is_pending_of id d
is_replaced id (some e) d = is_pending_of id d && not (d.id =ₛ e.id)

abbrev pub revived_row : Delivery → Time → Delivery → Delivery
revived_row next at row = record row {
  content_snapshot = next.content_snapshot;
  next_attempt_at = some row.scheduled_at;
  lease_token = none;
  lease_expires_at = none;
  status = DeliveryStatus.pending;
  failure_category = none;
  sent_at = none;
  updated_at = at;
}

abbrev pub replacement_row : String → String → Time → Delivery → Delivery
replacement_row fresh id at next = record next {
  id = fill fresh next.id;
  scheduled_message_id = id;
  status = DeliveryStatus.pending;
  next_attempt_at = some next.scheduled_at;
  created_at = or_now next.created_at at;
  updated_at = or_now next.updated_at at;
}

unfoldable pub write_replacement :
    String
    → String
    → Delivery
    → Time
    → Option Delivery
    → List Delivery
    → Result StoreError (List Delivery)
write_replacement fresh id next at none rows =
    or_error (insert_delivery (replacement_row fresh id at next) rows) duplicate_key
write_replacement fresh id next at (some e) rows =
    ok (modify delivery_key e.id (revived_row next at) rows)

abbrev pub is_replaceable : Option Delivery → Bool
is_replaceable none = true
is_replaceable (some e) = is_pending e.status || is_cancelled e.status

unfoldable pub replace_pending_occurrence :
    String → Store → String → Delivery → Time → Result StoreError (List String × Store)
unfolding pending_deliveries is_replaced write_replacement
replace_pending_occurrence fresh st id next at = do
  let pending : List Delivery = pending_deliveries st id
  let existing : Option Delivery = find_occurrence id next.scheduled_at st.deliveries
  require (is_replaceable existing) conflict
  rows ←
      write_replacement fresh id next at existing
        (map (cancel_where (is_replaced id existing) at) st.deliveries)
  ok (map delivery_key pending, record st { deliveries = rows })

unfoldable pub replace_if_next :
    String → Store → String → Option Delivery → Time → Result StoreError (List String × Store)
unfolding replace_pending_occurrence
replace_if_next fresh st id none at = ok ([], st)
replace_if_next fresh st id (some next) at = replace_pending_occurrence fresh st id next at

unfoldable pub update_locked :
    Directory
    → String
    → Store
    → String
    → String
    → UpdateInput
    → Option Delivery
    → Time
    → Result StoreError (List String × Store)
unfolding lock_schedule replace_if_next needs_occurrence_replacement
update_locked dir fresh st space id u next at = do
  s ← lock_schedule dir st space id
  replaced ← replace_if_next fresh st s.id next at
  require (needs_occurrence_replacement u || is_some next) conflict
  st' ← update_schedule replaced.1 s.id (updated_row u next at)
  ok (replaced.0, st')

unfoldable pub update_active :
    Directory
    → String
    → Store
    → String
    → String
    → UpdateInput
    → Option Delivery
    → Time
    → Result StoreError (List String × Store)
unfolding update_locked needs_occurrence_replacement
update_active dir fresh st space id u next at =
    if needs_occurrence_replacement u && not (is_some next)
    then err conflict
    else update_locked dir fresh st space id u next at

-- A Go `int`.
unfoldable pub bounded_schedule_list_limit : ℤ → ℕ
bounded_schedule_list_limit (negsuc n) = 100
bounded_schedule_list_limit (pos n) = if ltb n 1 || ltb 100 n then 100 else n
