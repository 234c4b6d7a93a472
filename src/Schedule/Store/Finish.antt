-- ===== src/Schedule/Store/Finish.antt =====
-- scheduler_repository.go: the last transaction of an occurrence. `FinalizeOccurrence` records a
-- failed, skipped or cancelled delivery; `DispatchAndFinalize` sends the message through a callback
-- while it holds the locks, and records the delivery as sent. Both insert the next occurrence of a
-- recurring message and move the schedule on.
pub mod Laws
pub mod Settled
pub mod Final
pub mod Locks
pub mod Dispatch
pub mod Sent
use family_assistant.Base.{
  ℕ, suc, ◌+◌, String, Option, none, some, Bool, true, false, ◌&&◌, ◌||◌, not, List, ltb, leb, ◌==◌,
  if◌then◌else◌, is_some,
}
use family_assistant.Base.Result.{Result, ok, err, ◌>>=◌, ◌>>◌}
use family_assistant.Base.Table.{find_where, insert}
use family_assistant.Base.Text.{◌=ₛ◌, trim_space}
use family_assistant.Schedule.Model.{
  Time, Schedule, Delivery, DeliveryStatus, ScheduleStatus, SpaceChannel, TargetKind, is_active,
  is_pending,
}
use family_assistant.Schedule.Store.Rows.{
  StoreError, claim_conflict, invalid_target, invalid_whatsapp_identity, duplicate_key,
  dispatch_outcome_uncertain, other_error, Store, Directory, Lease, lease_of, is_leased, is_held,
  or_error, lock_schedule_by_id, lock_delivery, update_schedule, update_delivery, schedule_key,
  delivery_key, space_active, insert_delivery,
}
use family_assistant.Schedule.Store.Attempts.{lock_claimed}

-- `setCreatedAt`
abbrev pub or_now : Time → Time → Time
or_now t now = if t == 0 then now else t

-- `insertNextOccurrence`: a blank id is replaced by a fresh UUID.
abbrev pub next_row : String → String → Time → Delivery → Delivery
next_row fresh schedule_id at next = record next {
  id = if trim_space next.id =ₛ "" then fresh else next.id;
  scheduled_message_id = schedule_id;
  status = DeliveryStatus.pending;
  next_attempt_at = some next.scheduled_at;
  created_at = or_now next.created_at at;
  updated_at = or_now next.updated_at at;
}

unfoldable pub insert_next_occurrence :
    String → Store → String → Delivery → Time → Result StoreError Store
insert_next_occurrence fresh st schedule_id next at = do
  rows ← or_error (insert_delivery (next_row fresh schedule_id at next) st.deliveries) duplicate_key
  ok (record st { deliveries = rows })

unfoldable pub insert_if_next :
    String → Store → String → Option Delivery → Time → Result StoreError Store
unfolding insert_next_occurrence
insert_if_next fresh st schedule_id none at = ok st
insert_if_next fresh st schedule_id (some next) at =
    insert_next_occurrence fresh st schedule_id next at

-- `findSpaceIDForDelivery`: the space of the delivery's schedule, whatever that schedule's status.
unfoldable pub find_space_id : Store → String → String → Time → Result StoreError String
find_space_id st id token now = do
  d ← or_error (find_where delivery_key id (is_held token now) st.deliveries) claim_conflict
  s ←
      or_error (find_where schedule_key d.scheduled_message_id (λ s. true) st.schedules)
        claim_conflict
  ok s.space_id

-- `lockScheduleForCancellation`: the space need not be active.
unfoldable pub lock_schedule_for_cancellation :
    Directory → Store → Delivery → Lease → Result StoreError Schedule
unfolding find_space_id
lock_schedule_for_cancellation dir st d lease = do
  space ← find_space_id st d.id lease.token d.updated_at
  status ← or_error (dir.space_status space) invalid_target
  or_error
      (find_where schedule_key d.scheduled_message_id
        (λ s. s.space_id =ₛ space && is_active s.status) st.schedules)
      claim_conflict

abbrev pub is_cancelled : DeliveryStatus → Bool
is_cancelled DeliveryStatus.cancelled = true
is_cancelled _ = false

unfoldable pub lock_for_finish : Directory → Store → Delivery → Lease → Result StoreError Schedule
unfolding lock_schedule_for_cancellation
lock_for_finish dir st d lease =
    if is_cancelled d.status
    then lock_schedule_for_cancellation dir st d lease
    else lock_schedule_by_id dir st d.scheduled_message_id

-- `updateFinalDelivery`
abbrev pub final_row : Delivery → Delivery → Delivery
final_row d row = record row {
  status = d.status;
  failure_category = d.failure_category;
  sent_at = d.sent_at;
  next_attempt_at = d.next_attempt_at;
  lease_token = none;
  lease_expires_at = none;
  updated_at = d.updated_at;
}

-- What a finished occurrence writes to its schedule.
abbrev pub moved_row : ScheduleStatus → Option Time → Time → Schedule → Schedule
moved_row status next_at at row = record row {
  status = status;
  next_scheduled_at = next_at;
  updated_at = at;
}

unfoldable pub finalize_occurrence :
    Directory → String → Store → Delivery → Schedule → Option Delivery → Result StoreError Store
unfolding lock_for_finish insert_if_next
finalize_occurrence dir fresh st d s next = do
  lease ← or_error (lease_of d) claim_conflict
  locked ← lock_for_finish dir st d lease
  row ← lock_delivery st d.id d.scheduled_message_id lease d.updated_at
  finished ← update_delivery st d.id (is_leased lease d.updated_at) (final_row d) claim_conflict
  inserted ← insert_if_next fresh finished locked.id next s.updated_at
  update_schedule inserted locked.id (moved_row s.status s.next_scheduled_at s.updated_at)

-- `lockDispatchTarget`: the creator is still an active member whose role may create, and the target
-- is still there. (A blank role id is no role.)
unfoldable pub lock_creator : Directory → Schedule → Result StoreError (Unit {0})
lock_creator dir s = do
  role ← or_error (dir.member_role s.created_by_member_id s.space_id) invalid_target
  or_error (if trim_space role =ₛ "" then none else some tt) invalid_target
  or_error (if dir.may_create role then some tt else none) invalid_target

pub record DispatchTarget : Type 0 where
  pub channel : Option SpaceChannel
  pub identity : Option String

unfoldable pub lock_group_target : Directory → Schedule → Result StoreError DispatchTarget
lock_group_target dir s = do
  id ← or_error s.space_channel_id invalid_whatsapp_identity
  channel ← or_error (dir.group_channel id s.space_id) invalid_whatsapp_identity
  ok (record { channel = some channel; identity = none })

unfoldable pub lock_dm_target : Directory → Schedule → Result StoreError DispatchTarget
lock_dm_target dir s = do
  member ← or_error s.recipient_member_id invalid_whatsapp_identity
  identity ← or_error (dir.member_identity member s.space_id) invalid_whatsapp_identity
  or_error (if dir.is_whatsapp_identity (trim_space identity) then some tt else none)
      invalid_whatsapp_identity
  ok (record { channel = none; identity = some identity })

abbrev lock_target_of : TargetKind → Directory → Schedule → Result StoreError DispatchTarget
lock_target_of TargetKind.group dir s = lock_group_target dir s
lock_target_of _ dir s = lock_dm_target dir s

unfoldable pub lock_dispatch_target : Directory → Schedule → Result StoreError DispatchTarget
unfolding lock_creator lock_group_target lock_dm_target
lock_dispatch_target dir s = do lock_creator dir s; lock_target_of s.target dir s

abbrev pub sent_row : Time → Delivery → Delivery
sent_row now row = record row {
  status = DeliveryStatus.sent;
  sent_at = some now;
  lease_token = none;
  lease_expires_at = none;
  next_attempt_at = none;
  updated_at = now;
}

abbrev pub status_after : Schedule → Option Delivery → ScheduleStatus
status_after s none = ScheduleStatus.sent
status_after s (some next) = s.status

abbrev pub time_after : Option Delivery → Option Time
time_after none = none
time_after (some next) = some next.scheduled_at

-- `finalizeDispatchTx`; here no affected schedule row is a claim conflict.
abbrev pub as_claim_conflict : Result StoreError Store → Result StoreError Store
as_claim_conflict (err StoreError.conflict) = err claim_conflict
as_claim_conflict r = r

unfoldable pub finalize_dispatch :
    String → Store → Delivery → Schedule → String → Option Delivery → Time → Result StoreError Store
unfolding insert_if_next
finalize_dispatch fresh st d s token next now = do
  sent ← update_delivery st d.id (is_held token now) (sent_row now) claim_conflict
  inserted ← insert_if_next fresh sent s.id next now
  as_claim_conflict
      (update_schedule inserted s.id (moved_row (status_after s next) (time_after next) now))

-- What the transaction has locked when it calls back.
pub record Locked : Type 0 where
  pub schedule : Schedule
  pub delivery : Delivery
  pub target : DispatchTarget

unfoldable pub lock_for_dispatch :
    Directory → Store → String → String → Time → Result StoreError Locked
unfolding find_space_id lock_dispatch_target
lock_for_dispatch dir st id token now = do
  space ← find_space_id st id token now
  status ← or_error (dir.space_status space) invalid_target
  or_error (if space_active dir space then some tt else none) invalid_target
  held ← or_error (find_where delivery_key id (is_held token now) st.deliveries) claim_conflict
  schedule ←
      or_error
        (find_where schedule_key held.scheduled_message_id
          (λ s. is_active s.status && space_active dir s.space_id && s.space_id =ₛ space)
          st.schedules)
        claim_conflict
  delivery ←
      or_error
        (find_where delivery_key id
          (λ d. d.scheduled_message_id =ₛ schedule.id && is_held token now d) st.deliveries)
        claim_conflict
  target ← lock_dispatch_target dir schedule
  ok (record { schedule = schedule; delivery = delivery; target = target })

-- An error after the callback accepted the message leaves the outcome uncertain.
abbrev pub uncertain : Result StoreError Store → Result StoreError Store
uncertain (ok st) = ok st
uncertain (err e) = err (dispatch_outcome_uncertain e)

abbrev pub finish_time : Time → Result StoreError Time
finish_time t = if t == 0 then err (other_error "dispatch finalization time is required") else ok t

-- The rest of the transaction once the callback returned its time of acceptance.
unfoldable pub after_dispatch :
    (Schedule → Time → Result StoreError (Option Delivery))
    → String
    → Store
    → Locked
    → String
    → Time
    → Result StoreError Store
unfolding finalize_dispatch
after_dispatch next_occurrence fresh st l token accepted_at = uncertain (do
  at ← finish_time accepted_at
  next ← next_occurrence l.schedule at
  finalize_dispatch fresh st l.delivery l.schedule token next at)

-- `DispatchAndFinalize`: the callback is called once, if every lock is taken; the first component
-- is what it was called with, and `dispatch` is its answer.
unfoldable pub dispatch_and_finalize :
    Directory
    → String
    → Store
    → String
    → String
    → Time
    → (Schedule → Time → Result StoreError (Option Delivery))
    → (Locked → Result StoreError Time)
    → Option Locked × Result StoreError Store
unfolding lock_for_dispatch after_dispatch
dispatch_and_finalize dir fresh st id token now next_occurrence dispatch =
    elim (lock_for_dispatch dir st id token now) [
      | err e ↦ (none, err e)
      | ok l ↦ (
        some l,
        elim (dispatch l) [
          | err e ↦ err e
          | ok at ↦ after_dispatch next_occurrence fresh st l token at
        ],
      )
    ]
