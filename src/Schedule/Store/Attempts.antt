-- ===== src/Schedule/Store/Attempts.antt =====
-- scheduler_repository.go: a worker reserves an attempt before it generates or sends, persists the
-- generated text, and records a retry. Each transaction locks the active schedule and the delivery
-- under its lease first.
pub mod Laws
use family_assistant.Base.{
  ℕ, suc, ◌+◌, String, Option, none, some, Bool, true, false, ◌&&◌, ◌||◌, not, List, ltb, leb, ◌==◌,
  if◌then◌else◌, is_some,
}
use family_assistant.Base.Result.{Result, ok, err, ◌>>=◌, ◌>>◌}
use family_assistant.Base.Text.{◌=ₛ◌}
use family_assistant.Schedule.Model.{
  Time, Schedule, Delivery, DeliveryStatus, ScheduleStatus, same_status,
}
use family_assistant.Schedule.Store.Rows.{
  StoreError, claim_conflict, attempt_limit_reached, Store, Directory, Lease, lease_of, is_leased,
  or_error, lock_schedule_by_id, lock_delivery, update_schedule, update_delivery,
}

pub data Counter : Type 0 where
  generation delivery : Counter

abbrev pub attempts : Counter → Delivery → ℕ
attempts generation d = d.generation_attempts
attempts delivery d = d.delivery_attempts

-- `counter = counter + 1, updated_at = at`, on the row and on the delivery in memory.
abbrev pub counted : Counter → Time → Delivery → Delivery
counted generation at d = record d {
  generation_attempts = d.generation_attempts + 1;
  updated_at = at;
}
counted delivery at d = record d { delivery_attempts = d.delivery_attempts + 1; updated_at = at }

-- The locks that the transactions of a claimed delivery take.
unfoldable pub lock_claimed :
    Directory → Store → Delivery → Lease → Time → Result StoreError Schedule
lock_claimed dir st d lease now = do
  schedule ← lock_schedule_by_id dir st d.scheduled_message_id
  row ← lock_delivery st d.id d.scheduled_message_id lease now
  ok schedule

unfoldable pub reserve_attempt :
    Counter → Directory → Store → Delivery → Time → ℕ → Result StoreError (Delivery × Store)
unfolding lock_claimed
reserve_attempt counter dir st d at max_attempts = do
  lease ← or_error (lease_of d) claim_conflict
  limit ← or_error (if max_attempts == 0 then none else some max_attempts) attempt_limit_reached
  schedule ← lock_claimed dir st d lease at
  st' ←
      update_delivery st d.id (λ row. is_leased lease at row && ltb (attempts counter row) limit)
        (counted counter at) attempt_limit_reached
  ok (counted counter at d, st')

unfoldable pub persist_generated_content :
    Directory → Store → Delivery → String → Time → Result StoreError (Delivery × Store)
unfolding lock_claimed
persist_generated_content dir st d content at = do
  lease ← or_error (lease_of d) claim_conflict
  schedule ← lock_claimed dir st d lease at
  st' ←
      update_delivery st d.id (is_leased lease at)
        (λ row. record row { content_snapshot = some content; updated_at = at }) claim_conflict
  ok (record d { content_snapshot = some content; updated_at = at }, st')

-- `updateRetryDelivery` writes the delivery in memory over the row and gives the lease back.
abbrev pub retried_row : Delivery → Delivery → Delivery
retried_row d row = record row {
  content_snapshot = d.content_snapshot;
  generation_attempts = d.generation_attempts;
  delivery_attempts = d.delivery_attempts;
  next_attempt_at = d.next_attempt_at;
  lease_token = none;
  lease_expires_at = none;
  status = d.status;
  failure_category = d.failure_category;
  updated_at = d.updated_at;
}

abbrev pub retry_schedule : Bool → Store → Schedule → Schedule → Result StoreError Store
retry_schedule false st locked s = ok st
retry_schedule true st locked s = update_schedule st locked.id (λ row. record row {
  status = s.status;
  next_scheduled_at = s.next_scheduled_at;
  updated_at = s.updated_at;
})

unfoldable pub record_retry : Directory → Store → Delivery → Schedule → Result StoreError Store
unfolding lock_claimed
record_retry dir st d s = do
  lease ← or_error (lease_of d) claim_conflict
  locked ← lock_claimed dir st d lease d.updated_at
  st' ← update_delivery st d.id (is_leased lease d.updated_at) (retried_row d) claim_conflict
  retry_schedule (not (same_status s.status locked.status) || is_some s.next_scheduled_at) st'
      locked s
