-- ===== src/Schedule/Worker.antt =====
-- internal/services/scheduledmessage/scheduler.go: what the worker does with one claimed delivery.
pub mod Steps
pub mod Content
pub mod Process
pub mod Keeps
pub mod Loading
pub mod Generation
pub mod Sound
pub mod Round
mod Examples
use family_assistant.Base.{
  ℕ, ◌+◌, String, Option, none, some, Bool, true, false, not, ◌&&◌, ◌||◌, List, [], ◌∷◌, ◌++◌, ltb,
  leb, ◌==◌, if◌then◌else◌,
}
use family_assistant.Base.Result.{Result, ok, err}
use family_assistant.Base.Text.{◌=ₛ◌, trim_space, to_lower, byte_length}
use family_assistant.Schedule.Model.{
  Time, Schedule, Delivery, SpaceChannel, DeliveryStatus, ScheduleStatus, ContentMode, TargetKind,
  Recurrence, is_once,
}
use family_assistant.Schedule.Recurrence.{RecurrenceError, next_occurrence}
use family_assistant.Schedule.Store.Rows.{
  StoreError, Store, Directory, claim_conflict, invalid_target, other_error,
}
use family_assistant.Schedule.Store.Claim.{Loaded, loaded, refused, refused_rows, load_claimed}
use family_assistant.Schedule.Store.Attempts.{
  Counter, generation, delivery, attempts, reserve_attempt, persist_generated_content, record_retry,
}
use family_assistant.Schedule.Store.Finish.{
  Locked, DispatchTarget, finalize_occurrence, dispatch_and_finalize,
}
use family_assistant.Schedule.Store.Lifecycle.{is_fixed}
use family_assistant.Schedule.Worker.Steps.{
  Environment, GenerationInput, Generated, DeliveryTarget, Sent, IndexCall, World, Action, ◌>>=◌,
  ◌>>◌, pure, read, transact, query, call_index,
}

pub data WorkerError : Type 0 where
  conflicting_claim context_done state_failed outcome_uncertain : WorkerError

-- A Go error: nil is `none`.
abbrev pub Outcome : Type 0
Outcome = Option WorkerError

abbrev pub bridge_timeout : ℕ
bridge_timeout = 10_000_000_000

abbrev until_covers : Option Time → Time → Bool
until_covers none t = false
until_covers (some u) t = ltb t u

unfoldable pub lease_covers : Delivery → Time → ℕ → Bool
lease_covers d now duration = until_covers d.lease_expires_at (now + duration)

abbrev snapshot_of : Schedule → Option String
snapshot_of s = if is_fixed s.content_mode then some s.content else none

abbrev pub next_row_of : String → Schedule → Time → Delivery
next_row_of fresh s at = record {
  id = fresh;
  scheduled_message_id = s.id;
  scheduled_at = at;
  content_snapshot = snapshot_of s;
  generation_attempts = 0;
  delivery_attempts = 0;
  next_attempt_at = some at;
  lease_token = none;
  lease_expires_at = none;
  status = DeliveryStatus.pending;
  failure_category = none;
  sent_at = none;
  created_at = 0;
  updated_at = 0;
}

abbrev as_delivery :
    String
    → Schedule
    → Option (Result RecurrenceError (Option Time))
    → Result StoreError (Option Delivery)
as_delivery fresh s none = err (other_error "no occurrence")
as_delivery fresh s (some (err e)) = err (other_error "no occurrence")
as_delivery fresh s (some (ok none)) = ok none
as_delivery fresh s (some (ok (some at))) = ok (some (next_row_of fresh s at))

-- `nextOccurrence`: four rounds of the search are enough up to 106,751 days after the start; later, where
-- Go's loop goes on, they end in an error.
unfoldable pub next_delivery :
    Environment → String → Schedule → Time → Result StoreError (Option Delivery)
next_delivery env fresh s after =
    if is_once s.recurrence
    then ok none
    else as_delivery fresh s
        (next_occurrence 4 env.load_location s.recurrence s.start_at after s.timezone)

-- The error of a transaction that ends a step of the worker.
unfoldable pub step_error : Environment → StoreError → Action Outcome
step_error env StoreError.claim_conflict = pure (some conflicting_claim)
step_error env e = do
  done ← read env.is_done
  pure (some (if done then context_done else state_failed))

-- `nextErr == nil && next != nil` of a recurring schedule.
abbrev pub planned : Result StoreError (Option Delivery) → Option Delivery
planned (ok next) = next
planned (err e) = none

abbrev pub failed_schedule : Option Delivery → Time → Schedule → Schedule
failed_schedule none now s = record s {
  status = ScheduleStatus.failed;
  next_scheduled_at = none;
  updated_at = now;
}
failed_schedule (some next) now s = record s {
  status = ScheduleStatus.active;
  next_scheduled_at = some next.scheduled_at;
  updated_at = now;
}

abbrev pub ended : DeliveryStatus → String → Time → Delivery → Delivery
ended status category now d = record d {
  status = status;
  failure_category = some category;
  next_attempt_at = none;
  updated_at = now;
}

-- A skipped occurrence of generation, a failed one of delivery.
abbrev pub failed_status : Counter → Option Delivery → DeliveryStatus
failed_status generation (some next) = DeliveryStatus.skipped
failed_status _ _ = DeliveryStatus.failed

abbrev final_calls : Delivery → Option Delivery → List IndexCall
final_calls d none = IndexCall.remove d.id ∷ []
final_calls d (some next) = IndexCall.remove d.id ∷ IndexCall.upsert next.id next.scheduled_at ∷ []

abbrev pub with_unit : Result StoreError Store → Result StoreError (Unit {0} × Store)
with_unit (ok st) = ok (tt, st)
with_unit (err e) = err e

unfoldable pub finished :
    Environment → List IndexCall → Result StoreError (Unit {0}) → Action Outcome
unfolding step_error
finished env calls (ok _) = do call_index calls; pure none
finished env calls (err e) = step_error env e

-- `FinalizeOccurrence` with its error and the calls of the index.
unfoldable pub finalize : Environment → Delivery → Schedule → Option Delivery → Action Outcome
unfolding finished
finalize env d s next = do
  r ← transact env (λ dir fresh st. with_unit (finalize_occurrence dir fresh st d s next))
  finished env (final_calls d next) r

-- `finishGenerationFailureAt` and `finishDeliveryFailureAt`.
unfoldable pub finish_failure_at :
    Environment → Counter → String → Schedule → Delivery → Time → Action Outcome
unfolding next_delivery finalize
finish_failure_at env counter category s d now = do
  fresh ← read env.fresh
  let next : Option Delivery = planned (next_delivery env fresh s now)
  finalize env (ended (failed_status counter next) category now d) (failed_schedule next now s) next

unfoldable pub finish_failure :
    Environment → Counter → String → Schedule → Delivery → Action Outcome
unfolding finish_failure_at
finish_failure env counter category s d = do
  now ← read env.now
  finish_failure_at env counter category s d now

abbrev pub cancel_at : Environment → Schedule → Delivery → Option String → Action Outcome
cancel_at env s d none = pure none
cancel_at env s d (some token) = do
  now ← read env.now
  finalize env (ended DeliveryStatus.cancelled "invalid_target" now d)
      (record s { status = ScheduleStatus.cancelled; next_scheduled_at = none; updated_at = now })
      none

unfoldable pub cancel_invalid_target : Environment → Schedule → Delivery → Action Outcome
unfolding finalize
cancel_invalid_target env s d = cancel_at env s d d.lease_token

abbrev pub max_retries : Environment → Counter → ℕ
max_retries env generation = env.config.generation_max_retries
max_retries env delivery = env.config.delivery_max_retries

abbrev pub backoff : Environment → Counter → ℕ
backoff env generation = env.config.generation_retry_backoff
backoff env delivery = env.config.delivery_retry_backoff

abbrev pub category_of : Counter → String
category_of generation = "generation_failed"
category_of delivery = "delivery_failed"

abbrev pub retried : Counter → Time → Time → Delivery → Delivery
retried counter now next_attempt d = record d {
  status = DeliveryStatus.pending;
  next_attempt_at = some next_attempt;
  failure_category = some (category_of counter);
  updated_at = now;
}

unfoldable pub retry_at : Environment → Counter → Schedule → Delivery → Time → Action Outcome
unfolding finished
retry_at env counter s d now = do
  r ← transact env (λ dir fresh st. with_unit (
      record_retry dir st (retried counter now (now + backoff env counter) d)
        (record s { updated_at = now })))
  finished env (IndexCall.upsert d.id (now + backoff env counter) ∷ []) r

abbrev pub retry_or_end : Environment → Counter → Schedule → Delivery → Time → Bool → Action Outcome
retry_or_end env counter s d now true = finish_failure_at env counter (category_of counter) s d now
retry_or_end env counter s d now false = retry_at env counter s d now

unfoldable pub retry_or_finish : Environment → Counter → Schedule → Delivery → Action Outcome
unfolding retry_at finish_failure_at
retry_or_finish env counter s d = do
  now ← read env.now
  retry_or_end env counter s d now (leb (max_retries env counter + 1) (attempts counter d))
