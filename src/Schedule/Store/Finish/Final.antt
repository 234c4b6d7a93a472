-- ===== src/Schedule/Store/Finish/Final.antt =====
-- The final transaction `FinalizeOccurrence`.
use family_assistant.Base.{
  String, Option, none, some, true, false, ◌≡◌, ◌⊎◌, ◌<◌, refl, arith, eq_iff,
}
use family_assistant.Base.Result.{ok, bind_ok}
use family_assistant.Base.Table.{get}
use family_assistant.Base.Text.{◌=ₛ◌}
use family_assistant.Schedule.Model.{Time, Schedule, Delivery, is_active, is_pending}
use family_assistant.Schedule.Store.Rows.{
  claim_conflict, Store, Directory, schedule_key, delivery_key, update_delivery, Lease, lease_of,
  is_leased, has_token, or_error, lock_delivery,
}
use family_assistant.Schedule.Store.Attempts.Laws.{leased_only}
use family_assistant.Schedule.Store.Finish.{
  lock_for_finish, insert_if_next, finalize_occurrence, final_row, moved_row,
}
use family_assistant.Schedule.Store.Finish.Laws.{or_error_ok, lock_for_finish_ok, lock_delivery_ok}
use family_assistant.Schedule.Store.Finish.Settled.{Settles, IsPlaced, settles-Settled}
use family_assistant.Schedule.Store.Invariant.{Inv}
use family_assistant.Schedule.Store.Invariant.Writes.{NoPending}

finalize-Settles :
    (dir : Directory) (fresh : String) (st st' : Store) (d : Delivery) (s : Schedule)
    (next : Option Delivery)
    → finalize_occurrence dir fresh st d s next ≡ ok st'
    → (lease : Lease) × (lease_of d ≡ some lease)
      × Settles st d.id d.scheduled_message_id
          (is_leased lease d.updated_at)
          (final_row d)
          fresh
          next
          s.updated_at
          (moved_row s.status s.next_scheduled_at s.updated_at)
          st'
unfolding finalize_occurrence
finalize-Settles dir fresh st st' d s next h =
    let (lease, g, h1) = bind_ok (or_error (lease_of d) claim_conflict) _ h in
    let (locked, l, h2) = bind_ok (lock_for_finish dir st d lease) _ h1 in
    let (row, r, h3) =
      bind_ok (lock_delivery st d.id d.scheduled_message_id lease d.updated_at) _ h2 in
    let (st1, w1, h4) =
      bind_ok (update_delivery st d.id (is_leased lease d.updated_at) (final_row d) claim_conflict)
        _ h3 in
    let (st2, w2, w3) = bind_ok (insert_if_next fresh st1 locked.id next s.updated_at) _ h4 in
    let (at, on, own) = lock_for_finish_ok dir st d lease locked l in
    let (found, mine) = lock_delivery_ok st d.id d.scheduled_message_id lease d.updated_at row r in
    (
      lease,
      or_error_ok _ claim_conflict lease g,
      record {
        st1 = st1;
        st2 = st2;
        row = row;
        locked = (locked, at, on);
        found = found;
        own = mine;
        first = w1;
        second = rw own at w2;
        third = rw own at w3;
      },
    )

abbrev LeaseOf : Lease → Delivery → Type 0
LeaseOf l d = (d.lease_token ≡ some l.token) × (d.lease_expires_at ≡ some l.until)

lease_of-LeaseOf : (d : Delivery) (l : Lease) → lease_of d ≡ some l → LeaseOf l d
lease_of-LeaseOf d l h = ground arith

has_token_ok : (o : Option String) (t : String) → has_token o t ≡ true → o ≡ some t
has_token_ok none t h = absurd (ground arith)
has_token_ok (some s) t h = ground (arith, eq_iff s t)

is_leased_ok :
    (l : Lease) (now : Time) (r : Delivery)
    → is_leased l now r ≡ true
    → (is_pending r.status ≡ true) × LeaseOf l r × (now < l.until)
unfolding is_leased
is_leased_ok l now r h =
    let token : has_token r.lease_token l.token ≡ true = ground arith in
    (ground arith, (has_token_ok r.lease_token l.token token, ground arith), ground arith)

-- What a successful FinalizeOccurrence of the delivery `d` and the schedule `s` leaves.
pub record IsFinal (fresh : String) (st : Store) (d : Delivery) (s : Schedule)
    (next : Option Delivery) (st' : Store) : Type 0 where
  pub inv : Inv st'
  -- The row was pending, under the lease that `d` carries, which was live.
  pub row : Delivery
  pub row_was : get delivery_key d.id st.deliveries ≡ some row
  pub lease : Lease
  pub lease_given : LeaseOf lease d
  pub lease_held : LeaseOf lease row
  pub lease_live : d.updated_at < lease.until
  pub was_pending : is_pending row.status ≡ true
  pub own : row.scheduled_message_id ≡ d.scheduled_message_id
  -- It has the outcome of `d` and no lease; its other fields are as they were.
  pub row' : Delivery
  pub row_is : get delivery_key d.id st'.deliveries ≡ some row'
  pub status : row'.status ≡ d.status
  pub failure : row'.failure_category ≡ d.failure_category
  pub sent : row'.sent_at ≡ d.sent_at
  pub next_attempt : row'.next_attempt_at ≡ d.next_attempt_at
  pub no_token : row'.lease_token ≡ none
  pub no_expiry : row'.lease_expires_at ≡ none
  pub own_kept : row'.scheduled_message_id ≡ row.scheduled_message_id
  pub time_kept : row'.scheduled_at ≡ row.scheduled_at
  pub content_kept : row'.content_snapshot ≡ row.content_snapshot
  pub generations_kept : row'.generation_attempts ≡ row.generation_attempts
  pub attempts_kept : row'.delivery_attempts ≡ row.delivery_attempts
  -- The schedule was active, and has the status and the next time of `s`.
  pub schedule : Schedule
  pub schedule_was : get schedule_key d.scheduled_message_id st.schedules ≡ some schedule
  pub was_active : is_active schedule.status ≡ true
  pub schedule' : Schedule
  pub schedule_is : get schedule_key d.scheduled_message_id st'.schedules ≡ some schedule'
  pub new_status : schedule'.status ≡ s.status
  pub new_time : schedule'.next_scheduled_at ≡ s.next_scheduled_at
  pub next_pending : (n : Delivery) → next ≡ some n → IsPlaced d.scheduled_message_id fresh n st'
  pub none_pending : next ≡ none → NoPending st' d.scheduled_message_id
  pub other_deliveries :
      (j : String) (x : Delivery)
      → (d.id =ₛ j) ≡ false
      → get delivery_key j st.deliveries ≡ some x
      → get delivery_key j st'.deliveries ≡ some x
  pub other_schedules :
      (j : String)
      → (d.scheduled_message_id =ₛ j) ≡ false
      → get schedule_key j st'.schedules ≡ get schedule_key j st.schedules

-- FinalizeOccurrence of a delivery whose new status is not PENDING, which inserts a next occurrence
-- only with an ACTIVE schedule: the stored delivery was pending under the live lease of the given
-- one, and has its status, failure category, times of sending and next attempt, and no lease; the
-- stored schedule was active, and has the given status and next time; the next occurrence is pending
-- at its time if one was given and none is if none was. The other rows are unchanged, and the
-- invariant of the tables is kept.
pub finalize_occurrence-IsFinal :
    (dir : Directory) (fresh : String) (st st' : Store) (d : Delivery) (s : Schedule)
    (next : Option Delivery)
    → Inv st
    → is_pending d.status ≡ false
    → (next ≡ none) ⊎ (is_active s.status ≡ true)
    → finalize_occurrence dir fresh st d s next ≡ ok st'
    → IsFinal fresh st d s next st'
finalize_occurrence-IsFinal dir fresh st st' d s next v off goes_on h =
    let (lease, given, w) = finalize-Settles dir fresh st st' d s next h in
    let r =
      settles-Settled st d.id d.scheduled_message_id (is_leased lease d.updated_at) (final_row d)
        fresh next s.updated_at (moved_row s.status s.next_scheduled_at s.updated_at) st'
        (λ r. refl) (λ r. refl) (leased_only lease d.updated_at) (λ r. off) (λ r. (refl, refl))
        (λ x. refl) w v (λ n e x. ground (arith, e)) in
    let (pend, held, live) = is_leased_ok lease d.updated_at r.row r.held in
    let same : w.row ≡ r.row = ground (arith, w.found, r.was) in
    record {
      inv = r.inv;
      row = r.row;
      row_was = r.was;
      lease = lease;
      lease_given = lease_of-LeaseOf d lease given;
      lease_held = held;
      lease_live = live;
      was_pending = pend;
      own = rw same at w.own;
      row' = final_row d r.row;
      row_is = r.settled;
      status = refl;
      failure = refl;
      sent = refl;
      next_attempt = refl;
      no_token = refl;
      no_expiry = refl;
      own_kept = refl;
      time_kept = refl;
      content_kept = refl;
      generations_kept = refl;
      attempts_kept = refl;
      schedule = r.schedule;
      schedule_was = r.schedule_was;
      was_active = r.was_active;
      schedule' = moved_row s.status s.next_scheduled_at s.updated_at r.schedule;
      schedule_is = r.changed;
      new_status = refl;
      new_time = refl;
      next_pending = r.next_pending;
      none_pending = r.none_pending;
      other_deliveries = r.other_deliveries;
      other_schedules = r.other_schedules;
    }
