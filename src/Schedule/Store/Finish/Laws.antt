-- ===== src/Schedule/Store/Finish/Laws.antt =====
-- The locks of `FinalizeOccurrence` and the insertion of the next occurrence.
use family_assistant.Base.{
  String, Option, none, some, true, ◌≡◌, inl, inr, refl, arith, eq_iff, Bool-cases,
}
use family_assistant.Base.Result.{ok, bind_ok}
use family_assistant.Base.Table.{get, find_where_ok}
use family_assistant.Schedule.Model.{Time, Schedule, Delivery, ScheduleStatus, is_active}
use family_assistant.Schedule.Store.Rows.{
  StoreError, Store, insert_delivery, Directory, schedule_key, delivery_key, claim_conflict, Lease,
  or_error, lock_delivery, lock_schedule_by_id,
}
use family_assistant.Schedule.Store.Finish.{
  lock_for_finish, lock_schedule_for_cancellation, find_space_id, insert_if_next,
  insert_next_occurrence, next_row, is_cancelled,
}
use family_assistant.Schedule.Store.Invariant.{Inv, ActiveIn, insert_delivery-some}
use family_assistant.Schedule.Store.Invariant.Writes.{insert_next_occurrence-Inv, NoPending}

pub or_error_ok :
    {A : Type 0} (o : Option A) (e : StoreError) (a : A) → or_error o e ≡ ok a → o ≡ some a
or_error_ok none e a h = cc
or_error_ok (some b) e a h = ground arith

pub is_active_ok : (s : ScheduleStatus) → is_active s ≡ true → s ≡ ScheduleStatus.active
is_active_ok s h = ground arith

lock_by_id_ok :
    (dir : Directory) (st : Store) (id : String) (s : Schedule)
    → lock_schedule_by_id dir st id ≡ ok s
    → (get schedule_key id st.schedules ≡ some s) × (is_active s.status ≡ true) × (s.id ≡ id)
unfolding lock_schedule_by_id
lock_by_id_ok dir st id s h =
    let (at, test, own) =
      find_where_ok schedule_key id _ st.schedules s (or_error_ok _ claim_conflict s h) in
    (at, ground arith, own)

cancellation_ok :
    (dir : Directory) (st : Store) (d : Delivery) (lease : Lease) (s : Schedule)
    → lock_schedule_for_cancellation dir st d lease ≡ ok s
    → (get schedule_key d.scheduled_message_id st.schedules ≡ some s)
      × (is_active s.status ≡ true)
      × (s.id ≡ d.scheduled_message_id)
unfolding lock_schedule_for_cancellation
cancellation_ok dir st d lease s h =
    let (space, _, h1) = bind_ok (find_space_id st d.id lease.token d.updated_at) _ h in
    let (status, _, h2) =
      bind_ok (or_error (dir.space_status space) StoreError.invalid_target) _ h1 in
    let (at, test, own) =
      find_where_ok schedule_key d.scheduled_message_id _ st.schedules s
        (or_error_ok _ claim_conflict s h2) in
    (at, ground arith, own)

pub lock_for_finish_ok :
    (dir : Directory) (st : Store) (d : Delivery) (lease : Lease) (s : Schedule)
    → lock_for_finish dir st d lease ≡ ok s
    → (get schedule_key d.scheduled_message_id st.schedules ≡ some s)
      × (is_active s.status ≡ true)
      × (s.id ≡ d.scheduled_message_id)
unfolding lock_for_finish
lock_for_finish_ok dir st d lease s h = elim (Bool-cases (is_cancelled d.status)) [
  | inl c ↦ cancellation_ok dir st d lease s (rw c at h)
  | inr c ↦ lock_by_id_ok dir st d.scheduled_message_id s (rw c at h)
]

pub lock_delivery_ok :
    (st : Store) (id sid : String) (lease : Lease) (now : Time) (row : Delivery)
    → lock_delivery st id sid lease now ≡ ok row
    → (get delivery_key id st.deliveries ≡ some row) × (row.scheduled_message_id ≡ sid)
unfolding lock_delivery
lock_delivery_ok st id sid lease now row h =
    let (at, test, _) =
      find_where_ok delivery_key id _ st.deliveries row (or_error_ok _ claim_conflict row h) in
    (at, ground (arith, eq_iff row.scheduled_message_id sid))

-- What an insertion of the next occurrence does: the schedules and the rows there are stay, the
-- invariant is kept, and a new pending row stands under its own key.
abbrev pub Appended : String → Store → Store → String → Option Delivery → Time → Type 0
Appended fresh st st' sid next at =
    (st'.schedules ≡ st.schedules)
    × ((j : String) (x : Delivery)
        → get delivery_key j st.deliveries ≡ some x
        → get delivery_key j st'.deliveries ≡ some x)
    × ((n : Delivery)
        → next ≡ some n
        → get delivery_key (next_row fresh sid at n).id st'.deliveries
          ≡ some (next_row fresh sid at n))
    × (next ≡ none → st' ≡ st)

insert_next_appends :
    (fresh : String) (st st' : Store) (sid : String) (n : Delivery) (at : Time)
    → insert_next_occurrence fresh st sid n at ≡ ok st'
    → Appended fresh st st' sid (some n) at
unfolding insert_next_occurrence
insert_next_appends fresh st st' sid n at h =
    let row = next_row fresh sid at n in
    let (rows, q, h1) =
      bind_ok (or_error (insert_delivery row st.deliveries) StoreError.duplicate_key) _ h in
    let (free, law) =
      insert_delivery-some row st.deliveries rows (or_error_ok _ StoreError.duplicate_key rows q) in
    (
      ground arith,
      λ j x found. ground (arith, law j, eq_iff row.id j),
      λ m e.
          let same : n ≡ m = ground arith in
          rw (← same) (ground (arith, law row.id, eq_iff row.id row.id)),
      λ e. absurd (ground arith),
    )

pub insert_if_next_appends :
    (fresh : String) (st st' : Store) (sid : String) (next : Option Delivery) (at : Time)
    → insert_if_next fresh st sid next at ≡ ok st'
    → Appended fresh st st' sid next at
unfolding insert_if_next
insert_if_next_appends fresh st st' sid none at h =
    let e : st ≡ st' = ground arith in
    rw (← e) (refl, λ j x found. found, λ n q. absurd (ground arith), λ q. refl)
insert_if_next_appends fresh st st' sid (some n) at h = insert_next_appends fresh st st' sid n at h

pub insert_if_next-Inv :
    (fresh : String) (st st' : Store) (sid : String) (next : Option Delivery) (at : Time)
    → insert_if_next fresh st sid next at ≡ ok st'
    → NoPending st sid
    → ActiveIn st sid
    → Inv st
    → Inv st'
unfolding insert_if_next
insert_if_next-Inv fresh st st' sid none at h gone on v =
    let e : st ≡ st' = ground arith in rw (← e) v
insert_if_next-Inv fresh st st' sid (some n) at h gone on v =
    insert_next_occurrence-Inv fresh st st' sid n at h gone on v
