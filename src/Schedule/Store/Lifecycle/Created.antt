-- ===== src/Schedule/Store/Lifecycle/Created.antt =====
-- repository.go: what `Create` leaves behind.
use family_assistant.Base.{
  List, String, none, some, true, ◌≡◌, refl, arith, eq_iff, ◌==◌, if◌then◌else◌,
}
use family_assistant.Base.Result.{ok, bind_ok}
use family_assistant.Base.Table.{get, insert, insert-some}
use family_assistant.Base.Text.{◌=ₛ◌}
use family_assistant.Schedule.Model.{
  Time, Schedule, Delivery, ScheduleStatus, DeliveryStatus, is_active, is_pending,
}
use family_assistant.Schedule.Store.Rows.{
  duplicate_key, Store, schedule_key, delivery_key, or_error, insert_delivery,
}
use family_assistant.Schedule.Store.Finish.Laws.{or_error_ok, is_active_ok}
use family_assistant.Schedule.Store.Invariant.{Inv, PendingAt, ActiveIn, insert_delivery-some}
use family_assistant.Schedule.Store.Invariant.Writes.{NoPending, added-Inv}
use family_assistant.Schedule.Store.Lifecycle.{
  created_schedule, created_delivery, insert_schedule, insert_first, create_both, create,
  fill_schedule_status, fill_delivery_status,
}

-- The new rows stand under new keys, and the rows that were there stay.
pub record Created (st : Store) (s : Schedule) (d : Delivery) (st' : Store) : Type 0 where
  pub inv : Inv st'
  pub new_schedule : get schedule_key s.id st.schedules ≡ none
  pub new_delivery : get delivery_key d.id st.deliveries ≡ none
  pub schedules_law :
      (j : String)
      → get schedule_key j st'.schedules
        ≡ (if s.id =ₛ j then some s else get schedule_key j st.schedules)
  pub deliveries_law :
      (j : String)
      → get delivery_key j st'.deliveries
        ≡ (if d.id =ₛ j then some d else get delivery_key j st.deliveries)

module _ (st st1 : Store) (s : Schedule) (h : insert_schedule st s ≡ ok st1) where
  inserted :
      (get schedule_key s.id st.schedules ≡ none)
      × ((j : String)
          → get schedule_key j st1.schedules
            ≡ (if s.id =ₛ j then some s else get schedule_key j st.schedules))
      × (st1.deliveries ≡ st.deliveries)
  unfolding insert_schedule
  inserted =
      let (rows, q, h1) =
        bind_ok (or_error (insert schedule_key s st.schedules) duplicate_key) _ h in
      let (free, law) =
        insert-some schedule_key s st.schedules rows (or_error_ok _ duplicate_key rows q) in
      (free, λ j. ground (arith, law j), ground arith)

  inserted-Inv : Inv st → Inv st1
  inserted-Inv v =
      let (free, law, rows) = inserted in
      let back : (i sid : String) → PendingAt st1 i sid → PendingAt st i sid =
        λ i sid a. (a.0, rw rows at a.1, a.2, a.3) in
      record {
        one_pending = λ i j sid a b. v.one_pending i j sid (back i sid a) (back j sid b);
        pending_active = λ i sid a.
            let (x, found, on) = v.pending_active i sid (back i sid a) in
            (x, ground (arith, law sid, eq_iff s.id sid), on);
        settled = λ i d at off. v.settled i d (rw rows at at) off;
      }

  inserted-NoPending : Inv st → NoPending st1 s.id
  inserted-NoPending v i a =
      let (free, law, rows) = inserted in
      let (x, found, on) = v.pending_active i s.id (a.0, rw rows at a.1, a.2, a.3) in ground arith

insert_first_ok :
    (st st' : Store) (d : Delivery)
    → insert_first st d ≡ ok st'
    → (rows : List Delivery) × (insert_delivery d st.deliveries ≡ some rows)
      × (record st { deliveries = rows } ≡ st')
unfolding insert_first
insert_first_ok st st' d h =
    let (rows, q, h1) = bind_ok (or_error (insert_delivery d st.deliveries) duplicate_key) _ h in
    (rows, or_error_ok _ duplicate_key rows q, ground arith)

both_rows :
    (st st1 st' : Store) (s : Schedule) (d : Delivery)
    → Inv st
    → is_active s.status ≡ true
    → is_pending d.status ≡ true
    → d.scheduled_message_id ≡ s.id
    → insert_schedule st s ≡ ok st1
    → insert_first st1 d ≡ ok st'
    → Created st s d st'
both_rows st st1 st' s d v on pend own h1 h2 =
    let (free, law, same) = inserted st st1 s h1 in
    let (rows, q, e) = insert_first_ok st1 st' d h2 in
    let (new, added_law) = insert_delivery-some d st1.deliveries rows q in
    let here : ActiveIn st1 s.id = (s, ground (arith, law s.id, eq_iff s.id s.id), on) in
    rw (← e) (record {
      inv =
          added-Inv st1 rows d s.id added_law pend own (inserted-NoPending st st1 s h1 v) here
            (inserted-Inv st st1 s h1 v);
      new_schedule = free;
      new_delivery = rw same at new;
      schedules_law = law;
      deliveries_law = λ j. ground (arith, added_law j, same);
    })

pending_is : (s : DeliveryStatus) → is_pending s ≡ true → s ≡ DeliveryStatus.pending
pending_is s h = ground arith

-- What Create leaves: the two rows stand there, the schedule ACTIVE and the delivery PENDING for it at
-- the schedule's start, and they are due as the arguments say, at the start if they say nothing.
pub record IsCreated (st : Store) (s s' : Schedule) (d d' : Delivery) (st' : Store) : Type 0 where
  pub rows : Created st s' d' st'
  pub schedule_at : get schedule_key s'.id st'.schedules ≡ some s'
  pub delivery_at : get delivery_key d'.id st'.deliveries ≡ some d'
  pub active : s'.status ≡ ScheduleStatus.active
  pub pending : d'.status ≡ DeliveryStatus.pending
  pub own : d'.scheduled_message_id ≡ s'.id
  pub at_start : d'.scheduled_at ≡ s.start_at
  pub same_start : s'.start_at ≡ s.start_at
  pub next_default : s.next_scheduled_at ≡ none → s'.next_scheduled_at ≡ some s.start_at
  pub next_given : (t : Time) → s.next_scheduled_at ≡ some t → s'.next_scheduled_at ≡ some t
  pub due_default : d.next_attempt_at ≡ none → d'.next_attempt_at ≡ some s.start_at
  pub due_given : (t : Time) → d.next_attempt_at ≡ some t → d'.next_attempt_at ≡ some t

-- Create of an active schedule and its pending first delivery, their statuses left blank or given:
-- both rows are new, the schedule is ACTIVE, and the delivery is PENDING, scheduled at the start of
-- the schedule, and due (its next attempt) at the given time, or at the start if none is given; all
-- other rows stay, and the invariant of the tables is kept.
pub create-IsCreated :
    (fresh_schedule fresh_delivery : String) (now : Time) (st st' : Store) (s : Schedule)
    (d : Delivery)
    → Inv st
    → is_active (fill_schedule_status s.status) ≡ true
    → is_pending (fill_delivery_status d.status) ≡ true
    → create fresh_schedule fresh_delivery now st s d ≡ ok st'
    → IsCreated st s
        (created_schedule fresh_schedule now s)
        d
        (created_delivery fresh_delivery now (created_schedule fresh_schedule now s) d)
        st'
unfolding create create_both
create-IsCreated fresh_schedule fresh_delivery now st st' s d v on pend h =
    let s' = created_schedule fresh_schedule now s in
    let d' = created_delivery fresh_delivery now s' d in
    let start : d.scheduled_at ≡ s.start_at = ground arith in
    let same : (d.scheduled_at == s.start_at) ≡ true = ground arith in
    let q : create_both fresh_delivery now st s' d true ≡ ok st' = rw same at h in
    let (st1, h1, h2) = bind_ok (insert_schedule st s') _ q in
    let rows = both_rows st st1 st' s' d' v on pend refl h1 h2 in
    record {
      rows = rows;
      schedule_at = ground (arith, rows.schedules_law s'.id, eq_iff s'.id s'.id);
      delivery_at = ground (arith, rows.deliveries_law d'.id, eq_iff d'.id d'.id);
      active = is_active_ok (fill_schedule_status s.status) on;
      pending = pending_is (fill_delivery_status d.status) pend;
      own = refl;
      at_start = start;
      same_start = refl;
      next_default = λ e. rw e refl;
      next_given = λ t e. rw e refl;
      due_default = λ e. rw (e, start) refl;
      due_given = λ t e. rw e refl;
    }
