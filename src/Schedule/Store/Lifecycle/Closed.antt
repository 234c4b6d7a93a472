-- ===== src/Schedule/Store/Lifecycle/Closed.antt =====
-- repository.go: what `Cancel` and `Unsubscribe` leave behind.
use family_assistant.Base.{
  String, Option, none, some, true, false, List, ◌≡◌, refl, arith, eq_iff, map, Bool-cases, inl,
  inr,
}
use mathlib.Core.Option
use family_assistant.Base.Result.{ok, err, bind_ok}
use family_assistant.Base.Table.{get}
use family_assistant.Base.Text.{◌=ₛ◌}
use family_assistant.Schedule.Model.{
  Time, Schedule, Delivery, DeliveryStatus, ScheduleStatus, is_active, is_pending,
}
use family_assistant.Schedule.Store.Rows.{
  claim_conflict, Store, Directory, schedule_key, delivery_key, update_schedule,
}
use family_assistant.Schedule.Store.Claim.{is_one_of}
use family_assistant.Schedule.Store.Finish.{dispatch_and_finalize}
use family_assistant.Schedule.Store.Finish.Dispatch.{NextFactory, Callback, dispatch_settled}
use family_assistant.Schedule.Store.Invariant.{Inv, PendingAt, update_schedule_ok}
use family_assistant.Schedule.Store.Invariant.Writes.{NoPending, update_schedule-Inv}
use family_assistant.Schedule.Store.Lifecycle.Cancelled.{
  pending_listed, lock_schedule_ok, cancel_if_any_law, cancelled-Inv, none_pending_of,
}
use family_assistant.Schedule.Store.Lifecycle.{
  lock_schedule, is_pending_of, pending_deliveries, cancel_where, cancel_if_any, closed_row,
  transition_terminal, cancel,
}

-- The delivery is CANCELLED and without a lease; but for the time of the update, its other fields are
-- as they were.
pub record IsCancelled (d d' : Delivery) : Type 0 where
  pub status : d'.status ≡ DeliveryStatus.cancelled
  pub no_token : d'.lease_token ≡ none
  pub no_expiry : d'.lease_expires_at ≡ none
  pub own : d'.scheduled_message_id ≡ d.scheduled_message_id
  pub time : d'.scheduled_at ≡ d.scheduled_at
  pub content : d'.content_snapshot ≡ d.content_snapshot
  pub not_sent : d'.sent_at ≡ d.sent_at
  pub generations : d'.generation_attempts ≡ d.generation_attempts
  pub attempts : d'.delivery_attempts ≡ d.delivery_attempts
  pub next_attempt : d'.next_attempt_at ≡ d.next_attempt_at
  pub failure : d'.failure_category ≡ d.failure_category
  pub created : d'.created_at ≡ d.created_at

abbrev pub CancelledAt : Store → Store → String → Type 0
CancelledAt st st' j =
    (d : Delivery) × (d' : Delivery) × (get delivery_key j st.deliveries ≡ some d)
    × (get delivery_key j st'.deliveries ≡ some d')
    × IsCancelled d d'

cancel_where-IsCancelled :
    (id : String) (at : Time) (d : Delivery)
    → is_pending_of id d ≡ true
    → IsCancelled d (cancel_where (is_pending_of id) at d)
cancel_where-IsCancelled id at d h = rw h (record {
  status = refl;
  no_token = refl;
  no_expiry = refl;
  own = refl;
  time = refl;
  content = refl;
  not_sent = refl;
  generations = refl;
  attempts = refl;
  next_attempt = refl;
  failure = refl;
  created = refl;
})

-- What a closed schedule leaves: its row has the new status and no next time, its pending deliveries
-- are CANCELLED and without a lease, and the other rows of both tables are as they were; `ids` lists
-- the deliveries that were pending.
pub record Closed (st : Store) (space id : String) (by : Option String) (status : ScheduleStatus)
    (at : Time) (ids : List String) (st' : Store) : Type 0 where
  pub inv : Inv st'
  pub none_pending : NoPending st' id
  pub schedule : Schedule
  pub was : get schedule_key id st.schedules ≡ some schedule
  pub was_active : is_active schedule.status ≡ true
  pub in_space : schedule.space_id ≡ space
  pub closed : get schedule_key id st'.schedules ≡ some (closed_row by status at schedule)
  pub new_status : (closed_row by status at schedule).status ≡ status
  pub no_next : (closed_row by status at schedule).next_scheduled_at ≡ none
  pub others :
      (j : String)
      → (id =ₛ j) ≡ false
      → get schedule_key j st'.schedules ≡ get schedule_key j st.schedules
  pub listed : (j : String) → PendingAt st j id → is_one_of j ids ≡ true
  pub cancelled : (j : String) → PendingAt st j id → CancelledAt st st' j
  pub history :
      (j : String) (d : Delivery)
      → get delivery_key j st.deliveries ≡ some d
      → is_pending d.status ≡ false
      → get delivery_key j st'.deliveries ≡ some d
  pub elsewhere :
      (j : String) (d : Delivery)
      → get delivery_key j st.deliveries ≡ some d
      → (d.scheduled_message_id =ₛ id) ≡ false
      → get delivery_key j st'.deliveries ≡ some d
  -- No delivery is added.
  pub no_more :
      (j : String)
      → get delivery_key j st.deliveries ≡ none
      → get delivery_key j st'.deliveries ≡ none

transition_terminal_ok :
    (dir : Directory) (st st' : Store) (space id : String) (by : Option String)
    (status : ScheduleStatus) (at : Time) (ids : List String)
    → transition_terminal dir st space id by status at ≡ ok (ids, st')
    → (s : Schedule) × (lock_schedule dir st space id ≡ ok s)
      × (update_schedule
            (cancel_if_any (pending_deliveries st id) id at st)
            id
            (closed_row by status at)
          ≡ ok st')
      × (ids ≡ map delivery_key (pending_deliveries st id))
unfolding transition_terminal
transition_terminal_ok dir st st' space id by status at ids h =
    let (s, l, h1) = bind_ok (lock_schedule dir st space id) _ h in
    let (closed, w, h2) = bind_ok _ _ h1 in
    let (_, _, own, _) = lock_schedule_ok dir st space id s l in
    let e : closed ≡ st' = ground arith in
    let w' : update_schedule (cancel_if_any (pending_deliveries st s.id) s.id at st) s.id
          (closed_row by status at)
        ≡ ok st' =
      rw (← e) w in
    let i : ids ≡ map delivery_key (pending_deliveries st s.id) = ground arith in
    (s, l, rw own at w', rw own at i)

-- A successful Cancel or Unsubscribe (transitionTerminal): the schedule was active in that space
-- and has the new status and no next time; its deliveries that were pending are CANCELLED and without
-- a lease, keep their other fields but for the time of the update, and are listed for the removal from
-- the due index. The other schedules, the settled deliveries and the deliveries of other schedules are
-- unchanged, none is added, and the invariant of the tables is kept.
pub transition_terminal_closes :
    (dir : Directory) (st st' : Store) (space id : String) (by : Option String)
    (status : ScheduleStatus) (at : Time) (ids : List String)
    → Inv st
    → transition_terminal dir st space id by status at ≡ ok (ids, st')
    → Closed st space id by status at ids st'
unfolding is_pending_of
transition_terminal_closes dir st st' space id by status at ids v h =
    let (s, l, w, listed) = transition_terminal_ok dir st st' space id by status at ids h in
    let (found, active, own, in_space) = lock_schedule_ok dir st space id s l in
    let st1 = cancel_if_any (pending_deliveries st id) id at st in
    let same = (cancel_if_any_law st id at "").0 in
    let law : (j : String)
        → get delivery_key j st1.deliveries
          ≡ Option.map (cancel_where (is_pending_of id) at) (get delivery_key j st.deliveries) =
      λ j. (cancel_if_any_law st id at j).1 in
    let (x, x_at, _, rows, moved) =
      update_schedule_ok st1 st' id (closed_row by status at) (λ r. refl) w in
    let one : x ≡ s = ground arith in
    let gone = none_pending_of st st1 id at law in
    record {
      inv =
          update_schedule-Inv st1 st' id (closed_row by status at) (λ r. refl) w (inr gone)
            (cancelled-Inv st st1 (is_pending_of id) at same law v);
      none_pending = λ i a. gone i (a.0, rw rows at a.1, a.2, a.3);
      schedule = s;
      was = found;
      was_active = active;
      in_space = in_space;
      closed = ground (arith, moved id, eq_iff id id);
      new_status = refl;
      no_next = refl;
      others = λ j miss. ground (arith, moved j);
      listed = λ j a. rw listed (pending_listed st j id a);
      cancelled = λ j (d, was, on, own). (
        d,
        cancel_where (is_pending_of id) at d,
        was,
        rw rows (ground (arith, law j)),
        cancel_where-IsCancelled id at d (ground (arith, eq_iff d.scheduled_message_id id)),
      );
      elsewhere = λ j d was away. rw rows (ground (arith, law j));
      no_more = λ j free. rw rows (ground (arith, law j));
      history = λ j d was off. rw rows (ground (arith, law j));
    }

-- After Cancel, no delivery of the schedule is handed to the sender: whatever lease a worker holds,
-- its DispatchAndFinalize ends in a claim conflict before its callback.
pub cancel_stops_dispatch :
    (dir : Directory) (st st' : Store) (space id : String) (at : Time) (ids : List String)
    → Inv st
    → cancel dir st space id at ≡ ok (ids, st')
    → (later : Directory) (fresh i token : String) (now : Time) (next_occurrence : NextFactory)
      (dispatch : Callback) (row : Delivery)
    → get delivery_key i st'.deliveries ≡ some row
    → row.scheduled_message_id ≡ id
    → dispatch_and_finalize later fresh st' i token now next_occurrence dispatch
      ≡ (none, err claim_conflict)
unfolding cancel
cancel_stops_dispatch dir st st' space id at ids v h later fresh i token now next_occurrence
      dispatch row found own =
    let closed =
      transition_terminal_closes dir st st' space id none ScheduleStatus.cancelled at ids v h in
    elim (Bool-cases (is_pending row.status)) [
      | inl on ↦ absurd (closed.none_pending i (row, found, on, own))
      | inr off ↦
          dispatch_settled later fresh st' i token now next_occurrence dispatch row found off
    ]
