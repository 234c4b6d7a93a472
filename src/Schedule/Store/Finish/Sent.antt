-- ===== src/Schedule/Store/Finish/Sent.antt =====
-- `DispatchAndFinalize`: what is recorded when the sender accepted the message.
use family_assistant.Base.{String, Option, none, some, true, false, ◌≡◌, refl, sym, arith, ap, ◌∙◌}
use family_assistant.Base.Result.{Result, ok, err, bind_ok}
use family_assistant.Base.Table.{get, key-get}
use family_assistant.Base.Text.{◌=ₛ◌}
use family_assistant.Schedule.Model.{
  Time, Schedule, Delivery, DeliveryStatus, ScheduleStatus, is_active, is_pending,
}
use family_assistant.Schedule.Store.Rows.{
  StoreError, claim_conflict, Store, Directory, schedule_key, delivery_key, update_delivery,
  is_held,
}
use family_assistant.Schedule.Store.Finish.{
  insert_if_next, moved_row, sent_row, status_after, time_after, finalize_dispatch, Locked,
  lock_for_dispatch, after_dispatch, dispatch_and_finalize, as_claim_conflict, uncertain,
  finish_time,
}
use family_assistant.Schedule.Store.Finish.Laws.{is_active_ok}
use family_assistant.Schedule.Store.Finish.Settled.{Settles, IsPlaced, settles-Settled}
use family_assistant.Schedule.Store.Finish.Locks.{
  IsDispatchable, lock_for_dispatch_ok, held_pending,
}
use family_assistant.Schedule.Store.Invariant.{Inv}
use family_assistant.Schedule.Store.Invariant.Writes.{NoPending}
use family_assistant.Schedule.Store.Finish.Dispatch.{NextFactory, Callback, dispatch_settled}

goes_on :
    (s : Schedule) (next : Option Delivery) (n : Delivery)
    → next ≡ some n
    → is_active s.status ≡ true
    → is_active (status_after s next) ≡ true
goes_on s none n e on = absurd (ground arith)
goes_on s (some m) n e on = on

record Accepted (dir : Directory) (fresh : String) (st : Store) (id token : String) (now : Time)
    (next_occurrence : NextFactory) (dispatch : Callback) (st' : Store) : Type 0 where
  l : Locked
  at : Time
  next : Option Delivery
  locked : lock_for_dispatch dir st id token now ≡ ok l
  sent : dispatch l ≡ ok at
  planned : next_occurrence l.schedule at ≡ ok next
  written : finalize_dispatch fresh st l.delivery l.schedule token next at ≡ ok st'

abbrev answer :
    (fresh : String) (st : Store) (token : String) (next_occurrence : NextFactory)
    → Locked
    → Result StoreError Time
    → Result StoreError Store
answer fresh st token next_occurrence l (err e) = err e
answer fresh st token next_occurrence l (ok at) = after_dispatch next_occurrence fresh st l token at

dispatch_answer :
    (dir : Directory) (fresh : String) (st : Store) (id token : String) (now : Time)
    (next_occurrence : NextFactory) (dispatch : Callback) (l : Locked)
    → lock_for_dispatch dir st id token now ≡ ok l
    → (dispatch_and_finalize dir fresh st id token now next_occurrence dispatch).1
      ≡ answer fresh st token next_occurrence l (dispatch l)
unfolding dispatch_and_finalize
dispatch_answer dir fresh st id token now next_occurrence dispatch l e = ground (arith, e)

uncertain_ok : (r : Result StoreError Store) (st : Store) → uncertain r ≡ ok st → r ≡ ok st
uncertain_ok (ok x) st h = h
uncertain_ok (err e) st h = cc

after_ok :
    (next_occurrence : NextFactory) (fresh : String) (st st' : Store) (l : Locked) (token : String)
    (at : Time)
    → after_dispatch next_occurrence fresh st l token at ≡ ok st'
    → (next : Option Delivery) × (next_occurrence l.schedule at ≡ ok next)
      × (finalize_dispatch fresh st l.delivery l.schedule token next at ≡ ok st')
unfolding after_dispatch
after_ok next_occurrence fresh st st' l token at h =
    let (t, q, h1) = bind_ok (finish_time at) _ (uncertain_ok _ st' h) in
    let (next, n, h2) = bind_ok (next_occurrence l.schedule t) _ h1 in
    let e : t ≡ at = ground arith in (next, rw e at n, rw e at h2)

module _ (dir : Directory) (fresh : String) (st : Store) (id token : String) (now : Time)
    (next_occurrence : NextFactory) (dispatch : Callback) (st' : Store)
    (h : (dispatch_and_finalize dir fresh st id token now next_occurrence dispatch).1
      ≡ ok st') where
  from_lock :
      (l : Locked)
      → lock_for_dispatch dir st id token now ≡ ok l
      → (r : Result StoreError Time) → dispatch l ≡ r
      → Accepted dir fresh st id token now next_occurrence dispatch st'
  from_lock l e (err x) d =
      absurd
        (ground (arith, dispatch_answer dir fresh st id token now next_occurrence dispatch l e))
  from_lock l e (ok at) d =
      let q : after_dispatch next_occurrence fresh st l token at ≡ ok st' =
        ground (arith, dispatch_answer dir fresh st id token now next_occurrence dispatch l e) in
      let (next, n, w) = after_ok next_occurrence fresh st st' l token at q in
      record { l = l; at = at; next = next; locked = e; sent = d; planned = n; written = w }

  refused_lock : (e : StoreError) → ¬ (lock_for_dispatch dir st id token now ≡ err e)
  unfolding dispatch_and_finalize
  refused_lock e q = ground arith

  accepted : Accepted dir fresh st id token now next_occurrence dispatch st'
  accepted = from (lock_for_dispatch dir st id token now) refl
    where
      from :
          (r : Result StoreError Locked)
          → lock_for_dispatch dir st id token now ≡ r
          → Accepted dir fresh st id token now next_occurrence dispatch st'
      from (ok l) e = from_lock l e (dispatch l) refl
      from (err x) e = absurd (refused_lock x e)

claim_conflict_ok :
    (r : Result StoreError Store) (st : Store) → as_claim_conflict r ≡ ok st → r ≡ ok st
claim_conflict_ok (ok x) st h = h
claim_conflict_ok (err e) st h = absurd (ground arith)

finalize_dispatch-Settles :
    (dir : Directory) (fresh : String) (st st' : Store) (id token : String) (now : Time)
    (l : Locked) (next : Option Delivery) (at : Time)
    → IsDispatchable dir st id token now l
    → finalize_dispatch fresh st l.delivery l.schedule token next at ≡ ok st'
    → Settles st l.delivery.id l.schedule.id
        (is_held token at)
        (sent_row at)
        fresh
        next
        at
        (moved_row (status_after l.schedule next) (time_after next) at)
        st'
unfolding finalize_dispatch
finalize_dispatch-Settles dir fresh st st' id token now l next at g h =
    let (st1, w1, h1) =
      bind_ok (update_delivery st l.delivery.id (is_held token at) (sent_row at) claim_conflict) _
        h in
    let (st2, w2, h2) = bind_ok (insert_if_next fresh st1 l.schedule.id next at) _ h1 in
    let key : l.delivery.id ≡ id = key-get delivery_key id st.deliveries l.delivery g.delivery_at in
    record {
      st1 = st1;
      st2 = st2;
      row = l.delivery;
      locked = (l.schedule, simp g.own g.schedule_at, g.active);
      found = simp key g.delivery_at;
      own = sym g.own;
      first = w1;
      second = w2;
      third = claim_conflict_ok _ st' h2;
    }

-- What is left when DispatchAndFinalize succeeds: the sender accepted the locked delivery at some
-- time, under a lease that was live then; the delivery is SENT with that time and without a lease; its
-- schedule goes on with the pending next occurrence if there is one, and is SENT if there is none.
pub record IsSent (dir : Directory) (fresh : String) (st : Store) (id token : String) (now : Time)
    (next_occurrence : NextFactory) (dispatch : Callback) (st' : Store) : Type 0 where
  pub inv : Inv st'
  pub l : Locked
  pub at : Time
  pub next : Option Delivery
  pub guarded : IsDispatchable dir st id token now l
  pub accepted_at : dispatch l ≡ ok at
  pub still_held : is_held token at l.delivery ≡ true
  pub planned : next_occurrence l.schedule at ≡ ok next
  -- The delivery: its schedule, its time, its content and its counts are as they were.
  pub row : Delivery
  pub row_is : get delivery_key id st'.deliveries ≡ some row
  pub status : row.status ≡ DeliveryStatus.sent
  pub sent_at : row.sent_at ≡ some at
  pub no_token : row.lease_token ≡ none
  pub no_expiry : row.lease_expires_at ≡ none
  pub no_attempt : row.next_attempt_at ≡ none
  pub own_kept : row.scheduled_message_id ≡ l.delivery.scheduled_message_id
  pub time_kept : row.scheduled_at ≡ l.delivery.scheduled_at
  pub content_kept : row.content_snapshot ≡ l.delivery.content_snapshot
  pub generations_kept : row.generation_attempts ≡ l.delivery.generation_attempts
  pub attempts_kept : row.delivery_attempts ≡ l.delivery.delivery_attempts
  -- The schedule.
  pub schedule : Schedule
  pub schedule_is : get schedule_key l.schedule.id st'.schedules ≡ some schedule
  pub ended :
      next ≡ none
      → (schedule.status ≡ ScheduleStatus.sent)
        × (schedule.next_scheduled_at ≡ none)
        × NoPending st' l.schedule.id
  pub goes_on :
      (n : Delivery)
      → next ≡ some n
      → (schedule.status ≡ ScheduleStatus.active)
        × (schedule.next_scheduled_at ≡ some n.scheduled_at)
        × IsPlaced l.schedule.id fresh n st'
  pub other_deliveries :
      (j : String) (x : Delivery)
      → (id =ₛ j) ≡ false
      → get delivery_key j st.deliveries ≡ some x
      → get delivery_key j st'.deliveries ≡ some x
  pub other_schedules :
      (j : String)
      → (l.schedule.id =ₛ j) ≡ false
      → get schedule_key j st'.schedules ≡ get schedule_key j st.schedules

-- A successful DispatchAndFinalize sent its delivery: the callback accepted the delivery that was
-- locked, under a lease that was still live at the time of acceptance. The delivery is SENT with that
-- time, without a lease or a next attempt. Without a next occurrence the schedule is SENT and has no
-- pending delivery; with one it is ACTIVE, and that occurrence is pending and due at its time. The
-- other rows are unchanged, and the invariant of the tables is kept.
pub dispatch_sends :
    (dir : Directory) (fresh : String) (st st' : Store) (id token : String) (now : Time)
    (next_occurrence : NextFactory) (dispatch : Callback)
    → Inv st
    → (dispatch_and_finalize dir fresh st id token now next_occurrence dispatch).1 ≡ ok st'
    → IsSent dir fresh st id token now next_occurrence dispatch st'
dispatch_sends dir fresh st st' id token now next_occurrence dispatch v h =
    let a = accepted dir fresh st id token now next_occurrence dispatch st' h in
    let g = lock_for_dispatch_ok dir st id token now a.l a.locked in
    let w = finalize_dispatch-Settles dir fresh st st' id token now a.l a.next a.at g a.written in
    let key : a.l.delivery.id ≡ id =
      key-get delivery_key id st.deliveries a.l.delivery g.delivery_at in
    let r =
      settles-Settled st a.l.delivery.id a.l.schedule.id (is_held token a.at) (sent_row a.at) fresh
        a.next a.at _ st' (λ r. refl) (λ r. refl) (held_pending token a.at) (λ r. refl)
        (λ r. (refl, refl)) (λ x. refl) w v (λ n e x. goes_on a.l.schedule a.next n e g.active) in
    let was : get delivery_key id st.deliveries ≡ some r.row = rw key at r.was in
    let same : r.row ≡ a.l.delivery = ground (arith, was, g.delivery_at) in
    record {
      inv = r.inv;
      l = a.l;
      at = a.at;
      next = a.next;
      guarded = g;
      accepted_at = a.sent;
      still_held = rw same at r.held;
      planned = a.planned;
      row = sent_row a.at a.l.delivery;
      row_is = rw (key, same) at r.settled;
      status = refl;
      sent_at = refl;
      no_token = refl;
      no_expiry = refl;
      no_attempt = refl;
      own_kept = refl;
      time_kept = refl;
      content_kept = refl;
      generations_kept = refl;
      attempts_kept = refl;
      schedule = moved_row (status_after a.l.schedule a.next) (time_after a.next) a.at r.schedule;
      schedule_is = r.changed;
      ended = λ e. (ap (status_after a.l.schedule) e, ap time_after e, r.none_pending e);
      goes_on = λ n e. (
        ap (status_after a.l.schedule) e ∙ is_active_ok a.l.schedule.status g.active,
        ap time_after e,
        r.next_pending n e,
      );
      other_deliveries = λ j x miss found. r.other_deliveries j x (rw key miss) found;
      other_schedules = r.other_schedules;
    }

-- A delivery that DispatchAndFinalize sent is not sent by another call, whatever its token, time and
-- callback, in tables that hold the delivery as the first call left it: the second call ends in a
-- claim conflict before its callback.
pub dispatch_once :
    (dir : Directory) (fresh : String) (st st' : Store) (id token : String) (now : Time)
    (next_occurrence : NextFactory) (dispatch : Callback)
    → Inv st
    → (dispatch_and_finalize dir fresh st id token now next_occurrence dispatch).1 ≡ ok st'
    → (later : Directory) (fresh' token' : String) (now' : Time) (next' : NextFactory)
      (dispatch' : Callback) (st2 : Store)
    → get delivery_key id st2.deliveries ≡ get delivery_key id st'.deliveries
    → dispatch_and_finalize later fresh' st2 id token' now' next' dispatch'
      ≡ (none, err claim_conflict)
dispatch_once dir fresh st st' id token now next_occurrence dispatch v h later fresh' token' now'
      next' dispatch' st2 same =
    let sent = dispatch_sends dir fresh st st' id token now next_occurrence dispatch v h in
    dispatch_settled later fresh' st2 id token' now' next' dispatch' sent.row (same ∙ sent.row_is)
      (ap is_pending sent.status)
